-- ===== src/Tsh/Jobs/Table.antt =====
-- The job table of assign3/tsh-jobs.c as a finite map from process ids to jobs.
use cs.Prelude.{
  ℕ, ◌<◌, ◌≡◌, refl, ◌∙◌, ◌≢◌, ◌⊎◌, inl, inr, true, none, some, List, [], ◌∷◌, arith, ◌==◌,
  if◌then◌else◌, All, Option-cases, Bool-cases,
}
use cs.Tsh.Jobs.{
  Text, JobState, Job, JobTable, can_new_job_be_added, fill_slot, add_job, clear_slot, delete_job,
  advance, max_job_id, get_jid_from_pid, jid_of_pid,
}
use cs.Tsh.Jobs.Lookup.{
  NoPid, NoJid, fill_slot-room, fill_slot-full, job_with_pid, job_with_jid, first_pid, first_jid,
  job_with_pid-first, job_with_jid-first, first_pid-fill, first_pid-clear, first_pid-NoPid,
  NoPid-clear_none,
}
use cs.Tsh.Jobs.Slots.{IsSlot, Distinct}
use cs.Tsh.Jobs.Invariant.{IsWellFormed, entry, add_job-cases, delete_job-cases}

-- For a process id above 0, `addJob` succeeds exactly when `canNewJobBeAdded` says so.
pub add_job-room :
    (t : JobTable) (pid : ℕ) (state : JobState) (line : Text)
    → 0 < pid
    → (add_job t pid state line).1 ≡ can_new_job_be_added t.jobs
unfolding add_job
add_job-room t pid state line pos = elim (Bool-cases (can_new_job_be_added t.jobs)) [
  | inl e ↦ let (js, g) = fill_slot-room (entry t pid state line) t.jobs e in ground (arith, e, g)
  | inr e ↦ ground (arith, e, fill_slot-full (entry t pid state line) t.jobs e)
]

-- After a successful `addJob` of a process id that the table did not hold, `getJobByPID` finds the
-- new entry under it, and under every other id above 0 what it found before.
pub job_with_pid-add_job :
    (t : JobTable) (pid : ℕ) (state : JobState) (line : Text) (q : ℕ)
    → NoPid pid t.jobs
    → (add_job t pid state line).1 ≡ true
    → 0 < q
    → job_with_pid (add_job t pid state line).0.jobs q
      ≡ (if pid == q then some (entry t pid state line) else job_with_pid t.jobs q)
job_with_pid-add_job t pid state line q apart done pos = elim (add_job-cases t pid state line) [
  | inl e ↦ cc
  | inr (js, _, g, e) ↦
      rw (e, job_with_pid-first js q pos, job_with_pid-first t.jobs q pos)
        (first_pid-fill (entry t pid state line) t.jobs js q pos apart g)
]

pub NoPid-clear_slot :
    (pid : ℕ) (js r : List Job) → 0 < pid → clear_slot pid js ≡ some r → Distinct js → NoPid pid r
unfolding clear_slot
NoPid-clear_slot pid [] r pos h d = cc
NoPid-clear_slot pid (j ∷ js) r pos h d = elim (Option-cases (clear_slot pid js)) [
  | inl e ↦ ground (arith, e, NoPid-clear_none pid js e)
  | inr (s, e) ↦ ground (arith, e, NoPid-clear_slot pid js s pos e d.1)
]

-- In a well-formed table, after `deleteJob`, `getJobByPID` finds nothing under the deleted id, and
-- under every other id above 0 what it found before.
pub job_with_pid-delete_job :
    (t : JobTable) (pid q : ℕ)
    → IsWellFormed t
    → 0 < q
    → job_with_pid (delete_job t pid).0.jobs q ≡ (if pid == q then none else job_with_pid t.jobs q)
job_with_pid-delete_job t pid q w pos = elim (delete_job-cases t pid) [
  | inl (e, gone) ↦
      rw (e, job_with_pid-first t.jobs q pos)
        (elim (Bool-cases (pid == q)) [
          | inl same ↦
              let p : pid ≡ q = ground arith in
              let miss = NoPid-clear_none pid t.jobs (gone (ground arith)) in
              ground (arith, first_pid-NoPid pid t.jobs miss)
          | inr other ↦ rw other
        ])
  | inr (js, live, g, e) ↦
      rw (e, job_with_pid-first js q pos, job_with_pid-first t.jobs q pos)
        (elim (Bool-cases (pid == q)) [
          | inl same ↦
              let miss = NoPid-clear_slot pid t.jobs js live g w.distinct in
              ground (arith, first_pid-NoPid pid js miss)
          | inr other ↦ rw other (first_pid-clear pid t.jobs js q pos (ground arith) g)
        ])
]

first_jid-NoJid : (d : ℕ) (js : List Job) → NoJid d js → first_jid d js ≡ none
unfolding first_jid
first_jid-NoJid d [] h = refl
first_jid-NoJid d (j ∷ js) h = ground (arith, first_jid-NoJid d js)

-- A job found later in the table does not share the job id of the slot before it.
jid-ne :
    (n : ℕ) (j k : Job) (js : List Job)
    → IsSlot n k
    → (k.pid ≢ 0 → NoPid k.pid js × NoJid k.jid js)
    → first_jid j.jid js ≡ some j
    → 0 < j.jid
    → k.jid ≢ j.jid
jid-ne n j k js slot apart found pos = elim (Bool-cases (k.pid == 0)) [
  | inl e ↦ ground (arith, e)
  | inr e ↦ λ same.
      let live : k.pid ≢ 0 = ground arith in
      let gone = first_jid-NoJid k.jid js (apart live).1 in ground (arith, gone)
]

first_jid-first_pid :
    (n p : ℕ) (j : Job) (js : List Job)
    → 0 < p
    → All (IsSlot n) js
    → Distinct js
    → first_pid p js ≡ some j
    → (first_jid j.jid js ≡ some j) × (jid_of_pid p js ≡ j.jid) × (0 < j.jid) × (j.pid ≡ p)
unfolding first_pid first_jid jid_of_pid
first_jid-first_pid n p j [] pos slots d h = cc
first_jid-first_pid n p j (k ∷ js) pos slots d h = elim (Bool-cases (k.pid == p)) [
  | inl e ↦ ground (arith, e)
  | inr e ↦
      let rest = first_jid-first_pid n p j js pos slots.1 d.1 (rw e at h) in
      let differ = jid-ne n j k js slots.0 d.0 rest.0 rest.2 in ground (arith, e, rest, differ)
]

-- In a well-formed table, a job that `getJobByPID` finds under a process id above 0 is found under
-- its job id too: `getJIDFromPID` gives that id, `getJobByJID` leads from it to the same job, and
-- the job has that process id.
pub job_with_jid-get_jid_from_pid :
    (t : JobTable) (pid : ℕ) (j : Job)
    → IsWellFormed t
    → 0 < pid
    → job_with_pid t.jobs pid ≡ some j
    → (get_jid_from_pid t.jobs pid ≡ j.jid) × (job_with_jid t.jobs j.jid ≡ some j) × (j.pid ≡ pid)
unfolding get_jid_from_pid
job_with_jid-get_jid_from_pid t pid j w pos h =
    let found = job_with_pid-first t.jobs pid pos in
    let r = first_jid-first_pid t.next_job_id pid j t.jobs pos w.slots w.distinct (rw found at h) in
    (ground (arith, r), job_with_jid-first t.jobs j.jid r.2 ∙ r.0, r.3)

-- Some entry that holds a job has this job id.
abbrev pub HasJid : ℕ → List Job → Type 0
HasJid d [] = ⊥
HasJid d (j ∷ js) = ((j.pid ≢ 0) × (j.jid ≡ d)) ⊎ HasJid d js

not-NoJid : (new : Job) (js r : List Job) → fill_slot new js ≡ some r → ¬ NoJid new.jid r
unfolding fill_slot
not-NoJid new [] r h apart = cc
not-NoJid new (j ∷ js) r h apart = elim (Option-cases (fill_slot new js)) [
  | inl e ↦ ground (arith, e)
  | inr (s, e) ↦ ground (arith, e, not-NoJid new js s e)
]

HasJid-not-NoJid : (d : ℕ) (js : List Job) → HasJid d js → ¬ NoJid d js
HasJid-not-NoJid d [] h apart = h
HasJid-not-NoJid d (j ∷ js) (inl h) apart = apart.0 h.1
HasJid-not-NoJid d (j ∷ js) (inr h) apart = HasJid-not-NoJid d js h apart.1

not-Distinct-fill :
    (new : Job) (js r : List Job)
    → new.pid ≢ 0
    → HasJid new.jid js
    → fill_slot new js ≡ some r
    → ¬ Distinct r
unfolding fill_slot
not-Distinct-fill new [] r live h g d = h
not-Distinct-fill new (j ∷ js) r live h g d = elim (Bool-cases (j.pid == 0)) [
  | inl e ↦ let taken = HasJid-not-NoJid new.jid js in ground (arith, e, taken)
  | inr e ↦ elim (Option-cases (fill_slot new js)) [
    | inl f ↦ ground (arith, e, f)
    | inr (s, f) ↦ ground (
      arith,
      e,
      f,
      not-NoJid new js s f,
      λ (k : HasJid new.jid js). not-Distinct-fill new js s live k f,
    )
  ]
]

HasJid-fill :
    (d : ℕ) (new : Job) (js r : List Job) → fill_slot new js ≡ some r → HasJid d js → HasJid d r
unfolding fill_slot
HasJid-fill d new [] r g h = absurd h
HasJid-fill d new (j ∷ js) r g h = elim (Option-cases (fill_slot new js)) [
  | inl e ↦ ground (arith, e)
  | inr (s, e) ↦ ground (arith, e, λ (k : HasJid d js). HasJid-fill d new js s e k)
]

-- If the next job id is at its maximum while a job with id 1 is alive, two more jobs that find room
-- leave the job table with two live jobs that share an id.
pub add_job-wraps :
    (t : JobTable) (p q : ℕ) (s u : JobState) (l m : Text)
    → t.next_job_id ≡ max_job_id
    → HasJid 1 t.jobs
    → (add_job t p s l).1 ≡ true
    → (add_job (add_job t p s l).0 q u m).1 ≡ true
    → ¬ Distinct (add_job (add_job t p s l).0 q u m).0.jobs
unfolding advance
add_job-wraps t p q s u l m full old done again = elim (add_job-cases t p s l) [
  | inl e ↦ cc
  | inr (js, _, g, e) ↦
      let t' = (add_job t p s l).0 in
      let one : t'.next_job_id ≡ 1 = ground (arith, e) in
      let kept : HasJid 1 t'.jobs = rw e (HasJid-fill 1 (entry t p s l) t.jobs js g old) in
      elim (add_job-cases t' q u m) [
        | inl f ↦ cc
        | inr (ks, live, h, f) ↦
            rw f (not-Distinct-fill (entry t' q u m) t'.jobs ks (ground arith) (rw one kept) h)
      ]
]
