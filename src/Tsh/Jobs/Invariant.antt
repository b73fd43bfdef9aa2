-- ===== src/Tsh/Jobs/Invariant.antt =====
-- The well-formedness of the job table of assign3/tsh-jobs.c, and what keeps it.
use cs.Prelude.{
  ℕ, zero, suc, ◌+◌, ◌<◌, ◌≡◌, refl, ap, ◌∙◌, ◌≢◌, ◌⊎◌, inl, inr, true, false, none, some, List, [],
  ◌∷◌, arith, ltb, All, All-mono, length, Option-cases, Bool-cases,
}
use cs.Tsh.Jobs.{
  Text, JobState, Job, JobTable, fill_slot, add_job, clear_slot, delete_job, get_max_job_id,
  set_state, advance, max_jobs, max_job_id, initial_table,
}
use cs.Tsh.Jobs.Lookup.{NoPid, NoJid}
use cs.Tsh.Jobs.Slots.{
  IsSlot, Distinct, fill-All, clear-All, fill-length, clear-length, fill-Distinct, clear-Distinct,
  next-All, get_max_job_id-All,
}

pub record IsWellFormed (t : JobTable) : Type 0 where
  pub size : length t.jobs ≡ max_jobs
  pub slots : All (IsSlot t.next_job_id) t.jobs
  pub distinct : Distinct t.jobs
  pub next_pos : 0 < t.next_job_id

pub initial-IsWellFormed : IsWellFormed initial_table
initial-IsWellFormed = ground arith

-- The entry that `addJob` writes.
abbrev pub entry : JobTable → ℕ → JobState → Text → Job
entry t pid state line = record {
  pid = pid;
  jid = t.next_job_id;
  state = state;
  command_line = line;
}

-- The two ways that `addJob` ends, with the table that each leaves.
pub add_job-cases :
    (t : JobTable) (pid : ℕ) (state : JobState) (line : Text)
    → (add_job t pid state line ≡ (t, false))
      ⊎ ((js : List Job) × (0 < pid)
          × (fill_slot (entry t pid state line) t.jobs ≡ some js)
          × (add_job t pid state line
              ≡ (record { jobs = js; next_job_id = advance t.next_job_id }, true)))
unfolding add_job
add_job-cases t pid state line = elim (Bool-cases (ltb pid 1)) [
  | inl e ↦ inl (rw e)
  | inr e ↦ elim (Option-cases (fill_slot (entry t pid state line) t.jobs)) [
    | inl g ↦ inl (ground (arith, e, g))
    | inr (js, g) ↦ inr (js, ground arith, g, ground (arith, e, g))
  ]
]

pub delete_job-cases :
    (t : JobTable) (pid : ℕ)
    → ((delete_job t pid ≡ (t, false)) × ((0 < pid) → clear_slot pid t.jobs ≡ none))
      ⊎ ((js : List Job) × (0 < pid)
          × (clear_slot pid t.jobs ≡ some js)
          × (delete_job t pid ≡ (record { jobs = js; next_job_id = get_max_job_id js + 1 }, true)))
unfolding delete_job
delete_job-cases t pid = elim (Bool-cases (ltb pid 1)) [
  | inl e ↦ inl (rw e, ground arith)
  | inr e ↦ elim (Option-cases (clear_slot pid t.jobs)) [
    | inl g ↦ inl (ground (arith, e, g), λ _. g)
    | inr (js, g) ↦ inr (js, ground arith, g, ground (arith, e, g))
  ]
]

jid-lt-next : (n : ℕ) (js : List Job) → 0 < n → All (IsSlot n) js → All (λ j. j.jid < n) js
jid-lt-next n [] pos h = tt
jid-lt-next n (j ∷ js) pos h = (ground arith, jid-lt-next n js pos h.1)

fresh-NoJid : (n : ℕ) (js : List Job) → All (λ j. j.jid < n) js → NoJid n js
fresh-NoJid n js h = All-mono js (λ j b. omega arith) h

-- In a well-formed table, a process id that the table does not hold and a next job id below its
-- maximum: `addJob` keeps the table well formed, whether or not there is room.
pub add_job-IsWellFormed :
    (t : JobTable) (pid : ℕ) (state : JobState) (line : Text)
    → IsWellFormed t
    → NoPid pid t.jobs
    → t.next_job_id < max_job_id
    → IsWellFormed (add_job t pid state line).0
unfolding advance
add_job-IsWellFormed t pid state line w apart small = elim (add_job-cases t pid state line) [
  | inl e ↦ rw e w
  | inr (js, pos, g, e) ↦
      let new = entry t pid state line in
      let below = jid-lt-next t.next_job_id t.jobs w.next_pos w.slots in
      let step : advance t.next_job_id ≡ t.next_job_id + 1 = ground arith in
      rw (e, step)
        (record {
          size = fill-length new t.jobs js g ∙ w.size;
          slots =
              fill-All (IsSlot (t.next_job_id + 1)) new t.jobs js g (ground (arith, w.next_pos)) (
                next-All t.next_job_id (t.next_job_id + 1) t.jobs w.slots
                  (All-mono t.jobs (λ j b. omega arith) below));
          distinct =
              fill-Distinct new t.jobs js g apart (fresh-NoJid t.next_job_id t.jobs below)
                w.distinct;
          next_pos = omega arith;
        })
]

-- `deleteJob` keeps a well-formed table well formed, whatever the process id.
pub delete_job-IsWellFormed :
    (t : JobTable) (pid : ℕ) → IsWellFormed t → IsWellFormed (delete_job t pid).0
delete_job-IsWellFormed t pid w = elim (delete_job-cases t pid) [
  | inl (e, _) ↦ rw e w
  | inr (js, pos, g, e) ↦ rw e (record {
    size = clear-length pid t.jobs js g ∙ w.size;
    slots =
        next-All t.next_job_id (get_max_job_id js + 1) js
          (clear-All (IsSlot t.next_job_id) pid t.jobs js g (λ j h. ground arith) w.slots)
          (All-mono js (λ j b. omega arith) (get_max_job_id-All js));
    distinct = clear-Distinct t.next_job_id pid t.jobs js g w.slots w.distinct;
    next_pos = omega arith;
  })
]

-- A write of `state` through a slot's pointer touches no id; the slot must hold a job.
pub set_state-All :
    (P : Job → Type 0) (i : ℕ) (s : JobState) (js : List Job)
    → ((j : Job) → P j → P (record j { state = s }))
    → All P js
    → All P (set_state i s js)
unfolding set_state
set_state-All P i s [] f h = h
set_state-All P zero s (j ∷ js) f h = (f j h.0, h.1)
set_state-All P (suc i) s (j ∷ js) f h = (h.0, set_state-All P i s js f h.1)

set_state-length : (i : ℕ) (s : JobState) (js : List Job) → length (set_state i s js) ≡ length js
unfolding set_state
set_state-length i s [] = refl
set_state-length zero s (j ∷ js) = refl
set_state-length (suc i) s (j ∷ js) = ap suc (set_state-length i s js)

set_state-Distinct :
    (i : ℕ) (s : JobState) (js : List Job) → Distinct js → Distinct (set_state i s js)
unfolding set_state
set_state-Distinct i s [] h = h
set_state-Distinct zero s (j ∷ js) h = h
set_state-Distinct (suc i) s (j ∷ js) h = (
  λ live. (
    set_state-All (λ k. k.pid ≢ j.pid) i s js (λ k q. q) (h.0 live).0,
    set_state-All (λ k. k.jid ≢ j.jid) i s js (λ k q. q) (h.0 live).1,
  ),
  set_state-Distinct i s js h.1,
)

-- The slot that is written holds a job.
abbrev pub Taken : List Job → ℕ → Type 0
Taken [] i = ⊥
Taken (j ∷ js) zero = j.pid ≢ 0
Taken (j ∷ js) (suc i) = Taken js i

set_state-slots :
    (n i : ℕ) (s : JobState) (js : List Job)
    → Taken js i
    → All (IsSlot n) js
    → All (IsSlot n) (set_state i s js)
unfolding set_state
set_state-slots n i s [] live h = h
set_state-slots n zero s (j ∷ js) live h = ground arith
set_state-slots n (suc i) s (j ∷ js) live h = (h.0, set_state-slots n i s js live h.1)

pub set_state-IsWellFormed :
    (t : JobTable) (i : ℕ) (s : JobState)
    → IsWellFormed t
    → Taken t.jobs i
    → IsWellFormed (record t { jobs = set_state i s t.jobs })
set_state-IsWellFormed t i s w live = record {
  size = set_state-length i s t.jobs ∙ w.size;
  slots = set_state-slots t.next_job_id i s t.jobs live w.slots;
  distinct = set_state-Distinct i s t.jobs w.distinct;
  next_pos = w.next_pos;
}
