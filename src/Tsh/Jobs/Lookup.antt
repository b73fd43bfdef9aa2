-- ===== src/Tsh/Jobs/Lookup.antt =====
-- What the searches of assign3/tsh-jobs.c find in the table, before and after an update.
use cs.Prelude.{
  ℕ, suc, ◌<◌, ◌≡◌, refl, ◌≢◌, inl, inr, true, false, Option, none, some, List, [], ◌∷◌, arith,
  ◌==◌, if◌then◌else◌, get_elem?, All, Option-cases, Bool-cases,
}
use mathlib.Core.Option
use cs.Tsh.Jobs.{
  Job, can_new_job_be_added, fill_slot, clear_slot, find_pid, find_jid, get_job_by_pid,
  get_job_by_jid,
}

-- No entry has this process id; no entry has this job id.
abbrev pub NoPid : ℕ → List Job → Type 0
NoPid pid = All (λ j. j.pid ≢ pid)

abbrev pub NoJid : ℕ → List Job → Type 0
NoJid jid = All (λ j. j.jid ≢ jid)

-- What a `job_t *` points to.
abbrev pub deref : List Job → Option ℕ → Option Job
deref js none = none
deref js (some i) = get_elem? js i

-- The entry that `getJobByPID` hands out, and the one that `getJobByJID` does.
abbrev pub job_with_pid : List Job → ℕ → Option Job
job_with_pid js pid = deref js (get_job_by_pid js pid)

abbrev pub job_with_jid : List Job → ℕ → Option Job
job_with_jid js jid = deref js (get_job_by_jid js jid)

-- The first entry with the process id, read off directly.
unfoldable pub first_pid : ℕ → List Job → Option Job
first_pid pid [] = none
first_pid pid (j ∷ js) = if j.pid == pid then some j else first_pid pid js

unfoldable pub first_jid : ℕ → List Job → Option Job
first_jid jid [] = none
first_jid jid (j ∷ js) = if j.jid == jid then some j else first_jid jid js

deref-suc :
    (j : Job) (js : List Job) (o : Option ℕ) → deref (j ∷ js) (Option.map suc o) ≡ deref js o
deref-suc j js none = refl
deref-suc j js (some i) = refl

deref-find_pid : (pid : ℕ) (js : List Job) → deref js (find_pid pid js) ≡ first_pid pid js
unfolding find_pid first_pid
deref-find_pid pid [] = refl
deref-find_pid pid (j ∷ js) =
    ground (arith, deref-find_pid pid js, deref-suc j js (find_pid pid js))

deref-find_jid : (jid : ℕ) (js : List Job) → deref js (find_jid jid js) ≡ first_jid jid js
unfolding find_jid first_jid
deref-find_jid jid [] = refl
deref-find_jid jid (j ∷ js) =
    ground (arith, deref-find_jid jid js, deref-suc j js (find_jid jid js))

pub job_with_pid-first :
    (js : List Job) (pid : ℕ) → 0 < pid → job_with_pid js pid ≡ first_pid pid js
unfolding get_job_by_pid
job_with_pid-first js pid h = ground (arith, deref-find_pid pid js)

pub job_with_jid-first :
    (js : List Job) (jid : ℕ) → 0 < jid → job_with_jid js jid ≡ first_jid jid js
unfolding get_job_by_jid
job_with_jid-first js jid h = ground (arith, deref-find_jid jid js)

-- The free slot is taken by the new entry; every other search finds what it found.
pub first_pid-fill :
    (new : Job) (js r : List Job) (q : ℕ)
    → 0 < q
    → NoPid new.pid js
    → fill_slot new js ≡ some r
    → first_pid q r ≡ (if new.pid == q then some new else first_pid q js)
unfolding first_pid fill_slot
first_pid-fill new [] r q pos apart h = cc
first_pid-fill new (j ∷ js) r q pos apart h = elim (Option-cases (fill_slot new js)) [
  | inl e ↦ ground (arith, e)
  | inr (s, e) ↦ ground (arith, e, first_pid-fill new js s q pos apart.1 e)
]

pub first_jid-fill :
    (new : Job) (js r : List Job) (d : ℕ)
    → 0 < d
    → NoJid new.jid js
    → All (λ j. j.pid ≡ 0 → j.jid ≡ 0) js
    → fill_slot new js ≡ some r
    → first_jid d r ≡ (if new.jid == d then some new else first_jid d js)
unfolding first_jid fill_slot
first_jid-fill new [] r d pos apart clear h = cc
first_jid-fill new (j ∷ js) r d pos apart clear h = elim (Option-cases (fill_slot new js)) [
  | inl e ↦ ground (arith, e)
  | inr (s, e) ↦ ground (arith, e, first_jid-fill new js s d pos apart.1 clear.1 e)
]

pub fill_slot-room :
    (new : Job) (js : List Job)
    → can_new_job_be_added js ≡ true
    → (r : List Job) × (fill_slot new js ≡ some r)
unfolding can_new_job_be_added fill_slot
fill_slot-room new [] h = cc
fill_slot-room new (j ∷ js) h = elim (Bool-cases (j.pid == 0)) [
  | inl e ↦ (new ∷ js, rw e)
  | inr e ↦ let (r, g) = fill_slot-room new js (ground arith) in (j ∷ r, rw (e, g))
]

pub fill_slot-full :
    (new : Job) (js : List Job) → can_new_job_be_added js ≡ false → fill_slot new js ≡ none
unfolding can_new_job_be_added fill_slot
fill_slot-full new [] h = refl
fill_slot-full new (j ∷ js) h = ground (arith, fill_slot-full new js)

-- A cleared slot answers no search; the others answer as before, the ids being distinct.
pub first_pid-clear :
    (pid : ℕ) (js r : List Job) (q : ℕ)
    → 0 < q
    → pid ≢ q
    → clear_slot pid js ≡ some r
    → first_pid q r ≡ first_pid q js
unfolding first_pid clear_slot
first_pid-clear pid [] r q pos ne h = cc
first_pid-clear pid (j ∷ js) r q pos ne h = elim (Option-cases (clear_slot pid js)) [
  | inl e ↦ ground (arith, e)
  | inr (s, e) ↦ ground (arith, e, first_pid-clear pid js s q pos ne e)
]

pub first_pid-NoPid : (q : ℕ) (js : List Job) → NoPid q js → first_pid q js ≡ none
unfolding first_pid
first_pid-NoPid q [] h = refl
first_pid-NoPid q (j ∷ js) h = ground (arith, first_pid-NoPid q js)

pub NoPid-clear_none : (q : ℕ) (js : List Job) → clear_slot q js ≡ none → NoPid q js
unfolding clear_slot
NoPid-clear_none q [] h = tt
NoPid-clear_none q (j ∷ js) h = elim (Option-cases (clear_slot q js)) [
  | inl e ↦ ground (arith, e, NoPid-clear_none q js)
  | inr (s, e) ↦ ground (arith, e)
]
