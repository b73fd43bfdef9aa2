-- ===== src/Tsh/Signals/Table.antt =====
-- The signal handlers of assign3/tsh.c keep the job table well formed.
use cs.Prelude.{
  ℕ, ◌<◌, ◌≡◌, some, List, [], ◌∷◌, ◌==◌, ltb, inl, inr, arith, Option-cases, Bool-cases,
}
use cs.Tsh.Jobs.{Job, stopped, find_pid, get_job_by_pid}
use cs.Tsh.Jobs.Invariant.{IsWellFormed, Taken, set_state-IsWellFormed, delete_job-IsWellFormed}
use cs.Tsh.Signals.Foreground.{Kept}

find_pid-Taken : (pid i : ℕ) (js : List Job) → 0 < pid → find_pid pid js ≡ some i → Taken js i
unfolding find_pid
find_pid-Taken pid i [] pos h = cc
find_pid-Taken pid i (j ∷ js) pos h = elim (Bool-cases (j.pid == pid)) [
  | inl e ↦ ground (arith, e)
  | inr e ↦ elim (Option-cases (find_pid pid js)) [
    | inl g ↦ ground (arith, e, g)
    | inr (m, g) ↦ ground (arith, e, g, find_pid-Taken pid m js pos g)
  ]
]

pub get_job_by_pid-Taken : (pid i : ℕ) (js : List Job) → get_job_by_pid js pid ≡ some i → Taken js i
unfolding get_job_by_pid
get_job_by_pid-Taken pid i js h = elim (Bool-cases (ltb pid 1)) [
  | inl e ↦ ground (arith, e)
  | inr e ↦ find_pid-Taken pid i js (ground arith) (rw e at h)
]

pub IsWellFormed-Kept : Kept IsWellFormed
IsWellFormed-Kept = record {
  stops = λ t pid i e w. set_state-IsWellFormed t i stopped w (get_job_by_pid-Taken pid i t.jobs e);
  deletes = delete_job-IsWellFormed;
}
