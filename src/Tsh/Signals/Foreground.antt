-- ===== src/Tsh/Signals/Foreground.antt =====
-- What the signal handlers and `waitfg` of assign3/tsh.c do to the foreground job.
use cs.Prelude.{
  ℕ, ◌≡◌, ◌≢◌, refl, some, List, [], ◌∷◌, ◌==◌, inl, inr, arith, All, Option-cases, Bool-cases,
}
use cs.Tsh.Jobs.{
  JobTable, Job, foreground, stopped, clear_job, set_state, get_job_by_pid, get_fg_job_pid,
  delete_job,
}
use cs.Tsh.Jobs.Slots.{clear-All}
use cs.Tsh.Jobs.Invariant.{delete_job-cases, set_state-All}
use cs.Tsh.Kernel.{
  Kernel, Shell, Run, ok, exited, fault, waiting, and_then, Report, signaled, finished, WaitEnd,
  no_more, wait_error, Delivery, child, interrupt, suspend, quit, Signal, sigint, sigtstp,
}
use cs.Tsh.Signals.{
  handle_report, handle_sigchld, handle_sigquit, forward, deliver, deliver_all, waitfg,
}

-- If the run returns, its state has the property.
abbrev pub Returning : (Shell → Type 0) → Run → Type 0
Returning P (ok s) = P s
Returning P (exited n s) = Unit {0}
Returning P fault = Unit {0}
Returning P (waiting pid s) = Unit {0}

pub Returning-and_then :
    (P Q : Shell → Type 0) (r : Run) (k : Shell → Run)
    → Returning P r
    → ((s : Shell) → P s → Returning Q (k s))
    → Returning Q (and_then r k)
Returning-and_then P Q (ok s) k h f = f s h
Returning-and_then P Q (exited n s) k h f = tt
Returning-and_then P Q fault k h f = tt
Returning-and_then P Q (waiting pid s) k h f = tt

-- Jobs in the foreground have this process id; there is no job in the foreground.
abbrev pub OnlyForeground : ℕ → List Job → Type 0
OnlyForeground pid = All (λ j. j.state ≡ foreground → j.pid ≡ pid)

abbrev pub IsIdle : List Job → Type 0
IsIdle = All (λ j. j.state ≢ foreground)

-- Once `getFGJobPID` yields another id, no job is in the foreground.
pub OnlyForeground-IsIdle :
    (pid : ℕ) (js : List Job) → OnlyForeground pid js → get_fg_job_pid js ≢ pid → IsIdle js
unfolding get_fg_job_pid
OnlyForeground-IsIdle pid [] h ne = tt
OnlyForeground-IsIdle pid (j ∷ js) h ne = ground (arith, OnlyForeground-IsIdle pid js)

pub IsIdle-get_fg_job_pid : (js : List Job) → IsIdle js → get_fg_job_pid js ≡ 0
unfolding get_fg_job_pid
IsIdle-get_fg_job_pid [] h = refl
IsIdle-get_fg_job_pid (j ∷ js) h = ground (arith, IsIdle-get_fg_job_pid js)

-- What every report does to the table, a property of tables keeps: it stops a job that
-- `getJobByPID` finds, or it deletes one.
pub record Kept (T : JobTable → Type 0) : Type 0 where
  pub stops :
      (t : JobTable) (pid i : ℕ)
      → get_job_by_pid t.jobs pid ≡ some i
      → T t
      → T (record t { jobs = set_state i stopped t.jobs })
  pub deletes : (t : JobTable) (pid : ℕ) → T t → T (delete_job t pid).0

forward-table : (k : Kernel) (signal : Signal) (s : Shell) → (forward k signal s).table ≡ s.table
unfolding forward
forward-table k signal s = ground arith

module _ (k : Kernel) (T : JobTable → Type 0) (kept : Kept T) where
  handle_report-Kept :
      (r : Report) (s : Shell) → T s.table → Returning (λ s'. T s'.table) (handle_report r s)
  unfolding handle_report
  handle_report-Kept (Report.stopped pid signal) s h =
      elim (Option-cases (get_job_by_pid s.table.jobs pid)) [
        | inl e ↦ rw (e, Returning) tt
        | inr (i, e) ↦ rw (e, Returning) (kept.stops s.table pid i e h)
      ]
  handle_report-Kept (signaled pid signal) s h = kept.deletes s.table pid h
  handle_report-Kept (finished pid) s h = kept.deletes s.table pid h

  handle_sigchld-Kept :
      (rs : List Report) (end : WaitEnd) (s : Shell)
      → T s.table
      → Returning (λ s'. T s'.table) (handle_sigchld rs end s)
  unfolding handle_sigchld
  handle_sigchld-Kept [] no_more s h = h
  handle_sigchld-Kept [] wait_error s h = tt
  handle_sigchld-Kept (r ∷ rs) end s h =
      Returning-and_then (λ s'. T s'.table) (λ s'. T s'.table) (handle_report r s)
        (handle_sigchld rs end) (handle_report-Kept r s h) (handle_sigchld-Kept rs end)

  pub deliver-Kept :
      (d : Delivery) (s : Shell) → T s.table → Returning (λ s'. T s'.table) (deliver k d s)
  unfolding deliver handle_sigquit
  deliver-Kept (child rs end) s h = handle_sigchld-Kept rs end s h
  deliver-Kept interrupt s h = rw (forward-table k sigint s) h
  deliver-Kept suspend s h = rw (forward-table k sigtstp s) h
  deliver-Kept quit s h = tt

  pub deliver_all-Kept :
      (ds : List Delivery) (s : Shell)
      → T s.table
      → Returning (λ s'. T s'.table) (deliver_all k ds s)
  unfolding deliver_all
  deliver_all-Kept [] s h = h
  deliver_all-Kept (d ∷ ds) s h =
      Returning-and_then (λ s'. T s'.table) (λ s'. T s'.table) (deliver k d s) (deliver_all k ds)
        (deliver-Kept d s h) (deliver_all-Kept ds)

  pub waitfg-Kept :
      (pid : ℕ) (ds : List Delivery) (s : Shell)
      → T s.table
      → Returning (λ s'. T s'.table) (waitfg k pid ds s)
  unfolding waitfg
  waitfg-Kept pid [] s h = tt
  waitfg-Kept pid (d ∷ ds) s h =
      Returning-and_then (λ s'. T s'.table) (λ s'. T s'.table) (deliver k d s) _
        (deliver-Kept d s h)
        λ s' h'. elim (Bool-cases (pid == get_fg_job_pid s'.table.jobs)) [
          | inl e ↦ rw (e, Returning) (waitfg-Kept pid ds s' h')
          | inr e ↦ rw (e, Returning) (deliver_all-Kept ds s' h')
        ]

delete_job-All :
    (P : Job → Type 0) (t : JobTable) (pid : ℕ)
    → ((j : Job) → P j → P (clear_job j))
    → All P t.jobs
    → All P (delete_job t pid).0.jobs
delete_job-All P t pid clears h = elim (delete_job-cases t pid) [
  | inl (e, _) ↦ rw e h
  | inr (js, _, g, e) ↦ rw e (clear-All P pid t.jobs js g clears h)
]

-- A property of single jobs is kept if stopping and clearing keep it.
All-Kept :
    (P : Job → Type 0)
    → ((j : Job) → P j → P (record j { state = stopped }))
    → ((j : Job) → P j → P (clear_job j))
    → Kept (λ t. All P t.jobs)
All-Kept P stops clears = record {
  stops = λ t pid i e h. set_state-All P i stopped t.jobs stops h;
  deletes = λ t pid h. delete_job-All P t pid clears h;
}

pub OnlyForeground-Kept : (pid : ℕ) → Kept (λ t. OnlyForeground pid t.jobs)
OnlyForeground-Kept pid =
    All-Kept (λ j. j.state ≡ foreground → j.pid ≡ pid) (λ j h. ground arith) (λ j h. ground arith)

pub IsIdle-Kept : Kept (λ t. IsIdle t.jobs)
IsIdle-Kept = All-Kept (λ j. j.state ≢ foreground) (λ j h. ground arith) (λ j h. ground arith)

-- When `waitfg` returns, no job is in the foreground, whatever signals came.
pub waitfg-IsIdle :
    (k : Kernel) (pid : ℕ) (ds : List Delivery) (s : Shell)
    → OnlyForeground pid s.table.jobs
    → Returning (λ s'. IsIdle s'.table.jobs) (waitfg k pid ds s)
unfolding waitfg
waitfg-IsIdle k pid [] s h = tt
waitfg-IsIdle k pid (d ∷ ds) s h =
    Returning-and_then (λ s'. OnlyForeground pid s'.table.jobs) (λ s'. IsIdle s'.table.jobs)
      (deliver k d s) _ (deliver-Kept k _ (OnlyForeground-Kept pid) d s h)
      λ s' h'. elim (Bool-cases (pid == get_fg_job_pid s'.table.jobs)) [
        | inl e ↦ rw (e, Returning) (waitfg-IsIdle k pid ds s' h')
        | inr e ↦
            let idle = OnlyForeground-IsIdle pid s'.table.jobs h' (ground arith) in
            rw (e, Returning) (deliver_all-Kept k _ IsIdle-Kept ds s' idle)
      ]
