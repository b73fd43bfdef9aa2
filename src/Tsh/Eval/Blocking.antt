-- ===== src/Tsh/Eval/Blocking.antt =====
-- Where `eval` of assign3/tsh.c leaves SIGCHLD blocked, where it unblocks it, and how it can wait for
-- a child that is gone.
use cs.Prelude.{
  ℕ, ◌≡◌, refl, Bool, true, false, none, some, List, [], ◌∷◌, ◌==◌, inl, inr, arith, Option-cases,
  Bool-cases, ◌∙◌,
}
use cs.Tsh.Jobs.{
  Text, foreground, background, can_new_job_be_added, add_job, get_job_by_pid, get_jid_from_pid,
  get_fg_job_pid,
}
use cs.Tsh.Kernel
use cs.Tsh.Kernel.{
  Kernel, Shell, Run, ok, exited, waiting, fault, and_then, emit, Effect, closed, opened, printed,
  too_many_jobs, job_started, stdout_fileno, Report, signaled, finished, WaitEnd, no_more,
  wait_error, Delivery, child, interrupt, suspend, quit, Signal, sigint, sigtstp,
}
use cs.Tsh.Parse.{Parsed, parse_line}
use cs.Tsh.Signals.{
  handle_report, handle_sigchld, forward, handle_sigquit, deliver, deliver_all, waitfg,
}
use cs.Tsh.Signals.Foreground.{Returning, Returning-and_then}
use cs.Tsh.Builtins.{Schedule, is_handle_builtin, unblock_sig_child}
use cs.Tsh.Eval.{max_args, start_job, run_command, eval_arguments, eval}

-- SIGCHLD is not blocked.
abbrev pub IsOpen : Shell → Type 0
IsOpen s = s.blocked ≡ false

handle_report-IsOpen : (r : Report) (s : Shell) → IsOpen s → Returning IsOpen (handle_report r s)
unfolding handle_report
handle_report-IsOpen (Kernel.stopped pid signal) s h =
    elim (Option-cases (get_job_by_pid s.table.jobs pid)) [
      | inl e ↦ rw (e, Returning) tt
      | inr (i, e) ↦ rw (e, Returning) h
    ]
handle_report-IsOpen (signaled pid signal) s h = h
handle_report-IsOpen (finished pid) s h = h

handle_sigchld-IsOpen :
    (rs : List Report) (end : WaitEnd) (s : Shell)
    → IsOpen s
    → Returning IsOpen (handle_sigchld rs end s)
unfolding handle_sigchld
handle_sigchld-IsOpen [] no_more s h = h
handle_sigchld-IsOpen [] wait_error s h = tt
handle_sigchld-IsOpen (r ∷ rs) end s h =
    Returning-and_then IsOpen IsOpen (handle_report r s) (handle_sigchld rs end)
      (handle_report-IsOpen r s h) (handle_sigchld-IsOpen rs end)

forward-blocked :
    (k : Kernel) (signal : Signal) (s : Shell) → (forward k signal s).blocked ≡ s.blocked
unfolding forward
forward-blocked k signal s = ground arith

module _ (k : Kernel) where
  deliver-IsOpen : (d : Delivery) (s : Shell) → IsOpen s → Returning IsOpen (deliver k d s)
  unfolding deliver handle_sigquit
  deliver-IsOpen (child rs end) s h = handle_sigchld-IsOpen rs end s h
  deliver-IsOpen interrupt s h = forward-blocked k sigint s ∙ h
  deliver-IsOpen suspend s h = forward-blocked k sigtstp s ∙ h
  deliver-IsOpen quit s h = tt

  deliver_all-IsOpen :
      (ds : List Delivery) (s : Shell) → IsOpen s → Returning IsOpen (deliver_all k ds s)
  unfolding deliver_all
  deliver_all-IsOpen [] s h = h
  deliver_all-IsOpen (d ∷ ds) s h =
      Returning-and_then IsOpen IsOpen (deliver k d s) (deliver_all k ds) (deliver-IsOpen d s h)
        (deliver_all-IsOpen ds)

  waitfg-IsOpen :
      (pid : ℕ) (ds : List Delivery) (s : Shell) → IsOpen s → Returning IsOpen (waitfg k pid ds s)
  unfolding waitfg
  waitfg-IsOpen pid [] s h = tt
  waitfg-IsOpen pid (d ∷ ds) s h =
      Returning-and_then IsOpen IsOpen (deliver k d s) _ (deliver-IsOpen d s h) λ s' h'.
        elim (Bool-cases (pid == get_fg_job_pid s'.table.jobs)) [
          | inl e ↦ rw (e, Returning) (waitfg-IsOpen pid ds s' h')
          | inr e ↦ rw (e, Returning) (deliver_all-IsOpen ds s' h')
        ]

  unblock-IsOpen : (ds : List Delivery) (s : Shell) → Returning IsOpen (unblock_sig_child k ds s)
  unfolding unblock_sig_child
  unblock-IsOpen ds s = deliver_all-IsOpen ds (record s { blocked = false }) refl

  -- For every kernel, schedule and state: if the starting of a job returns, SIGCHLD is unblocked,
  -- in the foreground and in the background.
  pub start_job-IsOpen :
      (pid : ℕ) (b : Bool) (line : Text) (sched : Schedule) (s : Shell)
      → Returning IsOpen (start_job k pid b line sched s)
  unfolding start_job
  start_job-IsOpen pid true line sched s =
      let t = (add_job s.table pid background line).0 in
      let notice = printed stdout_fileno (job_started (get_jid_from_pid t.jobs pid) pid line) in
      unblock-IsOpen sched.at_unblock (emit notice (record s { table = t }))
  start_job-IsOpen pid false line sched s =
      let s' = record s { table = (add_job s.table pid foreground line).0 } in
      Returning-and_then IsOpen IsOpen (unblock_sig_child k sched.at_unblock s') _
        (unblock-IsOpen sched.at_unblock s') (waitfg-IsOpen pid sched.while_waiting)

  -- A command that is no builtin and finds the job list full returns with SIGCHLD blocked and the
  -- job table as it was.
  pub eval_full_blocked :
      (line : Text) (sched : Schedule) (s : Shell) (p : Parsed) (word : Text) (args : List Text)
      → parse_line max_args line ≡ some p
      → p.arguments ≡ word ∷ args
      → is_handle_builtin word ≡ none
      → can_new_job_be_added s.table.jobs ≡ false
      → (s' : Shell) × (eval k line sched s ≡ ok s') × (s'.blocked ≡ true) × (s'.table ≡ s.table)
  unfolding eval run_command
  eval_full_blocked line sched s p word args parse first other full = (
    emit (printed stdout_fileno too_many_jobs) (record s { blocked = true }),
    rw (parse, eval, first, eval_arguments, other, run_command, full),
    refl,
    refl,
  )
