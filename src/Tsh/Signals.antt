-- ===== src/Tsh/Signals.antt =====
-- The signal handlers of assign3/tsh.c, `waitfg`, and `killAllJobs` of assign3/tsh-jobs.c.
pub mod Foreground
pub mod Table
use cs.Prelude.{ℕ, Bool, true, false, Option, none, some, List, [], ◌∷◌, ◌==◌, if◌then◌else◌, not}
use cs.Tsh.Jobs.{
  Job, stopped, set_state, get_job_by_pid, get_jid_from_pid, get_fg_job_pid, delete_job,
}
use cs.Tsh.Kernel
use cs.Tsh.Kernel.{
  Signal, sigint, sigtstp, sighup, job_stopped, job_terminated, kill_failed, terminating, closed,
  signalled, printed, Kernel, Shell, Run, ok, exited, fault, waiting, and_then, emit, stdout_fileno,
  stderr_fileno, Report, signaled, finished, WaitEnd, no_more, wait_error, Delivery, child,
  interrupt, suspend, quit,
}

-- One report, in the body of the loop of `handleSIGCHLD`.
unfoldable pub handle_report : Report → Shell → Run
handle_report (Report.stopped pid signal) s =
    let t = s.table in
    let s' =
      emit (printed stdout_fileno (job_stopped (get_jid_from_pid t.jobs pid) pid signal)) s in
    elim (get_job_by_pid t.jobs pid) [
      | none ↦ fault
      | some i ↦ ok (record s' { table = record t { jobs = set_state i stopped t.jobs } })
    ]
handle_report (signaled pid signal) s =
    let t = s.table in
    let s' =
      emit (printed stdout_fileno (job_terminated (get_jid_from_pid t.jobs pid) pid signal)) s in
    ok (record s' { table = (delete_job t pid).0 })
handle_report (finished pid) s = ok (record s { table = (delete_job s.table pid).0 })

unfoldable pub handle_sigchld : List Report → WaitEnd → Shell → Run
unfolding handle_report
handle_sigchld [] no_more s = ok s
handle_sigchld [] wait_error s = exited 2 s
handle_sigchld (r ∷ rs) end s = and_then (handle_report r s) (handle_sigchld rs end)

abbrev pub close_if_any : Option ℕ → Shell → Shell
close_if_any none s = s
close_if_any (some fd) s = emit (closed fd) s

abbrev pub forget_stdin : Option ℕ → Shell → Shell
forget_stdin none s = s
forget_stdin (some fd) s = record s { redirected_stdin = none }

-- Both branches of the C code reset `redirectedStdIn`; `redirectedStdOut` keeps its value.
unfoldable pub close_redirected_fds_if_any : Shell → Shell
close_redirected_fds_if_any s =
    let s' = forget_stdin s.redirected_stdin (close_if_any s.redirected_stdin s) in
    forget_stdin s'.redirected_stdout (close_if_any s'.redirected_stdout s')

module _ (k : Kernel) where
  -- `kill(-pid, signal)`, and the message to `fd` if it fails.
  unfoldable pub kill_group : (fd pid : ℕ) → Signal → Shell → Shell
  kill_group fd pid signal s =
      if k.kill s.history pid signal
      then emit (signalled pid signal) s
      else emit (printed fd (kill_failed pid)) s

  unfoldable pub kill_all_jobs : List Job → Shell → Shell
  unfolding kill_group
  kill_all_jobs [] s = s
  kill_all_jobs (j ∷ js) s =
      kill_all_jobs js (if not (j.pid == 0) then kill_group stderr_fileno j.pid sighup s else s)

  -- `handleSIGINT` and `handleSIGTSTP`.
  unfoldable pub forward : Signal → Shell → Shell
  unfolding kill_group
  forward signal s =
      let pid = get_fg_job_pid s.table.jobs in
      if not (pid == 0) then kill_group stderr_fileno pid signal s else s

  unfoldable pub handle_sigquit : Shell → Run
  unfolding close_redirected_fds_if_any kill_all_jobs
  handle_sigquit s =
      let s' = close_redirected_fds_if_any (emit (printed stdout_fileno terminating) s) in
      exited 1 (kill_all_jobs s'.table.jobs s')

  unfoldable pub deliver : Delivery → Shell → Run
  unfolding handle_sigchld forward handle_sigquit
  deliver (child rs end) s = handle_sigchld rs end s
  deliver interrupt s = ok (forward sigint s)
  deliver suspend s = ok (forward sigtstp s)
  deliver quit s = handle_sigquit s

  unfoldable pub deliver_all : List Delivery → Shell → Run
  unfolding deliver
  deliver_all [] s = ok s
  deliver_all (d ∷ ds) s = and_then (deliver d s) (deliver_all ds)

  -- Each delivery wakes `sigsuspend`. Those that come after the loop has ended reach the shell before
  -- its next command.
  unfoldable pub waitfg : ℕ → List Delivery → Shell → Run
  unfolding deliver deliver_all
  waitfg pid [] s = waiting pid s
  waitfg pid (d ∷ ds) s = and_then (deliver d s) λ s'. elim (pid == get_fg_job_pid s'.table.jobs) [
    | true ↦ waitfg pid ds s'
    | false ↦ deliver_all ds s'
  ]
