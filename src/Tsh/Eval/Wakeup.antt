-- ===== src/Tsh/Eval/Wakeup.antt =====
-- A foreground job in assign3/tsh.c that ends while the shell waits, and one that ends before.
use cs.Prelude.{
  ℕ, ◌<◌, ◌≡◌, refl, true, false, Option, none, some, List, [], ◌∷◌, ◌++◌, inl, inr, arith,
}
use cs.Tsh.Jobs.{Text, Job, JobTable, foreground, add_job, delete_job, max_job_id}
use cs.Tsh.Jobs.Lookup.{NoPid, NoPid-clear_none}
use cs.Tsh.Jobs.Table.{NoPid-clear_slot}
use cs.Tsh.Jobs.Invariant.{IsWellFormed, add_job-IsWellFormed, delete_job-cases}
use cs.Tsh.Kernel.{
  Kernel, Shell, ok, waiting, emit, closed, printed, finished, no_more, Delivery, child,
  cannot_read, stderr_fileno,
}
use cs.Tsh.Parse.{Parsed, parse_line}
use cs.Tsh.Signals.{handle_report, close_redirected_fds_if_any}
use cs.Tsh.Signals.Foreground.{OnlyForeground, OnlyForeground-Kept, IsIdle, IsIdle-get_fg_job_pid}
use cs.Tsh.Builtins.{Builtin, Schedule, is_handle_builtin, handle_builtin, redirect_stdin}
use cs.Tsh.Eval.{max_args, start_job, eval_arguments, eval}
use cs.Tsh.Eval.Idle.{add_job-OnlyForeground}

delete_job-NoPid :
    (t : JobTable) (pid : ℕ) → 0 < pid → IsWellFormed t → NoPid pid (delete_job t pid).0.jobs
delete_job-NoPid t pid pos w = elim (delete_job-cases t pid) [
  | inl (e, gone) ↦ rw e (NoPid-clear_none pid t.jobs (gone pos))
  | inr (js, _, g, e) ↦ rw e (NoPid-clear_slot pid t.jobs js pos g w.distinct)
]

only-gone-IsIdle : (pid : ℕ) (js : List Job) → OnlyForeground pid js → NoPid pid js → IsIdle js
only-gone-IsIdle pid [] o g = tt
only-gone-IsIdle pid (j ∷ js) o g = (λ f. g.0 (o.0 f), only-gone-IsIdle pid js o.1 g.1)

-- The table while the job runs in the foreground, and when it has been reaped.
abbrev pub running : Shell → ℕ → Text → JobTable
running s pid line = (add_job s.table pid foreground line).0

abbrev pub reaped : Shell → ℕ → Text → JobTable
reaped s pid line = (delete_job (running s pid line) pid).0

-- What `fork` promises: a process id above 0 that no job has.
abbrev pub IsFresh : ℕ → Shell → Type 0
IsFresh pid s = (0 < pid) × NoPid pid s.table.jobs

abbrev pub its_end : ℕ → Delivery
its_end pid = child (finished pid ∷ []) no_more

module _ (k : Kernel) where
  reaped-IsIdle :
      (s : Shell) (pid : ℕ) (line : Text)
      → IsWellFormed s.table
      → IsIdle s.table.jobs
      → IsFresh pid s
      → s.table.next_job_id < max_job_id
      → IsIdle (reaped s pid line).jobs
  reaped-IsIdle s pid line w h fresh small =
      let w' = add_job-IsWellFormed s.table pid foreground line w fresh.1 small in
      only-gone-IsIdle pid _
        ((OnlyForeground-Kept pid).deletes (running s pid line) pid
          (add_job-OnlyForeground k s.table pid foreground line h))
        (delete_job-NoPid (running s pid line) pid fresh.0 w')

  -- In a well-formed table with no job in the foreground and the next job id below its maximum: a
  -- new foreground job whose end is reported while the shell waits for it is reaped and the shell
  -- returns, with SIGCHLD unblocked and no job in the foreground.
  pub start_job-returns :
      (s : Shell) (pid : ℕ) (line : Text)
      → IsWellFormed s.table
      → IsIdle s.table.jobs
      → IsFresh pid s
      → s.table.next_job_id < max_job_id
      → (start_job k pid false line (record { at_unblock = []; while_waiting = its_end pid ∷ [] }) s
          ≡ ok (record s { blocked = false; table = reaped s pid line }))
        × IsIdle (reaped s pid line).jobs
  unfolding start_job handle_report
  start_job-returns s pid line w h fresh small =
      let idle = reaped-IsIdle s pid line w h fresh small in
      let none_left = IsIdle-get_fg_job_pid (reaped s pid line).jobs idle in
      (ground (arith, none_left, fresh.0), idle)

  -- In a well-formed table with no job in the foreground and the next job id below its maximum: a
  -- new foreground job whose end is reported as soon as SIGCHLD is unblocked, before `sigsuspend`
  -- is reached, is reaped and none is in the foreground, but the shell waits all the same.
  pub start_job-lost_wakeup :
      (s : Shell) (pid : ℕ) (line : Text)
      → IsWellFormed s.table
      → IsIdle s.table.jobs
      → IsFresh pid s
      → s.table.next_job_id < max_job_id
      → (start_job k pid false line (record { at_unblock = its_end pid ∷ []; while_waiting = [] }) s
          ≡ waiting pid (record s { blocked = false; table = reaped s pid line }))
        × IsIdle (reaped s pid line).jobs
  unfolding start_job handle_report
  start_job-lost_wakeup s pid line w h fresh small =
      (refl, reaped-IsIdle s pid line w h fresh small)

  handle_builtin-fails :
      (b : Builtin) (argv : List Text) (path : Text) (outfile : Option Text) (sched : Schedule)
      (s : Shell)
      → k.open_read s.history path ≡ none
      → handle_builtin k b argv (some path) outfile sched s
        ≡ ok (
            close_redirected_fds_if_any (
              emit
                (printed stderr_fileno (cannot_read path))
                (record s { redirected_stdin = none })))
  unfolding handle_builtin redirect_stdin
  handle_builtin-fails b argv path outfile sched s fails = rw (fails, redirect_stdin)

  -- A builtin whose input file cannot be opened returns with SIGCHLD blocked.
  pub eval_redirection_blocked :
      (line : Text) (sched : Schedule) (s : Shell) (p : Parsed) (word path : Text)
      (args : List Text) (b : Builtin)
      → parse_line max_args line ≡ some p
      → p.arguments ≡ word ∷ args
      → p.infile ≡ some path
      → is_handle_builtin word ≡ some b
      → k.open_read s.history path ≡ none
      → (s' : Shell) × (eval k line sched s ≡ ok s') × (s'.blocked ≡ true)
  unfolding eval
  eval_redirection_blocked line sched s p word path args b parse first input known fails =
      let s' =
        emit (printed stderr_fileno (cannot_read path))
          (record s { blocked = true; redirected_stdin = none }) in
      (
        close_redirected_fds_if_any s',
        rw (parse, eval, first, eval_arguments, known, input)
            (handle_builtin-fails b (word ∷ args) path p.outfile sched (record s { blocked = true })
              fails),
        unfold close_redirected_fds_if_any in ground arith,
      )

-- Where only the output is redirected, closing the redirected descriptors twice closes the same
-- descriptor twice.
pub close_redirected_fds_if_any_twice :
    (s : Shell) (fd : ℕ)
    → s.redirected_stdin ≡ none
    → s.redirected_stdout ≡ some fd
    → (close_redirected_fds_if_any (close_redirected_fds_if_any s)).history
      ≡ (s.history ++ closed fd ∷ []) ++ closed fd ∷ []
unfolding close_redirected_fds_if_any
close_redirected_fds_if_any_twice s fd i o = ground arith
