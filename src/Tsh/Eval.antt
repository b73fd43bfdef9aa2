-- ===== src/Tsh/Eval.antt =====
-- `eval`, the set-up of a child and the command loop of assign3/tsh.c.
pub mod Idle
pub mod Blocking
pub mod Wakeup
use cs.Prelude.{ℕ, Bool, true, false, Option, none, some, List, [], ◌∷◌, ◌==◌, not, if◌then◌else◌}
use cs.Tsh.Jobs.{
  Text, JobState, foreground, background, add_job, can_new_job_be_added, get_jid_from_pid,
  init_jobs,
}
use cs.Tsh.Parse.{Parsed, parse_line}
use cs.Tsh.Kernel.{
  Effect, forked, printed, job_started, too_many_jobs, Mode, read_write, write_only, Kernel, Shell,
  Run, ok, exited, fault, and_then, emit, stdout_fileno, Delivery,
}
use cs.Tsh.Signals.{deliver_all, waitfg}
use cs.Tsh.Builtins.{
  Builtin, Schedule, is_handle_builtin, unblock_sig_child, handle_builtin, open_output,
}

abbrev pub max_args : ℕ
max_args = 128

-- What becomes of the child: the program it runs, with its descriptors 0 and 1 if they were
-- replaced, or its exit status.
pub data Child : Type 0 where
  runs : List Text → (stdin stdout : Option ℕ) → Child
  leaves : ℕ → Child

module _ (k : Kernel) where
  -- `handleRedirectionForCommand`, with what follows it as `next`.
  unfoldable pub handle_redirection_for_command :
      List Effect → Option Text → Option Text → (Option ℕ → Option ℕ → Child) → Child
  handle_redirection_for_command history none none next = next none none
  handle_redirection_for_command history none (some out) next = elim (open_output k history out) [
    | none ↦ leaves 5
    | some fd ↦ next none (some fd)
  ]
  handle_redirection_for_command history (some path) none next = elim (k.open_read history path) [
    | none ↦ leaves 4
    | some fd ↦ next (some fd) none
  ]
  handle_redirection_for_command history (some path) (some out) next =
      elim (k.open_read history path) [
        | none ↦ leaves 4
        | some fd ↦ elim (open_output k history out) [
          | none ↦ leaves 5
          | some fd' ↦ next (some fd) (some fd')
        ]
      ]

  -- The branch of the child in `eval`; `found` says whether `execvp` finds the program.
  unfoldable pub run_child : Bool → List Effect → Parsed → Child
  unfolding handle_redirection_for_command
  run_child found history p =
      handle_redirection_for_command history p.infile p.outfile
        λ stdin stdout. if found then runs p.arguments stdin stdout else leaves 3

  -- The branch of the parent, with the child's process id.
  unfoldable pub start_job : ℕ → Bool → Text → Schedule → Shell → Run
  unfolding unblock_sig_child waitfg
  start_job pid in_background line sched s =
      let (table, _) =
        add_job s.table pid (if in_background then background else foreground) line in
      let s' = record s { table = table } in
      if not in_background
      then and_then (unblock_sig_child k sched.at_unblock s') (waitfg k pid sched.while_waiting)
      else unblock_sig_child k sched.at_unblock
          (emit (printed stdout_fileno (job_started (get_jid_from_pid table.jobs pid) pid line)) s')

  -- A command that is no builtin. SIGCHLD stays blocked if there is no room.
  unfoldable pub run_command : Parsed → Text → Schedule → Shell → Run
  run_command p line sched s =
      if not (can_new_job_be_added s.table.jobs)
      then ok (emit (printed stdout_fileno too_many_jobs) s)
      else elim (k.fork s.history) [
        | none ↦ exited 1 s
        | some pid ↦ start_job pid p.background line sched (emit (forked pid) s)
      ]

  abbrev pub eval_arguments : List Text → Parsed → Text → Schedule → Shell → Run
  eval_arguments [] p line sched s = ok s
  eval_arguments (word ∷ args) p line sched s =
      let s' = record s { blocked = true } in
      elim (is_handle_builtin word) [
        | none ↦ run_command p line sched s'
        | some b ↦ handle_builtin k b (word ∷ args) p.infile p.outfile sched s'
      ]

  -- With 128 places `parseLine` always returns.
  unfoldable pub eval : Text → Schedule → Shell → Run
  eval line sched s = elim (parse_line max_args line) [
    | none ↦ exited 1 s
    | some p ↦ eval_arguments p.arguments p line sched s
  ]

  -- The command loop: the lines of the input up to its end, each with its signals.
  unfoldable pub command_loop : List (Text × Schedule) → Shell → Run
  unfolding eval
  command_loop [] s = ok s
  command_loop ((line, sched) ∷ rest) s = and_then (eval line sched s) (command_loop rest)
