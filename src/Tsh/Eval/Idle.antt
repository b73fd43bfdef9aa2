-- ===== src/Tsh/Eval/Idle.antt =====
-- `eval` of assign3/tsh.c returns with no job in the foreground.
use cs.Prelude.{
  ℕ, ◌≡◌, ◌≢◌, refl, Bool, true, false, List, [], ◌∷◌, inl, inr, Option-cases, Bool-cases,
}
use cs.Tsh.Jobs.{
  Text, JobTable, JobState, foreground, background, get_jid_from_pid, add_job, can_new_job_be_added,
}
use cs.Tsh.Jobs.Slots.{fill-All}
use cs.Tsh.Jobs.Invariant.{IsWellFormed, entry, add_job-cases}
use cs.Tsh.Kernel.{printed, forked, job_started, stdout_fileno, emit, Kernel, Shell}
use cs.Tsh.Parse.{Parsed, parse_line}
use cs.Tsh.Signals.Foreground.{Returning, OnlyForeground, IsIdle, IsIdle-Kept}
use cs.Tsh.Builtins.{Schedule, is_handle_builtin}
use cs.Tsh.Builtins.Waiting.{
  IdleAfter, IsIdle-OnlyForeground, unblock_sig_child-Kept, unblock-waitfg,
}
use cs.Tsh.Builtins.Idle.{handle_builtin-IsIdle}
use cs.Tsh.Eval.{max_args, start_job, run_command, eval_arguments, eval}

module _ (k : Kernel) where
  pub add_job-OnlyForeground :
      (t : JobTable) (pid : ℕ) (state : JobState) (line : Text)
      → IsIdle t.jobs
      → OnlyForeground pid (add_job t pid state line).0.jobs
  add_job-OnlyForeground t pid state line h = elim (add_job-cases t pid state line) [
    | inl e ↦ rw e (IsIdle-OnlyForeground pid t.jobs h)
    | inr (js, _, g, e) ↦ rw e (
        fill-All (λ j. j.state ≡ foreground → j.pid ≡ pid) (entry t pid state line) t.jobs js g
          (λ _. refl) (IsIdle-OnlyForeground pid t.jobs h))
  ]

  add_job-IsIdle :
      (t : JobTable) (pid : ℕ) (line : Text)
      → IsIdle t.jobs
      → IsIdle (add_job t pid background line).0.jobs
  add_job-IsIdle t pid line h = elim (add_job-cases t pid background line) [
    | inl e ↦ rw e h
    | inr (js, _, g, e) ↦
        rw e (
          fill-All (λ j. j.state ≢ foreground) (entry t pid background line) t.jobs js g (λ e. cc)
            h)
  ]

  pub start_job-IsIdle :
      (pid : ℕ) (b : Bool) (line : Text) (sched : Schedule) (s : Shell)
      → IsIdle s.table.jobs
      → IdleAfter (start_job k pid b line sched s)
  unfolding start_job
  start_job-IsIdle pid true line sched s h =
      let t = (add_job s.table pid background line).0 in
      let notice = printed stdout_fileno (job_started (get_jid_from_pid t.jobs pid) pid line) in
      unblock_sig_child-Kept k (λ t'. IsIdle t'.jobs) IsIdle-Kept sched.at_unblock
        (emit notice (record s { table = t })) (add_job-IsIdle s.table pid line h)
  start_job-IsIdle pid false line sched s h =
      let t = (add_job s.table pid foreground line).0 in
      unblock-waitfg k pid sched.at_unblock sched.while_waiting (record s { table = t })
        (add_job-OnlyForeground s.table pid foreground line h)

  pub run_command-IsIdle :
      (p : Parsed) (line : Text) (sched : Schedule) (s : Shell)
      → IsIdle s.table.jobs
      → IdleAfter (run_command k p line sched s)
  unfolding run_command
  run_command-IsIdle p line sched s h = elim (Bool-cases (can_new_job_be_added s.table.jobs)) [
    | inr full ↦ rw (full, Returning) h
    | inl room ↦ elim (Option-cases (k.fork s.history)) [
      | inl e ↦ rw (room, e, Returning) tt
      | inr (pid, e) ↦
          rw (room, e, Returning)
            (start_job-IsIdle pid p.background line sched (emit (forked pid) s) h)
    ]
  ]

  arguments-IsIdle :
      (argv : List Text) (p : Parsed) (line : Text) (sched : Schedule) (s : Shell)
      → IsWellFormed s.table
      → IsIdle s.table.jobs
      → IdleAfter (eval_arguments k argv p line sched s)
  arguments-IsIdle [] p line sched s w h = h
  arguments-IsIdle (word ∷ args) p line sched s w h =
      let s' = record s { blocked = true } in
      elim (Option-cases (is_handle_builtin word)) [
        | inl e ↦ rw (e, Returning) (run_command-IsIdle p line sched s' h)
        | inr (b, e) ↦
            rw (e, Returning)
              (handle_builtin-IsIdle k b (word ∷ args) p.infile p.outfile sched s' w h)
      ]

  -- For every kernel and schedule: where the job table is well formed and no job is in the
  -- foreground, a command line whose evaluation returns leaves no job in the foreground, so the
  -- next prompt comes only after a foreground job has ended or stopped.
  pub eval-IsIdle :
      (line : Text) (sched : Schedule) (s : Shell)
      → IsWellFormed s.table
      → IsIdle s.table.jobs
      → IdleAfter (eval k line sched s)
  unfolding eval
  eval-IsIdle line sched s w h = elim (Option-cases (parse_line max_args line)) [
    | inl e ↦ rw (e, Returning) tt
    | inr (p, e) ↦ rw (e, Returning) (arguments-IsIdle p.arguments p line sched s w h)
  ]
