-- ===== src/Tsh/Builtins/Idle.antt =====
-- The builtins of assign3/tsh.c leave no job in the foreground.
use cs.Prelude.{
  ℕ, ◌≡◌, ◌≢◌, Option, some, List, [], ◌∷◌, ◌==◌, inl, inr, arith, Option-cases, Bool-cases,
  get_elem?, sym, ap,
}
use cs.Tsh.Jobs.{Text, Job, foreground, background, get_jid_from_pid, get_job_by_jid, set_state}
use cs.Tsh.Jobs.Invariant.{IsWellFormed, set_state-All}
use cs.Tsh.Kernel.{Kernel, Effect, Shell, Delivery, emit, printed, sigcont, job_started}
use cs.Tsh.Signals.{kill_group, close_redirected_fds_if_any}
use cs.Tsh.Signals.Foreground.{Returning, Returning-and_then, IsIdle, IsIdle-Kept}
use cs.Tsh.Builtins.{
  Target, no_argument, invalid_argument, job_target, process_target, Builtin, quit_command,
  fgbg_command, jobs_command, Schedule, unblock_sig_child, same_word, fg_word, command_line_of,
  continue_job, continue_jid, continue_pid, continue_target, handle_background_foreground_builtin,
  validate_background_foreground_command, handle_redirection_for_builtin, run_builtin,
  handle_builtin, pid_of,
}
use cs.Tsh.Builtins.Waiting.{
  IdleAfter, unblock_sig_child-Kept, unblock-waitfg, set_state-OnlyForeground, kill_group-table,
  get_job_by_jid-elem, get_job_by_jid-get_jid_from_pid,
}

module _ (k : Kernel) where
  continue_job-IsIdle :
      (word : Text) (fd jid pid i : ℕ) (j : Job) (sched : Schedule) (s : Shell)
      → get_elem? s.table.jobs i ≡ some j
      → j.pid ≡ pid
      → IsIdle s.table.jobs
      → IdleAfter (continue_job k word fd jid pid (some i) sched s)
  unfolding continue_job
  continue_job-IsIdle word fd jid pid i j sched s e p h =
      let s₁ = kill_group k fd pid sigcont s in
      let same = kill_group-table k fd pid sigcont s in
      let jobs = s₁.table.jobs in
      let elem : get_elem? jobs i ≡ some j = rw same e in
      let idle : IsIdle jobs = rw same h in
      elim (Bool-cases (same_word word fg_word)) [
        | inl fg ↦
            rw (fg, Returning)
              (unblock-waitfg k pid sched.at_unblock sched.while_waiting
                (record s₁ { table = record s₁.table { jobs = set_state i foreground jobs } })
                (set_state-OnlyForeground i pid j jobs elem p idle))
        | inr bg ↦
            let notice = printed fd (job_started jid pid (command_line_of (get_elem? jobs i))) in
            rw (bg, Returning)
              (unblock_sig_child-Kept k (λ t. IsIdle t.jobs) IsIdle-Kept sched.at_unblock
                (emit notice
                  (record s₁ { table = record s₁.table { jobs = set_state i background jobs } }))
                (set_state-All (λ l. l.state ≢ foreground) i background jobs (λ l _ c. cc) idle))
      ]

  notice-IsIdle :
      (ds : List Delivery) (e : Effect) (s : Shell)
      → IsIdle s.table.jobs
      → IdleAfter (unblock_sig_child k ds (emit e s))
  notice-IsIdle ds e s h = unblock_sig_child-Kept k (λ t. IsIdle t.jobs) IsIdle-Kept ds (emit e s) h

  continue_jid-IsIdle :
      (word : Text) (fd jid : ℕ) (sched : Schedule) (s : Shell)
      → IsIdle s.table.jobs
      → IdleAfter (continue_jid k word fd jid sched s)
  unfolding continue_jid
  continue_jid-IsIdle word fd jid sched s h =
      elim (Option-cases (get_job_by_jid s.table.jobs jid)) [
        | inl e ↦ rw (e, Returning) (notice-IsIdle sched.at_unblock _ s h)
        | inr (i, e) ↦
            let (j, f) = get_job_by_jid-elem jid i s.table.jobs e in
            rw (e, Returning)
              (continue_job-IsIdle word fd jid _ i j sched s f (ap pid_of (sym f)) h)
      ]

  continue_pid-IsIdle :
      (word : Text) (fd pid : ℕ) (sched : Schedule) (s : Shell)
      → IsWellFormed s.table
      → IsIdle s.table.jobs
      → IdleAfter (continue_pid k word fd pid sched s)
  unfolding continue_pid
  continue_pid-IsIdle word fd pid sched s w h =
      let jid = get_jid_from_pid s.table.jobs pid in
      elim (Bool-cases (jid == 0)) [
        | inl e ↦ rw (e, Returning) (notice-IsIdle sched.at_unblock _ s h)
        | inr e ↦
            let (i, j, f, g, mine) = get_job_by_jid-get_jid_from_pid s.table pid w (ground arith) in
            rw (e, f, Returning) (continue_job-IsIdle word fd jid pid i j sched s g mine h)
      ]

  continue_target-IsIdle :
      (target : Target) (word : Text) (fd : ℕ) (sched : Schedule) (s : Shell)
      → IsWellFormed s.table
      → IsIdle s.table.jobs
      → IdleAfter (continue_target k target word fd sched s)
  unfolding continue_target
  continue_target-IsIdle no_argument word fd sched s w h = notice-IsIdle sched.at_unblock _ s h
  continue_target-IsIdle invalid_argument word fd sched s w h = notice-IsIdle sched.at_unblock _ s h
  continue_target-IsIdle (job_target jid) word fd sched s w h =
      continue_jid-IsIdle word fd jid sched s h
  continue_target-IsIdle (process_target pid) word fd sched s w h = elim (Bool-cases (pid == 0)) [
    | inl e ↦ rw (e, Returning) (continue_jid-IsIdle word fd 0 sched s h)
    | inr e ↦ rw (e, Returning) (continue_pid-IsIdle word fd pid sched s w h)
  ]

  fgbg-IsIdle :
      (argv : List Text) (fd : ℕ) (sched : Schedule) (s : Shell)
      → IsWellFormed s.table
      → IsIdle s.table.jobs
      → IdleAfter (handle_background_foreground_builtin k argv fd sched s)
  unfolding handle_background_foreground_builtin
  fgbg-IsIdle [] fd sched s w h = tt
  fgbg-IsIdle (word ∷ args) fd sched s w h =
      continue_target-IsIdle (validate_background_foreground_command (word ∷ args)) word fd sched s
        w h

  handle_redirection-table :
      (infile outfile : Option Text) (s : Shell)
      → (handle_redirection_for_builtin k infile outfile s).0.table ≡ s.table
  unfolding handle_redirection_for_builtin
  handle_redirection-table infile outfile s = ground arith

  close_redirected-table : (s : Shell) → (close_redirected_fds_if_any s).table ≡ s.table
  unfolding close_redirected_fds_if_any
  close_redirected-table s = ground arith

  run_builtin-IsIdle :
      (b : Builtin) (argv : List Text) (sched : Schedule) (s : Shell)
      → IsWellFormed s.table
      → IsIdle s.table.jobs
      → IdleAfter (run_builtin k b argv sched s)
  unfolding run_builtin
  run_builtin-IsIdle quit_command argv sched s w h = tt
  run_builtin-IsIdle fgbg_command argv sched s w h =
      Returning-and_then (λ s'. IsIdle s'.table.jobs) (λ s'. IsIdle s'.table.jobs) _ _
        (fgbg-IsIdle argv _ sched s w h) λ s' h'. rw (close_redirected-table s') h'
  run_builtin-IsIdle jobs_command argv sched s w h =
      Returning-and_then (λ s'. IsIdle s'.table.jobs) (λ s'. IsIdle s'.table.jobs) _ _
        (notice-IsIdle sched.at_unblock _ s h) λ s' h'. rw (close_redirected-table s') h'

  -- After a builtin that returns no job is in the foreground.
  pub handle_builtin-IsIdle :
      (b : Builtin) (argv : List Text) (infile outfile : Option Text) (sched : Schedule) (s : Shell)
      → IsWellFormed s.table
      → IsIdle s.table.jobs
      → IdleAfter (handle_builtin k b argv infile outfile sched s)
  unfolding handle_builtin
  handle_builtin-IsIdle b argv infile outfile sched s w h =
      let (s', done) = handle_redirection_for_builtin k infile outfile s in
      let same = handle_redirection-table infile outfile s in
      elim (Bool-cases done) [
        | inl e ↦ rw (e, Returning) (run_builtin-IsIdle b argv sched s' (rw same w) (rw same h))
        | inr e ↦ rw (e, Returning) (rw (close_redirected-table s', same) h)
      ]
