-- ===== src/Tsh/Builtins.antt =====
-- The builtin commands of assign3/tsh.c.
pub mod Waiting
pub mod Idle
use cs.Prelude.{
  ℕ, ◌+◌, ◌*◌, ◌-◌, Bool, true, false, Option, none, some, List, [], ◌∷◌, map, ltb, leb, ◌==◌, ◌&&◌,
  ◌||◌, not, if◌then◌else◌, get_elem?,
}
use cs.Tsh.Jobs.{
  Text, Job, foreground, background, get_jid_from_pid, get_job_by_jid, set_state, list_jobs_to_fd,
}
use cs.Tsh.Kernel.{
  sigcont, Effect, opened, printed, job_started, job_lines, needs_argument, bad_argument,
  no_such_process, no_such_job, cannot_read, cannot_write, Mode, read_write, write_only, Kernel,
  Shell, Run, ok, exited, fault, and_then, emit, stdout_fileno, stderr_fileno, Delivery,
}
use cs.Tsh.Signals.{close_redirected_fds_if_any, kill_group, kill_all_jobs, deliver_all, waitfg}

pub data Builtin : Type 0 where
  quit_command fgbg_command jobs_command : Builtin

-- The signals that arrive when SIGCHLD is unblocked, and those that arrive in `waitfg`.
pub record Schedule : Type 0 where
  pub at_unblock : List Delivery
  pub while_waiting : List Delivery

abbrev pub to_lower : ℕ → ℕ
to_lower c = if leb b'A' c && leb c b'Z' then c + 32 else c

abbrev pub text_eq : Text → Text → Bool
text_eq [] [] = true
text_eq [] (d ∷ ds) = false
text_eq (c ∷ cs) [] = false
text_eq (c ∷ cs) (d ∷ ds) = c == d && text_eq cs ds

-- `strcasecmp(a, b) == 0`
abbrev pub same_word : Text → Text → Bool
same_word a b = text_eq (map to_lower a) (map to_lower b)

abbrev pub fg_word : Text
fg_word = b'f' ∷ b'g' ∷ []

abbrev pub bg_word : Text
bg_word = b'b' ∷ b'g' ∷ []

abbrev pub quit_word : Text
quit_word = b'q' ∷ b'u' ∷ b'i' ∷ b't' ∷ []

abbrev pub jobs_word : Text
jobs_word = b'j' ∷ b'o' ∷ b'b' ∷ b's' ∷ []

-- `none` is the result -1.
unfoldable pub is_handle_builtin : Text → Option Builtin
is_handle_builtin word =
    if same_word word quit_word
    then some quit_command
    else if same_word word fg_word || same_word word bg_word
    then some fgbg_command
    else if same_word word jobs_word
    then some jobs_command
    else none

-- What `fg` or `bg` is about; an argument that is no `%jobid` and no process id is refused.
pub data Target : Type 0 where
  no_argument invalid_argument : Target
  job_target process_target : ℕ → Target

abbrev pub is_digit : ℕ → Bool
is_digit c = leb b'0' c && leb c b'9'

-- `atoi` from a digit on; the value is not cut to 32 bits.
unfoldable pub atoi_from : ℕ → Text → ℕ
atoi_from acc [] = acc
atoi_from acc (c ∷ cs) =
    let rest = atoi_from (acc * 10 + (c - b'0')) cs in if is_digit c then rest else acc

unfoldable pub atoi : Text → ℕ
unfolding atoi_from
atoi = atoi_from 0

abbrev pub job_argument : Text → Target
job_argument [] = invalid_argument
job_argument (c ∷ cs) = if is_digit c then job_target (atoi (c ∷ cs)) else invalid_argument

abbrev pub target_of : Text → Target
target_of [] = no_argument
target_of (c ∷ cs) =
    if c == b'%'
    then job_argument cs
    else if is_digit c
    then process_target (atoi (c ∷ cs))
    else invalid_argument

unfoldable pub validate_background_foreground_command : List Text → Target
unfolding atoi
validate_background_foreground_command argv = elim (get_elem? argv 1) [
  | none ↦ no_argument
  | some arg ↦ target_of arg
]

-- A slot read through its pointer, which is in range.
abbrev pub command_line_of : Option Job → Text
command_line_of none = []
command_line_of (some j) = j.command_line

abbrev pub pid_of : Option Job → ℕ
pid_of none = 0
pid_of (some j) = j.pid

-- Signals that wait for SIGCHLD to be unblocked are handled at that moment.
module _ (k : Kernel) where
  unfoldable pub unblock_sig_child : List Delivery → Shell → Run
  unfolding deliver_all
  unblock_sig_child pending s = deliver_all k pending (record s { blocked = false })

  -- The part of `handleBackgroundForegroundBuiltin` behind the search: `entry` is the slot found.
  unfoldable pub continue_job : Text → ℕ → (jid pid : ℕ) → Option ℕ → Schedule → Shell → Run
  unfolding kill_group unblock_sig_child waitfg
  continue_job word fd jid pid none sched s = fault
  continue_job word fd jid pid (some i) sched s =
      let s₁ = kill_group k fd pid sigcont s in
      let t = s₁.table in
      if same_word word fg_word
      then and_then
          (unblock_sig_child sched.at_unblock
            (record s₁ { table = record t { jobs = set_state i foreground t.jobs } }))
          (waitfg k pid sched.while_waiting)
      else unblock_sig_child sched.at_unblock (
          emit (printed fd (job_started jid pid (command_line_of (get_elem? t.jobs i))))
            (record s₁ { table = record t { jobs = set_state i background t.jobs } }))

  -- `fg` and `bg` by job id, and by process id. The process id 0 goes the way of the job id 0.
  unfoldable pub continue_jid : Text → ℕ → ℕ → Schedule → Shell → Run
  unfolding continue_job unblock_sig_child
  continue_jid word fd jid sched s = elim (get_job_by_jid s.table.jobs jid) [
    | none ↦ unblock_sig_child sched.at_unblock (emit (printed fd (no_such_job jid)) s)
    | some i ↦ continue_job word fd jid (pid_of (get_elem? s.table.jobs i)) (some i) sched s
  ]

  unfoldable pub continue_pid : Text → ℕ → ℕ → Schedule → Shell → Run
  unfolding continue_job unblock_sig_child
  continue_pid word fd pid sched s =
      let jid = get_jid_from_pid s.table.jobs pid in
      if jid == 0
      then unblock_sig_child sched.at_unblock (emit (printed fd (no_such_process pid)) s)
      else continue_job word fd jid pid (get_job_by_jid s.table.jobs jid) sched s

  unfoldable pub continue_target : Target → Text → ℕ → Schedule → Shell → Run
  unfolding continue_jid continue_pid unblock_sig_child
  continue_target no_argument word fd sched s =
      unblock_sig_child sched.at_unblock (emit (printed fd (needs_argument word)) s)
  continue_target invalid_argument word fd sched s =
      unblock_sig_child sched.at_unblock (emit (printed fd (bad_argument word)) s)
  continue_target (job_target jid) word fd sched s = continue_jid word fd jid sched s
  continue_target (process_target pid) word fd sched s =
      if pid == 0 then continue_jid word fd 0 sched s else continue_pid word fd pid sched s

  -- `handleBackgroundForegroundBuiltin`; `argv[0]` is there.
  unfoldable pub handle_background_foreground_builtin : List Text → ℕ → Schedule → Shell → Run
  unfolding continue_target validate_background_foreground_command
  handle_background_foreground_builtin [] fd sched s = fault
  handle_background_foreground_builtin (word ∷ args) fd sched s =
      continue_target (validate_background_foreground_command (word ∷ args)) word fd sched s

  -- The two halves of `handleRedirectionForBuiltIn`; the flag is false for the result -1.
  unfoldable pub redirect_stdin : Option Text → Shell → Shell × Bool
  redirect_stdin none s = (record s { redirected_stdin = none }, true)
  redirect_stdin (some path) s = elim (k.open_read s.history path) [
    | none ↦ (
      emit (printed stderr_fileno (cannot_read path)) (record s { redirected_stdin = none }),
      false,
    )
    | some fd ↦ (emit (opened fd) (record s { redirected_stdin = some fd }), true)
  ]

  abbrev pub open_output : List Effect → Text → Option ℕ
  open_output history path = elim (k.open_write history path read_write) [
    | none ↦ k.open_write history path write_only
    | some fd ↦ some fd
  ]

  unfoldable pub redirect_stdout : Option Text → Shell → Shell × Bool
  redirect_stdout none s = (record s { redirected_stdout = none }, true)
  redirect_stdout (some path) s = elim (open_output s.history path) [
    | none ↦ (
      emit (printed stderr_fileno (cannot_write path)) (record s { redirected_stdout = none }),
      false,
    )
    | some fd ↦ (emit (opened fd) (record s { redirected_stdout = some fd }), true)
  ]

  unfoldable pub handle_redirection_for_builtin : Option Text → Option Text → Shell → Shell × Bool
  unfolding redirect_stdin redirect_stdout
  handle_redirection_for_builtin infile outfile s =
      let (s', done) = redirect_stdin infile s in
      if done then redirect_stdout outfile s' else (s', false)

  abbrev pub out_fd : Option ℕ → ℕ
  out_fd none = stdout_fileno
  out_fd (some fd) = if ltb 0 fd then fd else stdout_fileno

  -- The `switch` of `handleBuiltin`, with the `closeRedirectedFdsIfAny` behind it.
  unfoldable pub run_builtin : Builtin → List Text → Schedule → Shell → Run
  unfolding close_redirected_fds_if_any kill_all_jobs handle_background_foreground_builtin
      unblock_sig_child
  run_builtin quit_command argv sched s =
      let s' = close_redirected_fds_if_any s in exited 0 (kill_all_jobs k s'.table.jobs s')
  run_builtin fgbg_command argv sched s =
      and_then (handle_background_foreground_builtin argv (out_fd s.redirected_stdout) sched s)
        λ s'. ok (close_redirected_fds_if_any s')
  run_builtin jobs_command argv sched s =
      and_then
        (unblock_sig_child sched.at_unblock (
          emit (printed (out_fd s.redirected_stdout) (job_lines (list_jobs_to_fd s.table.jobs))) s))
        λ s'. ok (close_redirected_fds_if_any s')

  -- `handleBuiltin` for a command that is a builtin.
  unfoldable pub handle_builtin :
      Builtin → List Text → Option Text → Option Text → Schedule → Shell → Run
  unfolding handle_redirection_for_builtin run_builtin close_redirected_fds_if_any
  handle_builtin b argv infile outfile sched s =
      let (s', done) = handle_redirection_for_builtin infile outfile s in
      if done then run_builtin b argv sched s' else ok (close_redirected_fds_if_any s')
