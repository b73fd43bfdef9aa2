-- ===== src/Tsh/Tests/Commands.antt =====
-- Commands through `eval` of assign3/tsh.c.
use cs.Prelude.{◌≡◌, refl, true, false, none, some, [], ◌∷◌, ◌++◌, arith, replicate}
use cs.Tsh.Jobs.{Text, Job, background, can_new_job_be_added}
use cs.Tsh.Jobs.Invariant.{initial-IsWellFormed}
use cs.Tsh.Kernel.{Kernel, Shell, initial_shell, closed, ok, waiting}
use cs.Tsh.Parse.{Parsed, parse_line, round, skip_whitespace}
use cs.Tsh.Signals.{close_redirected_fds_if_any}
use cs.Tsh.Signals.Foreground.{Returning, IsIdle}
use cs.Tsh.Builtins.{is_handle_builtin, Schedule, jobs_command}
use cs.Tsh.Builtins.Waiting.{IdleAfter}
use cs.Tsh.Eval.{start_job, eval}
use cs.Tsh.Eval.Idle.{eval-IsIdle}
use cs.Tsh.Eval.Blocking.{IsOpen, start_job-IsOpen, eval_full_blocked}
use cs.Tsh.Eval.Wakeup.{
  reaped, its_end, start_job-returns, start_job-lost_wakeup, eval_redirection_blocked,
  close_redirected_fds_if_any_twice,
}

-- A kernel without files, where each child gets the process id 100.
abbrev kernel : Kernel
kernel = record {
  open_read = λ h path. none;
  open_write = λ h path mode. none;
  kill = λ h pid signal. true;
  fork = λ h. some 100;
}

abbrev ls : Text
ls = b'l' ∷ b's' ∷ []

abbrev waits : Schedule
waits = record { at_unblock = []; while_waiting = its_end 100 ∷ [] }

abbrev hurries : Schedule
hurries = record { at_unblock = its_end 100 ∷ []; while_waiting = [] }

eval-IsIdle_example : IdleAfter (eval kernel ls waits initial_shell)
eval-IsIdle_example = eval-IsIdle kernel ls waits initial_shell initial-IsWellFormed (ground arith)

start_job-IsOpen_example : Returning IsOpen (start_job kernel 100 true ls waits initial_shell)
start_job-IsOpen_example = start_job-IsOpen kernel 100 true ls waits initial_shell

start_job-returns_example :
    (start_job kernel 100 false ls waits initial_shell
      ≡ ok (record initial_shell { blocked = false; table = reaped initial_shell 100 ls }))
    × IsIdle (reaped initial_shell 100 ls).jobs
start_job-returns_example =
    start_job-returns kernel initial_shell 100 ls initial-IsWellFormed (ground arith) (ground arith)
      (omega arith)

start_job-lost_wakeup_example :
    (start_job kernel 100 false ls hurries initial_shell
      ≡ waiting 100 (record initial_shell { blocked = false; table = reaped initial_shell 100 ls }))
    × IsIdle (reaped initial_shell 100 ls).jobs
start_job-lost_wakeup_example =
    start_job-lost_wakeup kernel initial_shell 100 ls initial-IsWellFormed (ground arith)
      (ground arith) (omega arith)

abbrev busy : Job
busy = record { pid = 7; jid = 1; state = background; command_line = ls }

abbrev full_shell : Shell
full_shell = record initial_shell { table = record { jobs = replicate 16 busy; next_job_id = 2 } }

abbrev ls_parsed : Parsed
ls_parsed = record {
  arguments = ls ∷ [];
  infile = none;
  outfile = none;
  background = false;
  message = none;
}

eval_full_blocked_example :
    (s' : Shell) × (eval kernel ls waits full_shell ≡ ok s')
    × (s'.blocked ≡ true)
    × (s'.table ≡ full_shell.table)
unfolding parse_line round skip_whitespace is_handle_builtin can_new_job_be_added
eval_full_blocked_example =
    eval_full_blocked kernel ls waits full_shell ls_parsed ls [] refl refl refl refl

-- `jobs < x`
abbrev jobs_from : Text
jobs_from = b'j' ∷ b'o' ∷ b'b' ∷ b's' ∷ b' ' ∷ b'<' ∷ b' ' ∷ b'x' ∷ []

abbrev jobs_parsed : Parsed
jobs_parsed = record {
  arguments = (b'j' ∷ b'o' ∷ b'b' ∷ b's' ∷ []) ∷ [];
  infile = some (b'x' ∷ []);
  outfile = none;
  background = false;
  message = none;
}

eval_redirection_blocked_example :
    (s' : Shell) × (eval kernel jobs_from waits initial_shell ≡ ok s') × (s'.blocked ≡ true)
unfolding parse_line round skip_whitespace is_handle_builtin
eval_redirection_blocked_example =
    eval_redirection_blocked kernel jobs_from waits initial_shell jobs_parsed
      (b'j' ∷ b'o' ∷ b'b' ∷ b's' ∷ []) (b'x' ∷ []) [] jobs_command refl refl refl refl refl

abbrev redirected : Shell
redirected = record initial_shell { redirected_stdout = some 3 }

close_redirected_fds_if_any_twice_example :
    (close_redirected_fds_if_any (close_redirected_fds_if_any redirected)).history
    ≡ ([] ++ closed 3 ∷ []) ++ closed 3 ∷ []
close_redirected_fds_if_any_twice_example = close_redirected_fds_if_any_twice redirected 3 refl refl
