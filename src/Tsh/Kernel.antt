-- ===== src/Tsh/Kernel.antt =====
-- What the shell of assign3/tsh.c keeps besides its job table, and what it asks of the kernel.
-- The kernel is a parameter. Its answers may depend on all that the shell has done so far.
use cs.Prelude.{ℕ, Bool, false, Option, none, List, [], ◌∷◌, ◌++◌}
use cs.Tsh.Jobs.{Text, JobTable, JobLine, initial_table}

pub data Signal : Type 0 where
  sigint sigtstp sigcont sighup : Signal

-- The messages that the shell prints.
pub data Notice : Type 0 where
  job_started : (jid pid : ℕ) → Text → Notice
  job_stopped : (jid pid signal : ℕ) → Notice
  job_terminated : (jid pid signal : ℕ) → Notice
  job_lines : List JobLine → Notice
  needs_argument bad_argument : Text → Notice
  no_such_process no_such_job kill_failed : ℕ → Notice
  cannot_read cannot_write : Text → Notice
  too_many_jobs terminating : Notice

-- What the shell does to the world, in order.
pub data Effect : Type 0 where
  opened closed : ℕ → Effect
  signalled : ℕ → Signal → Effect
  printed : (fd : ℕ) → Notice → Effect
  forked : ℕ → Effect

-- The mode of a file that is created: S_IRUSR | S_IWUSR, or S_IWUSR alone.
pub data Mode : Type 0 where
  read_write write_only : Mode

-- `none` is the result -1. `fork` is what the parent gets.
pub record Kernel : Type 0 where
  pub open_read : List Effect → Text → Option ℕ
  pub open_write : List Effect → Text → Mode → Option ℕ
  pub kill : List Effect → ℕ → Signal → Bool
  pub fork : List Effect → Option ℕ

-- The static variables: -1 in a descriptor is `none`. `blocked` is the mask of SIGCHLD.
pub record Shell : Type 0 where
  pub table : JobTable
  pub blocked : Bool
  pub redirected_stdin : Option ℕ
  pub redirected_stdout : Option ℕ
  pub history : List Effect

abbrev pub initial_shell : Shell
initial_shell = record {
  table = initial_table;
  blocked = false;
  redirected_stdin = none;
  redirected_stdout = none;
  history = [];
}

-- How a piece of the shell ends: it returns, it leaves the process with a status, it follows a null
-- pointer, or it is still suspended in `waitfg` when no more signals come.
pub data Run : Type 0 where
  ok : Shell → Run
  exited : ℕ → Shell → Run
  fault : Run
  waiting : ℕ → Shell → Run

abbrev pub and_then : Run → (Shell → Run) → Run
and_then (ok s) k = k s
and_then (exited n s) k = exited n s
and_then fault k = fault
and_then (waiting pid s) k = waiting pid s

abbrev pub emit : Effect → Shell → Shell
emit e s = record s { history = s.history ++ e ∷ [] }

abbrev pub stdout_fileno : ℕ
stdout_fileno = 1

abbrev pub stderr_fileno : ℕ
stderr_fileno = 2

-- What a child reports to `waitpid`: its process id, and the signal if there is one.
pub data Report : Type 0 where
  stopped signaled : (pid signal : ℕ) → Report
  finished : (pid : ℕ) → Report

-- How the loop over `waitpid` ends: with 0 or ECHILD, or with another error.
pub data WaitEnd : Type 0 where
  no_more wait_error : WaitEnd

-- A signal that reaches the shell; SIGCHLD comes with what `waitpid` then yields.
pub data Delivery : Type 0 where
  child : List Report → WaitEnd → Delivery
  interrupt suspend quit : Delivery
