-- ===== src/Tsh/Jobs.antt =====
-- The job table of the shell: assign3/tsh-jobs.h and assign3/tsh-jobs.c.
-- A table is the array `jobs` with the static `nextJobID`. A `job_t *` is a slot's index. Process and
-- job ids are natural numbers: the shell hands on only what fork and waitpid return above 0, and what
-- atoi reads from a digit.
pub mod Lookup
pub mod Slots
pub mod Invariant
pub mod Table
use cs.Prelude.{
  ℕ, zero, suc, ◌+◌, Bool, true, false, Option, none, some, List, [], ◌∷◌, ltb, ◌==◌, not,
  if◌then◌else◌, replicate,
}
use mathlib.Core.Option

abbrev pub Text : Type 0
Text = List ℕ

abbrev pub max_jobs : ℕ
max_jobs = 16

abbrev pub max_job_id : ℕ
max_job_id = 65536

pub data JobState : Type 0 where
  undefined background foreground stopped : JobState

pub record Job : Type 0 where
  pub pid : ℕ
  pub jid : ℕ
  pub state : JobState
  pub command_line : Text

pub record JobTable : Type 0 where
  pub jobs : List Job
  pub next_job_id : ℕ

abbrev pub is_foreground : JobState → Bool
is_foreground foreground = true
is_foreground _ = false

abbrev pub cleared_job : Job
cleared_job = record { pid = 0; jid = 0; state = undefined; command_line = [] }

-- The argument is overwritten field by field.
abbrev pub clear_job : Job → Job
clear_job j = record j { pid = 0; jid = 0; state = undefined; command_line = [] }

-- Before `initJobs` the array holds zeros, as static storage does; every entry is cleared.
clear_all : List Job → List Job
clear_all [] = []
clear_all (j ∷ js) = clear_job j ∷ clear_all js

unfoldable pub init_jobs : JobTable → JobTable
unfolding clear_all
init_jobs t = record t { jobs = clear_all t.jobs }

-- The table of a fresh process.
abbrev pub initial_table : JobTable
initial_table = record { jobs = replicate max_jobs cleared_job; next_job_id = 1 }

unfoldable pub max_from : ℕ → List Job → ℕ
max_from max [] = max
max_from max (j ∷ js) = max_from (if ltb max j.jid then j.jid else max) js

-- The array is never empty; the first clause is not reached.
unfoldable pub get_max_job_id : List Job → ℕ
unfolding max_from
get_max_job_id [] = 0
get_max_job_id (j ∷ js) = max_from j.jid js

unfoldable pub can_new_job_be_added : List Job → Bool
can_new_job_be_added [] = false
can_new_job_be_added (j ∷ js) = if j.pid == 0 then true else can_new_job_be_added js

-- The first free slot gets the job; `none` when the loop finds none.
unfoldable pub fill_slot : Job → List Job → Option (List Job)
fill_slot new [] = none
fill_slot new (j ∷ js) =
    if j.pid == 0 then some (new ∷ js) else Option.map (λ r. j ∷ r) (fill_slot new js)

unfoldable pub advance : ℕ → ℕ
advance n = if ltb max_job_id (n + 1) then 1 else n + 1

-- The false result at the end comes with a message in the C code, which is left out here.
unfoldable pub add_job : JobTable → ℕ → JobState → Text → JobTable × Bool
unfolding fill_slot advance
add_job t pid state line =
    if ltb pid 1
    then (t, false)
    else elim (fill_slot
        (record { pid = pid; jid = t.next_job_id; state = state; command_line = line }) t.jobs) [
          | none ↦ (t, false)
          | some js ↦ (record { jobs = js; next_job_id = advance t.next_job_id }, true)
        ]

unfoldable pub clear_slot : ℕ → List Job → Option (List Job)
clear_slot pid [] = none
clear_slot pid (j ∷ js) =
    if j.pid == pid then some (clear_job j ∷ js) else Option.map (λ r. j ∷ r) (clear_slot pid js)

unfoldable pub delete_job : JobTable → ℕ → JobTable × Bool
unfolding clear_slot get_max_job_id
delete_job t pid = if ltb pid 1 then (t, false) else elim (clear_slot pid t.jobs) [
  | none ↦ (t, false)
  | some js ↦ (record { jobs = js; next_job_id = get_max_job_id js + 1 }, true)
]

unfoldable pub get_fg_job_pid : List Job → ℕ
get_fg_job_pid [] = 0
get_fg_job_pid (j ∷ js) = if is_foreground j.state then j.pid else get_fg_job_pid js

-- The loops of `getJobByPID` and `getJobByJID`: the index of the first slot that fits.
unfoldable pub find_pid : ℕ → List Job → Option ℕ
find_pid pid [] = none
find_pid pid (j ∷ js) = if j.pid == pid then some 0 else Option.map suc (find_pid pid js)

unfoldable pub find_jid : ℕ → List Job → Option ℕ
find_jid jid [] = none
find_jid jid (j ∷ js) = if j.jid == jid then some 0 else Option.map suc (find_jid jid js)

unfoldable pub get_job_by_pid : List Job → ℕ → Option ℕ
unfolding find_pid
get_job_by_pid js pid = if ltb pid 1 then none else find_pid pid js

unfoldable pub get_job_by_jid : List Job → ℕ → Option ℕ
unfolding find_jid
get_job_by_jid js jid = if ltb jid 1 then none else find_jid jid js

unfoldable pub jid_of_pid : ℕ → List Job → ℕ
jid_of_pid pid [] = 0
jid_of_pid pid (j ∷ js) = if j.pid == pid then j.jid else jid_of_pid pid js

unfoldable pub get_jid_from_pid : List Job → ℕ → ℕ
unfolding jid_of_pid
get_jid_from_pid js pid = if ltb pid 1 then 0 else jid_of_pid pid js

-- `entry->state = s` through a `job_t *`.
unfoldable pub set_state : ℕ → JobState → List Job → List Job
set_state i s [] = []
set_state zero s (j ∷ js) = record j { state = s } ∷ js
set_state (suc i) s (j ∷ js) = j ∷ set_state i s js

-- One line of the listing: job id, process id, the word for the state, the command.
pub data StateWord : Type 0 where
  running foreground_word stopped_word internal_error : StateWord

pub record JobLine : Type 0 where
  pub jid : ℕ
  pub pid : ℕ
  pub word : StateWord
  pub command_line : Text

abbrev pub state_word : JobState → StateWord
state_word background = running
state_word foreground = foreground_word
state_word stopped = stopped_word
state_word undefined = internal_error

abbrev pub job_line : Job → JobLine
job_line j = record {
  jid = j.jid;
  pid = j.pid;
  word = state_word j.state;
  command_line = j.command_line;
}

unfoldable pub list_jobs_to_fd : List Job → List JobLine
list_jobs_to_fd [] = []
list_jobs_to_fd (j ∷ js) =
    if not (j.pid == 0) then job_line j ∷ list_jobs_to_fd js else list_jobs_to_fd js
