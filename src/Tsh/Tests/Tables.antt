-- ===== src/Tsh/Tests/Tables.antt =====
-- The job table of assign3/tsh-jobs.c at work.
use cs.Prelude.{
  ℕ, ◌≡◌, refl, none, some, [], ◌∷◌, replicate, arith, if◌then◌else◌, ◌==◌, inl, get_elem?,
}
use cs.Tsh.Jobs.{
  Text, foreground, background, Job, JobTable, cleared_job, initial_table, add_job, delete_job,
  get_jid_from_pid, get_job_by_jid,
}
use cs.Tsh.Jobs.Lookup.{job_with_pid}
use cs.Tsh.Jobs.Slots.{Distinct}
use cs.Tsh.Jobs.Invariant.{IsWellFormed, entry, add_job-IsWellFormed, delete_job-IsWellFormed}
use cs.Tsh.Jobs.Table.{job_with_pid-add_job, job_with_pid-delete_job, add_job-wraps}
use cs.Tsh.Builtins.Waiting.{get_job_by_jid-get_jid_from_pid}

abbrev ls : Text
ls = b'l' ∷ b's' ∷ []

abbrev job : ℕ → ℕ → Job
job pid jid = record { pid = pid; jid = jid; state = background; command_line = ls }

-- Two jobs run in the background.
abbrev two_jobs : JobTable
two_jobs = record { jobs = job 100 1 ∷ job 200 2 ∷ replicate 14 cleared_job; next_job_id = 3 }

two_jobs-IsWellFormed : IsWellFormed two_jobs
two_jobs-IsWellFormed = ground arith

two_jobs_added :
    (add_job (add_job initial_table 100 background ls).0 200 background ls).0 ≡ two_jobs
unfolding add_job
two_jobs_added = refl

add_job-IsWellFormed_example : IsWellFormed (add_job two_jobs 300 foreground ls).0
add_job-IsWellFormed_example =
    add_job-IsWellFormed two_jobs 300 foreground ls two_jobs-IsWellFormed (ground arith)
      (omega arith)

delete_job-IsWellFormed_example : IsWellFormed (delete_job two_jobs 200).0
delete_job-IsWellFormed_example = delete_job-IsWellFormed two_jobs 200 two_jobs-IsWellFormed

job_with_pid-add_job_example : job_with_pid (add_job two_jobs 300 foreground ls).0.jobs 100 ≡ (
    if 300 == 100 then some (entry two_jobs 300 foreground ls) else job_with_pid two_jobs.jobs 100)
unfolding add_job
job_with_pid-add_job_example =
    job_with_pid-add_job two_jobs 300 foreground ls 100 (ground arith) refl (omega arith)

job_with_pid-delete_job_example :
    job_with_pid (delete_job two_jobs 200).0.jobs 100
    ≡ (if 200 == 100 then none else job_with_pid two_jobs.jobs 100)
job_with_pid-delete_job_example =
    job_with_pid-delete_job two_jobs 200 100 two_jobs-IsWellFormed (omega arith)

-- A job with id 1 has outlived all the job ids.
abbrev worn_out : JobTable
worn_out = record { jobs = job 100 1 ∷ replicate 15 cleared_job; next_job_id = 65536 }

add_job-wraps_example :
    ¬ Distinct (add_job (add_job worn_out 200 background ls).0 300 background ls).0.jobs
unfolding add_job
add_job-wraps_example =
    add_job-wraps worn_out 200 300 background background ls ls refl (inl (ground arith, refl)) refl
      refl

get_job_by_jid-get_jid_from_pid_example :
    (i : ℕ) × (j : Job) × (get_job_by_jid two_jobs.jobs (get_jid_from_pid two_jobs.jobs 200)
      ≡ some i)
    × (get_elem? two_jobs.jobs i ≡ some j)
    × (j.pid ≡ 200)
unfolding get_jid_from_pid
get_job_by_jid-get_jid_from_pid_example =
    get_job_by_jid-get_jid_from_pid two_jobs 200 two_jobs-IsWellFormed (ground arith)
