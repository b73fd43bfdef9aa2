-- ===== src/Tsh/Builtins/Waiting.antt =====
-- Unblocking SIGCHLD and waiting in assign3/tsh.c, and the slots that `fg` and `bg` find.
use cs.Prelude.{
  ℕ, zero, suc, ◌<◌, ◌≡◌, ◌≢◌, refl, false, none, some, List, [], ◌∷◌, ◌==◌, inl, inr, arith,
  All-mono, Option-cases, Bool-cases, get_elem?, ltb, ◌∙◌, sym, eq_of_some,
}
use cs.Tsh.Jobs.{
  Job, JobTable, foreground, get_jid_from_pid, get_job_by_jid, set_state, find_jid, jid_of_pid,
}
use cs.Tsh.Jobs.Lookup.{deref, job_with_pid-first, first_pid}
use cs.Tsh.Jobs.Invariant.{IsWellFormed}
use cs.Tsh.Jobs.Table.{job_with_jid-get_jid_from_pid}
use cs.Tsh.Kernel.{Kernel, Shell, Run, and_then, Delivery, Signal}
use cs.Tsh.Signals.{waitfg, kill_group}
use cs.Tsh.Signals.Foreground.{
  Returning, Returning-and_then, OnlyForeground, IsIdle, Kept, deliver_all-Kept, waitfg-IsIdle,
  OnlyForeground-Kept,
}
use cs.Tsh.Builtins.{unblock_sig_child}

-- The table is fine for the next command.
abbrev pub IdleAfter : Run → Type 0
IdleAfter = Returning (λ s. IsIdle s.table.jobs)

pub IsIdle-OnlyForeground : (pid : ℕ) (js : List Job) → IsIdle js → OnlyForeground pid js
IsIdle-OnlyForeground pid js h = All-mono js (λ j n e. absurd (n e)) h

module _ (k : Kernel) where
  pub unblock_sig_child-Kept :
      (T : JobTable → Type 0)
      → Kept T
      → (ds : List Delivery) (s : Shell) → T s.table
      → Returning (λ s'. T s'.table) (unblock_sig_child k ds s)
  unfolding unblock_sig_child
  unblock_sig_child-Kept T kept ds s h =
      deliver_all-Kept k T kept ds (record s { blocked = false }) h

  -- Unblocking SIGCHLD and then `waitfg`, as `eval` and `fg` do.
  pub unblock-waitfg :
      (pid : ℕ) (before while_waiting : List Delivery) (s : Shell)
      → OnlyForeground pid s.table.jobs
      → IdleAfter (and_then (unblock_sig_child k before s) (waitfg k pid while_waiting))
  unblock-waitfg pid before while_waiting s h =
      Returning-and_then (λ s'. OnlyForeground pid s'.table.jobs) (λ s'. IsIdle s'.table.jobs)
        (unblock_sig_child k before s) (waitfg k pid while_waiting)
        (unblock_sig_child-Kept (λ t. OnlyForeground pid t.jobs) (OnlyForeground-Kept pid) before s
          h)
        (waitfg-IsIdle k pid while_waiting)

-- The slot in the foreground is the only one, and its process id is known.
pub set_state-OnlyForeground :
    (i pid : ℕ) (j : Job) (js : List Job)
    → get_elem? js i ≡ some j
    → j.pid ≡ pid
    → IsIdle js
    → OnlyForeground pid (set_state i foreground js)
unfolding set_state
set_state-OnlyForeground i pid j [] e p h = tt
set_state-OnlyForeground zero pid j (l ∷ js) e p h =
    (ground (arith, eq_of_some e), IsIdle-OnlyForeground pid js h.1)
set_state-OnlyForeground (suc i) pid j (l ∷ js) e p h =
    (λ f. absurd (h.0 f), set_state-OnlyForeground i pid j js e p h.1)

pub kill_group-table :
    (k : Kernel) (fd pid : ℕ) (signal : Signal) (s : Shell)
    → (kill_group k fd pid signal s).table ≡ s.table
unfolding kill_group
kill_group-table k fd pid signal s = ground arith

find_jid-elem :
    (jid i : ℕ) (js : List Job) → find_jid jid js ≡ some i → (j : Job) × (get_elem? js i ≡ some j)
unfolding find_jid
find_jid-elem jid i [] h = cc
find_jid-elem jid i (j ∷ js) h = elim (Bool-cases (j.jid == jid)) [
  | inl e ↦ (j, ground (arith, e))
  | inr e ↦ elim (Option-cases (find_jid jid js)) [
    | inl g ↦ ground (arith, e, g)
    | inr (m, g) ↦ let (l, f) = find_jid-elem jid m js g in (l, ground (arith, e, g, f))
  ]
]

pub get_job_by_jid-elem :
    (jid i : ℕ) (js : List Job)
    → get_job_by_jid js jid ≡ some i
    → (j : Job) × (get_elem? js i ≡ some j)
unfolding get_job_by_jid
get_job_by_jid-elem jid i js h = elim (Bool-cases (ltb jid 1)) [
  | inl e ↦ ground (arith, e)
  | inr e ↦ find_jid-elem jid i js (rw e at h)
]

jid_of_pid-found :
    (pid : ℕ) (js : List Job) → jid_of_pid pid js ≢ 0 → (j : Job) × (first_pid pid js ≡ some j)
unfolding jid_of_pid first_pid
jid_of_pid-found pid [] h = absurd (h refl)
jid_of_pid-found pid (j ∷ js) h = elim (Bool-cases (j.pid == pid)) [
  | inl e ↦ (j, rw e)
  | inr e ↦ let (l, f) = jid_of_pid-found pid js (rw e at h) in (l, rw e f)
]

get_jid_from_pid-found :
    (js : List Job) (pid : ℕ)
    → get_jid_from_pid js pid ≢ 0
    → (0 < pid) × (j : Job) × (first_pid pid js ≡ some j)
unfolding get_jid_from_pid
get_jid_from_pid-found js pid h = elim (Bool-cases (ltb pid 1)) [
  | inl e ↦ absurd (h (rw e))
  | inr e ↦ let (j, f) = jid_of_pid-found pid js (rw e at h) in (ground arith, j, f)
]

-- In a well-formed table, where `getJIDFromPID` finds a job id, `getJobByJID` leads from that id to
-- a job with the process id, so the pointer that `fg` and `bg` follow is not NULL.
pub get_job_by_jid-get_jid_from_pid :
    (t : JobTable) (pid : ℕ)
    → IsWellFormed t
    → get_jid_from_pid t.jobs pid ≢ 0
    → (i : ℕ) × (j : Job) × (get_job_by_jid t.jobs (get_jid_from_pid t.jobs pid) ≡ some i)
      × (get_elem? t.jobs i ≡ some j)
      × (j.pid ≡ pid)
get_job_by_jid-get_jid_from_pid t pid w ne =
    let (pos, j, f) = get_jid_from_pid-found t.jobs pid ne in
    let found = job_with_pid-first t.jobs pid pos ∙ f in
    let (same, back, mine) = job_with_jid-get_jid_from_pid t pid j w pos found in
    elim (Option-cases (get_job_by_jid t.jobs j.jid)) [
      | inl e ↦ let gone : none ≡ some j = sym (rw (e, deref) refl) ∙ back in cc
      | inr (i, e) ↦ (i, j, rw same e, sym (rw (e, deref) refl) ∙ back, mine)
    ]
