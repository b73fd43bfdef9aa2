-- ===== src/Tsh/Jobs/Slots.antt =====
-- The two predicates on the slots of the job table, through the search loops of assign3/tsh-jobs.c.
use cs.Prelude.{
  ℕ, ◌≤◌, ◌<◌, ◌≡◌, ◌≢◌, inl, inr, some, List, [], ◌∷◌, arith, ltb, ◌==◌, if◌then◌else◌, All,
  length, Option-cases, Bool-cases,
}
use cs.Tsh.Jobs.{undefined, Job, clear_job, fill_slot, clear_slot, max_from, get_max_job_id}
use cs.Tsh.Jobs.Lookup.{NoPid, NoJid}

-- A free slot is cleared; a taken one has a job id between 1 and the next one to give.
abbrev pub IsSlot : ℕ → Job → Type 0
IsSlot next j =
    (j.pid ≡ 0 → (j.jid ≡ 0) × (j.state ≡ undefined)) × (j.pid ≢ 0 → (0 < j.jid) × (j.jid < next))

-- The taken slots have different process ids and different job ids.
abbrev pub Distinct : List Job → Type 0
Distinct [] = Unit {0}
Distinct (j ∷ js) = (j.pid ≢ 0 → NoPid j.pid js × NoJid j.jid js) × Distinct js

-- A predicate of all entries after the search loop of `addJob` or `deleteJob`.
pub fill-All :
    (P : Job → Type 0) (new : Job) (js r : List Job)
    → fill_slot new js ≡ some r
    → P new
    → All P js
    → All P r
unfolding fill_slot
fill-All P new [] r h p all = cc
fill-All P new (j ∷ js) r h p all = elim (Option-cases (fill_slot new js)) [
  | inl e ↦ ground (arith, e)
  | inr (s, e) ↦ ground (arith, e, fill-All P new js s e p all.1)
]

pub clear-All :
    (P : Job → Type 0) (pid : ℕ) (js r : List Job)
    → clear_slot pid js ≡ some r
    → ((j : Job) → P j → P (clear_job j))
    → All P js
    → All P r
unfolding clear_slot
clear-All P pid [] r h p all = cc
clear-All P pid (j ∷ js) r h p all = elim (Option-cases (clear_slot pid js)) [
  | inl e ↦ ground (arith, e, p j all.0)
  | inr (s, e) ↦ ground (arith, e, clear-All P pid js s e p all.1, p j all.0)
]

pub fill-length : (new : Job) (js r : List Job) → fill_slot new js ≡ some r → length r ≡ length js
unfolding fill_slot
fill-length new [] r h = cc
fill-length new (j ∷ js) r h = elim (Option-cases (fill_slot new js)) [
  | inl e ↦ ground (arith, e)
  | inr (s, e) ↦ ground (arith, e, fill-length new js s e)
]

pub clear-length : (pid : ℕ) (js r : List Job) → clear_slot pid js ≡ some r → length r ≡ length js
unfolding clear_slot
clear-length pid [] r h = cc
clear-length pid (j ∷ js) r h = elim (Option-cases (clear_slot pid js)) [
  | inl e ↦ ground (arith, e)
  | inr (s, e) ↦ ground (arith, e, clear-length pid js s e)
]

pub fill-Distinct :
    (new : Job) (js r : List Job)
    → fill_slot new js ≡ some r
    → NoPid new.pid js
    → NoJid new.jid js
    → Distinct js
    → Distinct r
unfolding fill_slot
fill-Distinct new [] r h p d dist = cc
fill-Distinct new (j ∷ js) r h p d dist = elim (Option-cases (fill_slot new js)) [
  | inl e ↦ ground (arith, e)
  | inr (s, e) ↦ elim (Bool-cases (j.pid == 0)) [
    | inl z ↦ ground (arith, z)
    | inr nz ↦ ground (
      arith,
      e,
      nz,
      fill-Distinct new js s e p.1 d.1 dist.1,
      fill-All (λ k. k.pid ≢ j.pid) new js s e,
      fill-All (λ k. k.jid ≢ j.jid) new js s e,
    )
  ]
]

pub clear-Distinct :
    (next pid : ℕ) (js r : List Job)
    → clear_slot pid js ≡ some r
    → All (IsSlot next) js
    → Distinct js
    → Distinct r
unfolding clear_slot
clear-Distinct next pid [] r h slots dist = cc
clear-Distinct next pid (j ∷ js) r h slots dist = elim (Option-cases (clear_slot pid js)) [
  | inl e ↦ ground (arith, e)
  | inr (s, e) ↦ elim (Bool-cases (j.pid == 0)) [
    | inl z ↦ ground (arith, z, e, clear-Distinct next pid js s e slots.1 dist.1)
    | inr nz ↦ ground (
      arith,
      e,
      nz,
      clear-Distinct next pid js s e slots.1 dist.1,
      clear-All (λ k. k.pid ≢ j.pid) pid js s e (λ k q. ground arith),
      clear-All (λ k. k.jid ≢ j.jid) pid js s e (λ k q. ground arith),
    )
  ]
]

-- `getMaxJobID` bounds every job id.
max_from-le : (m : ℕ) (js : List Job) → m ≤ max_from m js
unfolding max_from
max_from-le m [] = omega arith
max_from-le m (j ∷ js) = ground (arith, max_from-le (if ltb m j.jid then j.jid else m) js)

max_from-All : (m : ℕ) (js : List Job) → All (λ j. j.jid ≤ max_from m js) js
unfolding max_from
max_from-All m [] = tt
max_from-All m (j ∷ js) =
    let m' = if ltb m j.jid then j.jid else m in
    (ground (arith, max_from-le m' js), max_from-All m' js)

pub get_max_job_id-All : (js : List Job) → All (λ j. j.jid ≤ get_max_job_id js) js
unfolding get_max_job_id
get_max_job_id-All [] = tt
get_max_job_id-All (j ∷ js) = (max_from-le j.jid js, max_from-All j.jid js)

-- A slot that is fine below a bound is fine below another one that bounds its job id.
pub IsSlot-bound : (n m : ℕ) (j : Job) → IsSlot n j → j.jid < m → IsSlot m j
IsSlot-bound n m j h b = ground arith

pub next-All :
    (n m : ℕ) (js : List Job) → All (IsSlot n) js → All (λ j. j.jid < m) js → All (IsSlot m) js
next-All n m [] h b = tt
next-All n m (j ∷ js) h b = (IsSlot-bound n m j h.0 b.0, next-All n m js h.1 b.1)
