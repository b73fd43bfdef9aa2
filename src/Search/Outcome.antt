-- ===== src/Search/Outcome.antt =====
-- What becomes of a run of the search program of assign2: its result, a failed assertion, which ends
-- the program and leaves no state, or a loop that has used up its fuel.
use cs.Prelude.{◌≢◌, Option, none, some, arith}

pub data Outcome (A : Type 0) : Type 0 where
  done : A → Outcome A
  assertion_failed : Outcome A
  out_of_fuel : Outcome A

infixl 5 ◌>>=◌
abbrev pub ◌>>=◌ : {A B : Type 0} → Outcome A → (A → Outcome B) → Outcome B
done a >>= f = f a
assertion_failed >>= f = assertion_failed
out_of_fuel >>= f = out_of_fuel

-- What follows where there is something, and otherwise.
abbrev pub on_some : {A B : Type 0} → Option A → (A → B) → B → B
on_some none f b = b
on_some (some a) f b = f a

-- The run does not use up its fuel, and what it yields has a property.
abbrev pub Ends : {A : Type 0} → (A → Type 0) → Outcome A → Type 0
Ends P (done a) = P a
Ends P assertion_failed = Unit {0}
Ends P out_of_fuel = ⊥

pub Ends-bind :
    {A B : Type 0} (P : A → Type 0) (Q : B → Type 0) (r : Outcome A) (f : A → Outcome B)
    → Ends P r
    → ((a : A) → P a → Ends Q (f a))
    → Ends Q (r >>= f)
Ends-bind P Q (done a) f h k = k a h
Ends-bind P Q assertion_failed f h k = tt
Ends-bind P Q out_of_fuel f h k = elim h [ ]

pub Ends-weaken :
    {A : Type 0} (P Q : A → Type 0) (r : Outcome A) → Ends P r → ((a : A) → P a → Q a) → Ends Q r
Ends-weaken P Q (done a) h k = k a h
Ends-weaken P Q assertion_failed h k = tt
Ends-weaken P Q out_of_fuel h k = elim h [ ]

pub Ends-≢ : {A : Type 0} (P : A → Type 0) (r : Outcome A) → Ends P r → r ≢ out_of_fuel
Ends-≢ P (done a) h e = ground (arith, e)
Ends-≢ P assertion_failed h e = ground (arith, e)
Ends-≢ P out_of_fuel h e = h

-- If the run yields a result, it has this property.
abbrev pub Whenever : {A : Type 0} → (A → Type 0) → Outcome A → Type 0
Whenever P (done a) = P a
Whenever P assertion_failed = Unit {0}
Whenever P out_of_fuel = Unit {0}

pub Whenever-bind :
    {A B : Type 0} (P : A → Type 0) (Q : B → Type 0) (r : Outcome A) (f : A → Outcome B)
    → Whenever P r
    → ((a : A) → P a → Whenever Q (f a))
    → Whenever Q (r >>= f)
Whenever-bind P Q (done a) f h k = k a h
Whenever-bind P Q assertion_failed f h k = tt
Whenever-bind P Q out_of_fuel f h k = tt

pub Whenever-any : {A : Type 0} (r : Outcome A) → Whenever (λ a. Unit {0}) r
Whenever-any (done a) = tt
Whenever-any assertion_failed = tt
Whenever-any out_of_fuel = tt

pub Whenever-weaken :
    {A : Type 0} (P Q : A → Type 0) (r : Outcome A)
    → Whenever P r
    → ((a : A) → P a → Q a)
    → Whenever Q r
Whenever-weaken P Q (done a) h k = k a h
Whenever-weaken P Q assertion_failed h k = tt
Whenever-weaken P Q out_of_fuel h k = tt
