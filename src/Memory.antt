-- ===== src/Memory.antt =====
-- Runs of code that can fault: a read through a null or dangling pointer, or a loop that has used
-- up the rounds it was given. `Returns` is total correctness of such a run.
use newbee.Base.{◌≡◌, refl, subst, Bool, true, false, if◌then◌else◌}

pub data Run {ℓ} (A : Type ℓ) : Type ℓ where
  ok : A → Run A
  fault : Run A
  out_of_fuel : Run A

abbrev pub and_then {ℓ κ} : {A : Type ℓ} {B : Type κ} → Run A → (A → Run B) → Run B
and_then (ok a) k = k a
and_then fault k = fault
and_then out_of_fuel k = out_of_fuel

pub data Returns {A : Type 0} (P : A → Type 0) : Run A → Type 0 where
  returns : {a : A} → P a → Returns P (ok a)

module _ {A : Type 0} {P : A → Type 0} where
  -- The rule of sequencing.
  pub Returns-bind :
      {B : Type 0} {Q : B → Type 0} {r : Run A} {k : A → Run B}
      → Returns P r
      → ((a : A) → P a → Returns Q (k a))
      → Returns Q (and_then r k)
  Returns-bind (returns p) next = next _ p

  pub Returns-mono :
      {Q : A → Type 0} {r : Run A} → Returns P r → ((a : A) → P a → Q a) → Returns Q r
  Returns-mono (returns p) weaken = returns (weaken _ p)

  -- A run that returns has a result, with the postcondition.
  pub Returns-result : {r : Run A} → Returns P r → (a : A) × (r ≡ ok a) × P a
  Returns-result (returns {a} p) = (a, refl, p)

-- The postcondition, of a run that is known to have returned.
abbrev Post : {A : Type 0} → (A → Type 0) → Run A → Type 0
Post P (ok a) = P a
Post P fault = Unit {0}
Post P out_of_fuel = Unit {0}

Returns-Post : {A : Type 0} (P : A → Type 0) (r : Run A) → Returns P r → Post P r
Returns-Post P r (returns p) = p

pub Returns-ok : {A : Type 0} (P : A → Type 0) (r : Run A) (a : A) → Returns P r → r ≡ ok a → P a
Returns-ok P r a h e = subst (Post P) e (Returns-Post P r h)

-- Partial correctness: the postcondition of a run that may also fault or run out of fuel.
pub data Holds {A : Type 0} (P : A → Type 0) : Run A → Type 0 where
  holds : {a : A} → P a → Holds P (ok a)
  holds_fault : Holds P fault
  holds_no_fuel : Holds P out_of_fuel

Holds-Post : {A : Type 0} (P : A → Type 0) (r : Run A) → Holds P r → Post P r
Holds-Post P r (holds p) = p
Holds-Post P r holds_fault = tt
Holds-Post P r holds_no_fuel = tt

pub Holds-ok : {A : Type 0} (P : A → Type 0) (r : Run A) (a : A) → Holds P r → r ≡ ok a → P a
Holds-ok P r a h e = subst (Post P) e (Holds-Post P r h)

pub Returns-Holds :
    {A : Type 0} {P Q : A → Type 0} {r : Run A}
    → Returns P r
    → Holds Q r
    → Returns (λ a. P a × Q a) r
Returns-Holds (returns p) (holds q) = returns (p, q)

-- One rule for each way to build a run.
module _ {A : Type 0} {P : A → Type 0} where
  pub Holds-if : (b : Bool) {r r' : Run A} → Holds P r → Holds P r' → Holds P (if b then r else r')
  Holds-if true h h' = h
  Holds-if false h h' = h'

  pub Holds-any :
      {B : Type 0} (r : Run B) {k : B → Run A} → ((b : B) → Holds P (k b)) → Holds P (and_then r k)
  Holds-any (ok b) h = h b
  Holds-any fault h = holds_fault
  Holds-any out_of_fuel h = holds_no_fuel

  pub Holds-bind :
      {B : Type 0} {Q : B → Type 0} {r : Run B} {k : B → Run A}
      → Holds Q r
      → ((b : B) → Q b → Holds P (k b))
      → Holds P (and_then r k)
  Holds-bind (holds q) h = h _ q
  Holds-bind holds_fault h = holds_fault
  Holds-bind holds_no_fuel h = holds_no_fuel
