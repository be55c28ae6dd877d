-- ===== src/Prelude/Outcome.antt =====
-- The outcome of a C++ call that may have no defined behaviour: a result, a fault (a use of freed
-- memory, a read through a null pointer, an access past the end of an array or a message, an
-- uncaught exception), or a loop that the fuel given to
-- it did not let finish.
use mathlib.Core.Path.{◌≡◌, refl, sym, ◌∙◌}

pub data Fault : Type 0 where
  use_after_free null_deref out_of_bounds uncaught_exception : Fault

pub data Outcome {ℓ} (Res : Type ℓ) : Type ℓ where
  out_of_fuel : Outcome Res
  fault : Fault → Outcome Res
  ok : Res → Outcome Res

infixl 5 ◌>>=◌
abbrev pub ◌>>=◌ {ℓ κ} : {X : Type ℓ} {Y : Type κ} → Outcome X → (X → Outcome Y) → Outcome Y
out_of_fuel >>= k = out_of_fuel
fault why >>= k = fault why
ok x >>= k = k x

-- A chain that returns came through its first part.
pub >>=-returns {ℓ κ} :
    {X : Type ℓ} {Y : Type κ} (first : Outcome X) (k : X → Outcome Y) {y : Y}
    → (first >>= k) ≡ ok y
    → (x : X) × (first ≡ ok x) × (k x ≡ ok y)
>>=-returns out_of_fuel k h = cc
>>=-returns (fault why) k h = cc
>>=-returns (ok x) k h = (x, refl, h)

-- A call returns one result only.
pub ok_same {ℓ} : {A : Type ℓ} {r : Outcome A} {x y : A} → r ≡ ok x → r ≡ ok y → x ≡ y
ok_same e f = let same : ok _ ≡ ok _ = sym e ∙ f in cc same

-- The call returns, and its result satisfies `P`.
pub data Safe {A : Type 0} (P : A → Type 0) (r : Outcome A) : Type 0 where
  safe : (a : A) → r ≡ ok a → P a → Safe P r

module _ {A B : Type 0} {P : A → Type 0} {Q : B → Type 0} where
  pub Safe->>= :
      (m : Outcome A) (f : A → Outcome B)
      → Safe P m
      → ((a : A) → P a → Safe Q (f a))
      → Safe Q (m >>= f)
  Safe->>= m f (safe a e p) k = rw e (k a p)
