-- ===== src/Run.antt =====
-- The result of running C code: a value, undefined behaviour, or a model's loop out of fuel.

use mathlib.Core.Path.{◌≡◌, refl, subst}

-- `fault` is an access outside an object or through a null pointer, or a failed assertion.
pub data Run {ℓ} (A : Type ℓ) : Type ℓ where
  ok : A → Run A
  fault : Run A
  out_of_fuel : Run A

infixl 5 ◌>>=◌
abbrev pub ◌>>=◌ {ℓ κ} : {A : Type ℓ} {B : Type κ} → Run A → (A → Run B) → Run B
ok a >>= f = f a
fault >>= f = fault
out_of_fuel >>= f = out_of_fuel

-- A run ends: with a value of which `P` holds, or with a fault, and then `F` holds.
pub data Ends {A : Type 0} (F : Type 0) (P : A → Type 0) : Run A → Type 0 where
  returned : {a : A} → P a → Ends F P (ok a)
  faulted : F → Ends F P fault

module _ {A : Type 0} {F : Type 0} {P : A → Type 0} where
  pub bind :
      {B : Type 0} {Q : B → Type 0} {r : Run A} {f : A → Run B}
      → Ends F P r
      → ((a : A) → P a → Ends F Q (f a))
      → Ends F Q (r >>= f)
  bind (returned p) next = next _ p
  bind (faulted x) next = faulted x

  pub mono :
      {G : Type 0} {Q : A → Type 0} {r : Run A}
      → Ends F P r
      → (F → G)
      → ((a : A) → P a → Q a)
      → Ends G Q r
  mono (returned p) g q = returned (q _ p)
  mono (faulted x) g q = faulted (g x)

  -- What holds of the value that a run returns.
  pub value : {a : A} {r : Run A} → Ends F P r → r ≡ ok a → P a
  value {a} h e = of_ok (subst (Ends F P) e h)
    where
      of_ok : Ends F P (ok a) → P a
      of_ok (returned p) = p

-- A run and what follows from its value, of which it is known that the run returns it; the two fail
-- for reasons of their own.
pub bind_ok :
    {A B : Type 0} {F H : Type 0} {P : A → Type 0} {Q : B → Type 0} {r : Run A} {f : A → Run B}
    → Ends F P r
    → (F → H)
    → ((a : A) → r ≡ ok a → P a → Ends H Q (f a))
    → Ends H Q (r >>= f)
bind_ok (returned {a} p) weaken next = next a refl p
bind_ok (faulted x) weaken next = faulted (weaken x)

-- A run without a fault has a value.
pub returns : {A : Type 0} {P : A → Type 0} {r : Run A} → Ends ⊥ P r → (a : A) × (r ≡ ok a) × P a
returns (returned {a} p) = (a, refl, p)
returns (faulted x) = absurd x

-- What two proofs say of one run.
pub both :
    {A : Type 0} {F G : Type 0} {P Q : A → Type 0} {r : Run A}
    → Ends F P r
    → Ends G Q r
    → Ends G (λ a. P a × Q a) r
both (returned p) h = returned (p, value h refl)
both (faulted x) h = faulted (of_fault h)
  where
    of_fault : {A : Type 0} {G : Type 0} {Q : A → Type 0} → Ends G Q fault → G
    of_fault (faulted y) = y
