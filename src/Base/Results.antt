-- ===== src/Base/Results.antt =====
-- `Result<T, E>` of the source.

use mathlib.Core.Path.{◌≡◌, refl}
use mathlib.Core.Option.{Option, none, some}
use mathlib.Core.Bool.{Bool, true, false}
use anon_guard.Base.Tests.{if◌then◌else◌}
use mathlib.Core.Logic.{◌⊎◌, inl, inr}

pub data Result {ℓ κ} (A : Type ℓ) (E : Type κ) : Type (ℓ ⊔ κ) where
  ok : A → Result A E
  err : E → Result A E

infixl 5 ◌>>=◌
abbrev pub ◌>>=◌ {ℓ κ ι} :
    {A : Type ℓ} {B : Type κ} {E : Type ι} → Result A E → (A → Result B E) → Result B E
ok a >>= f = f a
err e >>= f = err e

abbrev pub is_ok {ℓ κ} : {A : Type ℓ} {E : Type κ} → Result A E → Bool
is_ok (ok a) = true
is_ok (err e) = false

pub Result-cases {ℓ κ} :
    {A : Type ℓ} {E : Type κ} (r : Result A E) → ((a : A) × (r ≡ ok a)) ⊎ ((e : E) × (r ≡ err e))
Result-cases (ok a) = inl (a, refl)
Result-cases (err e) = inr (e, refl)

-- `and_then` of an option.
abbrev pub and_then {ℓ κ} : {A : Type ℓ} {B : Type κ} → Option A → (A → Option B) → Option B
and_then none f = none
and_then (some a) f = f a

-- A result, if there is one, has the property.
abbrev pub Holds {ℓ κ ι} : {A : Type ℓ} {E : Type κ} → (A → Type ι) → Result A E → Type ι
Holds P (ok a) = P a
Holds P (err e) = Unit

pub Holds-bind {ℓ κ ι ν} :
    {A : Type ℓ} {B : Type ν} {E : Type κ} (Q : A → Type ι) (P : B → Type ι) (r : Result A E)
    (f : A → Result B E)
    → Holds Q r
    → ((a : A) → Q a → Holds P (f a))
    → Holds P (r >>= f)
Holds-bind Q P (ok a) f q h = h a q
Holds-bind Q P (err e) f q h = tt

-- A guard that fails the round.
pub Holds-guard {ℓ κ ι} :
    {A : Type ℓ} {E : Type κ} (P : A → Type ι) (b : Bool) (e : E) (r : Result A E)
    → (b ≡ false → Holds P r)
    → Holds P (if b then err e else r)
Holds-guard P true e r h = tt
Holds-guard P false e r h = h refl

pub Holds-if {ℓ κ ι} :
    {A : Type ℓ} {E : Type κ} (P : A → Type ι) (b : Bool) (r s : Result A E)
    → (b ≡ true → Holds P r)
    → (b ≡ false → Holds P s)
    → Holds P (if b then r else s)
Holds-if P true r s h k = h refl
Holds-if P false r s h k = k refl
