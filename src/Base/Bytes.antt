-- ===== src/Base/Bytes.antt =====
-- Byte strings as lists of numbers, and the big-endian forms of `to_be_bytes`, `from_be_bytes`.
use Prim.Native.Nat.{ℕ, ◌+◌, ◌*◌, ◌/◌, ◌%◌, ◌^◌, ◌<◌}
use Prim.Native.Char.{code}
use Prim.Native.String.{String}
use mathlib.Core.Path.{◌≡◌, refl, ap}
use mathlib.Core.List.{List, [], ◌∷◌, ◌++◌}
use mathlib.Core.Bool.{Bool, true, false, ◌&&◌}
use native.Mathlib.Omega.{arith}
use mathlib.Core.Logic.{◌≢◌, inl, inr}
use anon_guard.Base.Tests.{◌==◌, Bool-cases}
use anon_guard.Base.Lists.{any, All}

-- The code points of a text: its bytes, for the ASCII literals of the program.
abbrev pub codes : String → List ℕ
codes String.[] = []
codes (String.◌∷◌ c s) = code c ∷ codes s

-- `==` on byte strings.
abbrev pub bytes_eq : List ℕ → List ℕ → Bool
bytes_eq [] [] = true
bytes_eq [] (y ∷ ys) = false
bytes_eq (x ∷ xs) [] = false
bytes_eq (x ∷ xs) (y ∷ ys) = (x == y) && bytes_eq xs ys

pub bytes_eq→eq : (xs ys : List ℕ) → bytes_eq xs ys ≡ true → xs ≡ ys
bytes_eq→eq [] [] h = refl
bytes_eq→eq [] (y ∷ ys) h = cc
bytes_eq→eq (x ∷ xs) [] h = cc
bytes_eq→eq (x ∷ xs) (y ∷ ys) h = ground (arith, bytes_eq→eq xs ys)

pub bytes_eq_refl : (xs : List ℕ) → bytes_eq xs xs ≡ true
bytes_eq_refl [] = refl
bytes_eq_refl (x ∷ xs) = ground (arith, bytes_eq_refl xs)

pub eq→bytes_eq : (xs ys : List ℕ) → xs ≡ ys → bytes_eq xs ys ≡ true
eq→bytes_eq xs ys h = cc (bytes_eq_refl xs, ap (bytes_eq xs) h)

abbrev pub be16 : ℕ → List ℕ
be16 v = (v / 256 % 256) ∷ (v % 256) ∷ []

abbrev pub be32 : ℕ → List ℕ
be32 v = (v / 16777216 % 256) ∷ (v / 65536 % 256) ∷ (v / 256 % 256) ∷ (v % 256) ∷ []

abbrev pub be64 : ℕ → List ℕ
be64 v = be32 (v / 4294967296) ++ be32 (v % 4294967296)

-- `from_be_bytes`: the digits are folded from the left.
abbrev pub be_value : ℕ → List ℕ → ℕ
be_value acc [] = acc
be_value acc (b ∷ bs) = be_value (acc * 256 + b) bs

abbrev pub from_be : List ℕ → ℕ
from_be bs = be_value 0 bs

pub from_be-be16 : (v : ℕ) → v < 65536 → from_be (be16 v) ≡ v
from_be-be16 v h = omega arith

pub from_be-be32 : (v : ℕ) → v < 4294967296 → from_be (be32 v) ≡ v
from_be-be32 v h = omega arith

abbrev pub IsU64 : ℕ → Type 0
IsU64 v = v < 2 ^ 64

abbrev pub u64_max : ℕ
u64_max = 18446744073709551615

abbrev pub u32_max : ℕ
u32_max = 4294967295

pub from_be-be64 : (v : ℕ) → v < 18446744073709551616 → from_be (be64 v) ≡ v
from_be-be64 v h = omega arith

-- `contains` on a set or a list of byte strings.
abbrev pub member : List (List ℕ) → List ℕ → Bool
member xs y = any (λ x. bytes_eq x y) xs

pub member-false : (xs : List (List ℕ)) (y : List ℕ) → member xs y ≡ false → All (λ x. x ≢ y) xs
member-false [] y h = tt
member-false (x ∷ xs) y h = elim (Bool-cases (bytes_eq x y)) [
  | inl e ↦ cc (rw e at h)
  | inr e ↦ (λ w. cc (eq→bytes_eq x y w), member-false xs y (rw e at h))
]
