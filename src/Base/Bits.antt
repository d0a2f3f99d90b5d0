-- ===== src/Base/Bits.antt =====
-- Single bits of a machine word, by recursion on the position: `w & (1 << k) != 0`,
-- `w | (1 << k)`, and how they meet the left shift of a 64-bit word.
use Prim.Native.Nat.{ℕ, zero, suc, ◌+◌, ◌-◌, ◌*◌, ◌/◌, ◌%◌, ◌^◌, ◌<◌}
use mathlib.Core.Path.{◌≡◌, refl, ap}
use mathlib.Core.Bool.{Bool, true, false}
use native.Mathlib.Omega.{arith}
use native.Mathlib.Nat.{pow-suc, sub-zero}
use anon_guard.Base.Tests.{◌==◌, ltb, if◌then◌else◌}

-- (w >> k) & 1 == 1
unfoldable pub test_bit : ℕ → ℕ → Bool
test_bit w zero = w % 2 == 1
test_bit w (suc k) = test_bit (w / 2) k

-- w | (1 << k)
unfoldable pub set_bit : ℕ → ℕ → ℕ
set_bit w zero = w / 2 * 2 + 1
set_bit w (suc k) = set_bit (w / 2) k * 2 + w % 2

pub test_bit-set_bit :
    (w k j : ℕ) → test_bit (set_bit w k) j ≡ (if j == k then true else test_bit w j)
unfolding test_bit set_bit
test_bit-set_bit w zero zero = ground arith
test_bit-set_bit w zero (suc j) =
    let e : (w / 2 * 2 + 1) / 2 ≡ w / 2 = omega arith in ground (arith, e)
test_bit-set_bit w (suc k) zero =
    let e : (set_bit (w / 2) k * 2 + w % 2) % 2 ≡ w % 2 = omega arith in ground (arith, e)
test_bit-set_bit w (suc k) (suc j) =
    let e : (set_bit (w / 2) k * 2 + w % 2) / 2 ≡ set_bit (w / 2) k = omega arith in
    ground (arith, e, test_bit-set_bit (w / 2) k j)

mod_double : (x p : ℕ) → 0 < p → x % (p * 2) ≡ x / 2 % p * 2 + x % 2
mod_double x p h = grind arith

zero-test_bit : (j : ℕ) → test_bit 0 j ≡ false
unfolding test_bit
zero-test_bit zero = refl
zero-test_bit (suc j) = zero-test_bit j

two_pow_pos : (n : ℕ) → 0 < 2 ^ n
two_pow_pos zero = omega arith
two_pow_pos (suc n) = omega (arith, pow-suc 2 n, two_pow_pos n)

mod_two_pow-suc : (m x : ℕ) → x % 2 ^ suc m ≡ x / 2 % 2 ^ m * 2 + x % 2
mod_two_pow-suc m x = rw (pow-suc 2 m) (mod_double x (2 ^ m) (two_pow_pos m))

pub test_bit-mod : (m x j : ℕ) → test_bit (x % 2 ^ m) j ≡ (if ltb j m then test_bit x j else false)
unfolding test_bit
test_bit-mod zero x j = ground (arith, zero-test_bit j)
test_bit-mod (suc m) x zero =
    let e : x % 2 ^ suc m % 2 ≡ x % 2 = omega (arith, mod_two_pow-suc m x) in ground (arith, e)
test_bit-mod (suc m) x (suc j) =
    let e : x % 2 ^ suc m / 2 ≡ x / 2 % 2 ^ m = omega (arith, mod_two_pow-suc m x) in
    rw e (ground (arith, test_bit-mod m (x / 2) j))

-- `w << n` on a 64-bit word: the high bits fall off.
abbrev pub shl64 : ℕ → ℕ → ℕ
shl64 w n = w * 2 ^ n % 2 ^ 64

test_bit-mul :
    (n w j : ℕ) → test_bit (w * 2 ^ n) j ≡ (if ltb j n then false else test_bit w (j - n))
unfolding test_bit
test_bit-mul zero w j = let e : w * 1 ≡ w = omega arith in rw e (ground (arith, sub-zero j))
test_bit-mul (suc n) w zero =
    let e : w * 2 ^ suc n % 2 ≡ 0 = omega (arith, ap (λ (t : ℕ). w * t) (pow-suc 2 n)) in
    ground (arith, e)
test_bit-mul (suc n) w (suc j) =
    let e : w * 2 ^ suc n / 2 ≡ w * 2 ^ n = omega (arith, ap (λ (t : ℕ). w * t) (pow-suc 2 n)) in
    let s : suc j - suc n ≡ j - n = omega arith in rw (e, s) (ground (arith, test_bit-mul n w j))

pub test_bit-shl :
    (n w j : ℕ)
    → test_bit (shl64 w n) j
      ≡ (if ltb j 64 then (if ltb j n then false else test_bit w (j - n)) else false)
test_bit-shl n w j = rw (test_bit-mod 64 (w * 2 ^ n) j, test_bit-mul n w j)
