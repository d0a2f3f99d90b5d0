-- ===== src/Mesh/Admission/Bounds.antt =====
-- The token bucket of src/mesh/admission.rs, over runs of takes.
use anon_guard.Base.{
  ℕ, ◌+◌, ◌-◌, ◌*◌, ◌/◌, ◌≤◌, ◌<◌, ◌≡◌, refl, sym, ap, ◌∙◌, inl, inr, true, false, List, [], ◌∷◌,
  arith, ltb, leb, if◌then◌else◌, ltb→lt, leb→le, Bool-cases, u32_max,
}
use native.Mathlib.Nat.{le-div_iff_mul-le, div-mul-le_self, mul-div-le, add-mul-div_left, add-mul}
use anon_guard.Mesh.Admission.{TokenBucket, refilled, take_token}

pub record IsBucket (b : TokenBucket) : Type 0 where
  pub level : b.tokens ≤ b.burst
  pub fits : b.burst ≤ u32_max
  pub ticking : 0 < b.refill

div_split : (x y r : ℕ) → 0 < r → x / r + y / r ≤ (x + y) / r
div_split x y r h =
    (le-div_iff_mul-le h).1
      (rw (add-mul (x / r) (y / r) r) (omega (arith, div-mul-le_self x r, div-mul-le_self y r)))

div_shift : (x k r : ℕ) → 0 < r → r * k ≤ x → (x - r * k) / r + k ≡ x / r
div_shift x k r h l =
    let e : x - r * k + r * k ≡ x = omega arith in
    sym (add-mul-div_left (x - r * k) k h) ∙ ap (λ y. y / r) e

-- What a bucket can give out until a time: what it holds, and what flows in.
abbrev budget : TokenBucket → ℕ → ℕ
budget b until = b.tokens + (until - b.last) / b.refill

refilled-IsBucket :
    (b : TokenBucket) (now : ℕ)
    → IsBucket b
    → b.last ≤ now
    → IsBucket (refilled b now) × ((refilled b now).last ≤ now)
unfolding refilled
refilled-IsBucket b now v l = ground (arith, mul-div-le (now - b.last) b.refill)

refilled-budget :
    (b : TokenBucket) (now until : ℕ)
    → IsBucket b
    → b.last ≤ now
    → now ≤ until
    → budget (refilled b now) until ≤ budget b until
unfolding refilled
refilled-budget b now until v l m =
    let e : now - b.last + (until - now) ≡ until - b.last = omega arith in
    let low = mul-div-le (now - b.last) b.refill in
    let split : (now - b.last) / b.refill + (until - now) / b.refill ≤ (until - b.last) / b.refill =
      rw (sym e) (div_split (now - b.last) (until - now) b.refill v.ticking) in
    let g : until - (b.last + b.refill * ((now - b.last) / b.refill))
        ≡ until - b.last - b.refill * ((now - b.last) / b.refill) =
      omega arith in
    let shift =
      div_shift (until - b.last) ((now - b.last) / b.refill) b.refill v.ticking
        (omega (arith, low)) in
    elim (Bool-cases (leb b.burst ((now - b.last) / b.refill))) [
      | inl full ↦ rw full (omega (arith, leb→le b.burst ((now - b.last) / b.refill) full, split))
      | inr part ↦ elim (Bool-cases (ltb 0 ((now - b.last) / b.refill))) [
        | inl some_in ↦ rw (part, some_in, g) (omega (arith, shift))
        | inr none_in ↦ rw (part, none_in) (omega arith)
      ]
    ]

take_token-some :
    (b : TokenBucket) (now : ℕ)
    → ltb 0 (refilled b now).tokens ≡ true
    → take_token b now ≡ (record (refilled b now) { tokens = (refilled b now).tokens - 1 }, true)
unfolding take_token
take_token-some b now e = rw e refl

take_token-none :
    (b : TokenBucket) (now : ℕ)
    → ltb 0 (refilled b now).tokens ≡ false
    → take_token b now ≡ (refilled b now, false)
unfolding take_token
take_token-none b now e = rw e refl

spent-IsBucket : (b : TokenBucket) → IsBucket b → IsBucket (record b { tokens = b.tokens - 1 })
spent-IsBucket b v = record { level = omega arith; fits = v.fits; ticking = v.ticking }

-- How many of a run of takes, at the given times, succeed.
pub taken : TokenBucket → List ℕ → ℕ
taken b [] = 0
taken b (t ∷ ts) = let (c, may) = take_token b t in (if may then 1 else 0) + taken c ts

-- The times are in order, and end by `until`.
abbrev Ordered : ℕ → List ℕ → ℕ → Type 0
Ordered from [] until = from ≤ until
Ordered from (t ∷ ts) until = (from ≤ t) × Ordered t ts until

Ordered-le : (from : ℕ) (ts : List ℕ) (until : ℕ) → Ordered from ts until → from ≤ until
Ordered-le from [] until o = o
Ordered-le from (t ∷ ts) until (o, os) = omega (arith, Ordered-le t ts until os)

-- Whatever the times, a bucket gives out no more than what it holds and what flows in.
pub taken-budget :
    (b : TokenBucket) (ts : List ℕ) (from until : ℕ)
    → IsBucket b
    → b.last ≤ from
    → Ordered from ts until
    → taken b ts ≤ b.tokens + (until - b.last) / b.refill
unfolding taken
taken-budget b [] from until v l o = omega arith
taken-budget b (t ∷ ts) from until v l (o, os) =
    let (w, late) = refilled-IsBucket b t v (omega arith) in
    let end_time = Ordered-le t ts until os in
    let spend = refilled-budget b t until v (omega arith) end_time in
    elim (Bool-cases (ltb 0 (refilled b t).tokens)) [
      | inl e ↦
          let rest =
            taken-budget (record (refilled b t) { tokens = (refilled b t).tokens - 1 }) ts t until
              (spent-IsBucket _ w) late os in
          rw (take_token-some b t e) (omega (arith, rest, spend, ltb→lt 0 (refilled b t).tokens e))
      | inr e ↦
          let rest = taken-budget (refilled b t) ts t until w late os in
          rw (take_token-none b t e) (omega (arith, rest, spend))
    ]
