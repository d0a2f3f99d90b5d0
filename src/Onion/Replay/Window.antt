-- ===== src/Onion/Replay/Window.antt =====
-- The replay window of src/onion/circuit.rs against the set of all counters accepted so far.
use anon_guard.Base.{
  ℕ, zero, suc, ◌+◌, ◌-◌, ◌≤◌, ◌<◌, ◌≡◌, refl, subst, ◌⊎◌, inl, inr, Bool, true, false, List, [],
  ◌∷◌, arith, ltb, leb, ◌==◌, if◌then◌else◌, ltb→lt, Bool-cases, contains, Result, ok, err,
  Result-cases, test_bit, set_bit, test_bit-set_bit, test_bit-shl, shl64,
}
use anon_guard.Onion.CircuitError.{CircuitError}
use anon_guard.Onion.Replay.{
  ReplayWindow, fresh, counter_of, max_seq_gap, check_old, check_ahead, check_and_advance,
}

-- `seen` is the set of the counters accepted so far, of which the window keeps the last 64.
pub record Tracks (w : ReplayWindow) (seen : ℕ → Bool) : Type 0 where
  pub below : (c : ℕ) → seen c ≡ true → c < w.next_expected
  pub bits :
      (c : ℕ)
      → c < w.next_expected
      → w.next_expected ≤ c + 64
      → test_bit w.window (w.next_expected - c - 1) ≡ seen c

abbrev mark : ℕ → (ℕ → Bool) → ℕ → Bool
mark counter seen c = if c == counter then true else seen c

test_bit-zero : (j : ℕ) → test_bit 0 j ≡ false
unfolding test_bit
test_bit-zero zero = refl
test_bit-zero (suc j) = test_bit-zero j

test_bit-one : (j : ℕ) → test_bit 1 j ≡ (j == 0)
unfolding test_bit
test_bit-one zero = refl
test_bit-one (suc j) = ground (arith, test_bit-zero j)

module _ (w : ReplayWindow) (seen : ℕ → Bool) (t : Tracks w seen) (counter : ℕ) where
  not_seen : w.next_expected ≤ counter → (c : ℕ) → w.next_expected ≤ c → seen c ≡ false
  not_seen h c k = ground (arith, t.below c)

  -- The window after a step of `d` past the expected counter.
  moved_bits :
      (d c : ℕ)
      → d < 63
      → counter ≡ w.next_expected + d
      → c < counter + 1
      → counter + 1 ≤ c + 64
      → test_bit (set_bit (shl64 w.window (d + 1)) 0) (counter + 1 - c - 1) ≡ mark counter seen c
  moved_bits d c h e k l =
      let i : counter + 1 - c - 1 - (d + 1) ≡ w.next_expected - c - 1 = omega arith in
      rw
        (
          test_bit-set_bit (shl64 w.window (d + 1)) 0 (counter + 1 - c - 1),
          test_bit-shl (d + 1) w.window (counter + 1 - c - 1),
          i,
        )
        (ground (arith, t.bits c, not_seen (omega arith) c))

  -- A step of 63 or more past the expected counter leaves nothing of the old window.
  cleared_bits :
      (c : ℕ)
      → w.next_expected + 63 ≤ counter
      → c < counter + 1
      → counter + 1 ≤ c + 64
      → test_bit 1 (counter + 1 - c - 1) ≡ mark counter seen c
  cleared_bits c h k l = rw test_bit-one (ground (arith, not_seen (omega arith) c))

  ahead-Tracks :
      (v : ReplayWindow)
      → w.next_expected ≤ counter
      → v.next_expected ≡ counter + 1
      → ((c : ℕ)
          → c < counter + 1
          → counter + 1 ≤ c + 64
          → test_bit v.window (counter + 1 - c - 1) ≡ mark counter seen c)
      → Tracks v (mark counter seen)
  ahead-Tracks v h e bits = record {
    below = λ c s. ground (arith, t.below c);
    bits = λ c p q. rw e (bits c (omega arith) (omega arith));
  }

  old-Tracks :
      counter < w.next_expected
      → w.next_expected ≤ counter + 64
      → Tracks
          (record w { window = set_bit w.window (w.next_expected - counter - 1) })
          (mark counter seen)
  old-Tracks h k = record {
    below = λ c s. ground (arith, t.below c);
    bits = λ c p q.
        rw (test_bit-set_bit w.window (w.next_expected - counter - 1) (w.next_expected - c - 1))
          (ground (arith, t.bits c p q));
  }

-- What a check says of the counter, against the set of all counters accepted so far.
abbrev pub Judged : ReplayWindow → (ℕ → Bool) → ℕ → Result ReplayWindow CircuitError → Type 0
Judged w seen counter (ok v) =
    (seen counter ≡ false)
    × (w.next_expected ≤ counter + 64)
    × (counter ≤ w.next_expected + max_seq_gap)
    × Tracks v (mark counter seen)
Judged w seen counter (err e) =
    (seen counter ≡ true)
    ⊎ ((counter + 64 < w.next_expected) ⊎ (w.next_expected + max_seq_gap < counter))

check_old-Judged :
    (w : ReplayWindow) (seen : ℕ → Bool) (counter : ℕ)
    → Tracks w seen
    → counter < w.next_expected
    → Judged w seen counter (check_old w counter)
unfolding check_old
check_old-Judged w seen counter t h = elim (Bool-cases (ltb 64 (w.next_expected - counter))) [
  | inl far ↦ rw far (inr (inl (ground arith)))
  | inr near ↦ elim (Bool-cases (test_bit w.window (w.next_expected - counter - 1))) [
    | inl bit ↦ rw (near, bit) (inl (ground (arith, t.bits counter)))
    | inr bit ↦
        rw (near, bit)
          (
            ground (arith, t.bits counter),
            ground arith,
            omega arith,
            old-Tracks w seen t counter h (ground arith),
          )
  ]
]

check_ahead-Judged :
    (w : ReplayWindow) (seen : ℕ → Bool) (counter : ℕ)
    → Tracks w seen
    → w.next_expected ≤ counter
    → Judged w seen counter (check_ahead w counter)
unfolding check_ahead
check_ahead-Judged w seen counter t h =
    elim (Bool-cases (ltb max_seq_gap (counter - w.next_expected))) [
      | inl far ↦ rw far (inr (inr (ground arith)))
      | inr near ↦ elim (Bool-cases (leb 63 (counter - w.next_expected))) [
        | inl wide ↦
            rw (near, wide)
              (
                not_seen w seen t counter h counter h,
                omega arith,
                ground arith,
                ahead-Tracks w seen t counter _ h refl
                    (λ c. cleared_bits w seen t counter c (ground arith)),
              )
        | inr narrow ↦
            rw (near, narrow)
              (
                not_seen w seen t counter h counter h,
                omega arith,
                ground arith,
                ahead-Tracks w seen t counter _ h refl
                    (λ c. moved_bits w seen t counter _ c (ground arith) (omega arith)),
              )
      ]
    ]

-- The check with the 64-bit window decides as the set of all accepted counters would: it accepts
-- a counter only if that was never accepted, is at most 64 behind and 1000 ahead of the expected
-- one, and the new window tracks the set with the counter added; it refuses only a counter that
-- was accepted before, or lies outside that range.
pub check_and_advance-Judged :
    (w : ReplayWindow) (seen : ℕ → Bool) (seq : ℕ)
    → Tracks w seen
    → Judged w seen (counter_of seq) (check_and_advance w seq)
unfolding check_and_advance
check_and_advance-Judged w seen seq t = elim (Bool-cases (ltb (counter_of seq) w.next_expected)) [
  | inl old ↦ rw old (check_old-Judged w seen (counter_of seq) t (ltb→lt _ _ old))
  | inr new ↦ elim (Bool-cases (counter_of seq == w.next_expected)) [
    | inl next ↦
        rw (new, next)
          (
            not_seen w seen t (counter_of seq) (ground arith) (counter_of seq) (ground arith),
            ground arith,
            ground arith,
            ahead-Tracks w seen t (counter_of seq) _ (ground arith) refl
                (λ c. moved_bits w seen t (counter_of seq) 0 c (omega arith) (ground arith)),
          )
    | inr gap ↦ rw (new, gap) (check_ahead-Judged w seen (counter_of seq) t (ground arith))
  ]
]

-- The counters that a run of checks accepts; a refused check leaves the window as it was.
pub accepted : ReplayWindow → List ℕ → List ℕ
accepted w [] = []
accepted w (seq ∷ seqs) = elim (check_and_advance w seq) [
  | ok v ↦ counter_of seq ∷ accepted v seqs
  | err e ↦ accepted w seqs
]

abbrev pub Distinct : List ℕ → Type 0
Distinct [] = Unit {0}
Distinct (x ∷ xs) = (contains xs x ≡ false) × Distinct xs

-- What the run accepts is distinct, and none of it was seen before.
abbrev Fresh : (ℕ → Bool) → List ℕ → Type 0
Fresh seen [] = Unit {0}
Fresh seen (x ∷ xs) = (seen x ≡ false) × (contains xs x ≡ false) × Fresh seen xs

Fresh-mark : (seen : ℕ → Bool) (c : ℕ) (xs : List ℕ) → Fresh (mark c seen) xs → Fresh seen xs
Fresh-mark seen c [] f = tt
Fresh-mark seen c (x ∷ xs) f = (ground arith, f.1, Fresh-mark seen c xs f.2)

Fresh-contains :
    (seen : ℕ → Bool) (c : ℕ) (xs : List ℕ) → Fresh (mark c seen) xs → contains xs c ≡ false
Fresh-contains seen c [] f = refl
Fresh-contains seen c (x ∷ xs) f = ground (arith, Fresh-contains seen c xs f.2)

Fresh-Distinct : (seen : ℕ → Bool) (xs : List ℕ) → Fresh seen xs → Distinct xs
Fresh-Distinct seen [] f = tt
Fresh-Distinct seen (x ∷ xs) f = (f.1, Fresh-Distinct seen xs f.2)

accepted-ok :
    (w v : ReplayWindow) (seq : ℕ) (seqs : List ℕ)
    → check_and_advance w seq ≡ ok v
    → accepted w (seq ∷ seqs) ≡ counter_of seq ∷ accepted v seqs
unfolding accepted
accepted-ok w v seq seqs e = rw (e, accepted)

accepted-err :
    (w : ReplayWindow) (x : CircuitError) (seq : ℕ) (seqs : List ℕ)
    → check_and_advance w seq ≡ err x
    → accepted w (seq ∷ seqs) ≡ accepted w seqs
unfolding accepted
accepted-err w x seq seqs e = rw (e, accepted)

accepted-Fresh :
    (w : ReplayWindow) (seen : ℕ → Bool) (seqs : List ℕ)
    → Tracks w seen
    → Fresh seen (accepted w seqs)
accepted-Fresh w seen [] t = unfold accepted in tt
accepted-Fresh w seen (seq ∷ seqs) t = elim (Result-cases (check_and_advance w seq)) [
  | inl (v, e) ↦
      let j : Judged w seen (counter_of seq) (ok v) =
        subst (Judged w seen (counter_of seq)) e (check_and_advance-Judged w seen seq t) in
      let rest = accepted-Fresh v (mark (counter_of seq) seen) seqs j.3 in
      rw (accepted-ok w v seq seqs e)
        (j.0, Fresh-contains seen (counter_of seq) _ rest, Fresh-mark seen (counter_of seq) _ rest)
  | inr (x, e) ↦ rw (accepted-err w x seq seqs e) (accepted-Fresh w seen seqs t)
]

pub fresh-Tracks : Tracks fresh (λ c. false)
fresh-Tracks = record { below = λ c s. cc; bits = λ c p q. test_bit-zero (1 - c - 1) }

-- Whatever sequence numbers arrive at a fresh window, in whatever order and however often, no
-- counter is accepted twice.
pub accepted-Distinct : (seqs : List ℕ) → Distinct (accepted fresh seqs)
accepted-Distinct seqs =
    Fresh-Distinct (λ c. false) _ (accepted-Fresh fresh (λ c. false) seqs fresh-Tracks)
