-- ===== src/Gateway/SessionCache/Shared.antt =====
-- Histories of the cache of src/gateway/session_cache.rs: its limit, and what callers share.
use anon_guard.Base.{
  ℕ, ◌+◌, ◌≤◌, ◌<◌, ◌≡◌, refl, sym, ap, ◌∙◌, inl, inr, Bool, Option, none, some, List, [], ◌∷◌,
  arith, ltb, leb, ◌==◌, bytes_eq, bytes_eq→eq, bytes_eq_refl, Bool-cases, some_inj, get_elem?,
  lt→ltb, ==_false, length, length-retain, All, All-map, Result,
}
use anon_guard.Gateway.SessionCache.{
  Slot, SessionCache, find, count, empty, new, set_cell, keeps, reclaim, entry, reserve, init,
  filled, finish, cancel,
}
use anon_guard.Gateway.SessionCache.Slots.{
  Unique, All-both, All-only, All-remove_at, All-get_elem?, find-key, All-find, find-retain-some,
  retain-Unique, counted,
}

pub data Event {ℓ} (T : Type ℓ) : Type ℓ where
  ask : List ℕ → (T → Bool) → Event T
  completed : ℕ → Result T (List ℕ) → Event T
  cancelled : ℕ → Event T

module _ {ℓ} {T : Type ℓ} where
  abbrev on_event : SessionCache T → Event T → SessionCache T
  on_event s (ask key alive) = (reserve s key alive).0
  on_event s (completed n outcome) = (finish s n outcome).0
  on_event s (cancelled n) = cancel s n

  abbrev pub run : SessionCache T → List (Event T) → SessionCache T
  run s [] = s
  run s (e ∷ es) = run (on_event s e) es

  -- Where a caller waits, the map has the slot under its key.
  abbrev Kept : List Slot → (ℕ → Option (Result T (List ℕ))) → Slot → Type ℓ
  Kept slots cells c = cells c.address ≡ none → find slots c.key ≡ some c

  pub record IsCache (maximum : ℕ) (s : SessionCache T) : Type ℓ where
    pub limit : s.maximum ≡ maximum
    pub bounded : length s.slots ≤ maximum
    pub unique : Unique s.slots
    pub allotted : All (λ x. x.address < s.fresh) s.slots
    pub owned : All (λ c. c.address < s.fresh) s.clones
    pub kept : All (Kept s.slots s.cells) s.clones

  swept-Kept :
      (alive : T → Bool) (s : SessionCache T) (c : Slot)
      → 1 ≤ count c.address s.clones
      → Kept s.slots s.cells c
      → Kept (reclaim alive s).slots s.cells c
  swept-Kept alive s c h k e =
      let p = λ (x : Slot). keeps alive (1 + count x.address s.clones) (s.cells x.address) in
      find-retain-some p s.slots c.key c (k e)
        (rw e (lt→ltb 1 (1 + count c.address s.clones) (omega arith)))

  reclaim-IsCache :
      (maximum : ℕ) (alive : T → Bool) (s : SessionCache T)
      → IsCache maximum s
      → IsCache maximum (reclaim alive s)
  reclaim-IsCache maximum alive s v =
      let p = λ (x : Slot). keeps alive (1 + count x.address s.clones) (s.cells x.address) in
      record {
        limit = v.limit;
        bounded = omega (arith, length-retain p s.slots, v.bounded);
        unique = retain-Unique p s.slots v.unique;
        allotted = All-only (λ x. x.address < s.fresh) p s.slots v.allotted;
        owned = v.owned;
        kept =
            All-map (λ c. (1 ≤ count c.address s.clones) × Kept s.slots s.cells c)
              (Kept (reclaim alive s).slots s.cells) s.clones (λ c h. swept-Kept alive s c h.0 h.1)
              (All-both (λ c. 1 ≤ count c.address s.clones) (Kept s.slots s.cells) s.clones
                (counted s.clones) v.kept);
      }

  -- A new slot in front does not hide the slot of a waiting caller.
  added-Kept :
      (s : SessionCache T) (key : List ℕ) (c : Slot)
      → find s.slots key ≡ none
      → c.address < s.fresh
      → Kept s.slots s.cells c
      → Kept (record { key = key; address = s.fresh } ∷ s.slots) (set_cell s.cells s.fresh none) c
  added-Kept s key c absent h k e =
      let old = k (rw (==_false s.fresh c.address (omega arith)) at e) in
      elim (Bool-cases (bytes_eq key c.key)) [
        | inl same ↦ let gone = rw (bytes_eq→eq key c.key same) at absent in cc
        | inr other ↦ rw other old
      ]

  entry-IsCache :
      (maximum : ℕ) (s : SessionCache T) (key : List ℕ) (o : Option Slot)
      → find s.slots key ≡ o
      → IsCache maximum s
      → IsCache maximum (entry key s o).0
  entry-IsCache maximum s key (some x) e v = record {
    limit = v.limit;
    bounded = v.bounded;
    unique = v.unique;
    allotted = v.allotted;
    owned = (All-find (λ x. x.address < s.fresh) s.slots key x v.allotted e, v.owned);
    kept = (λ h. ap (find s.slots) (find-key s.slots key x e) ∙ e, v.kept);
  }
  entry-IsCache maximum s key none e v = elim (Bool-cases (leb s.maximum (length s.slots))) [
    | inl full ↦ rw full v
    | inr room ↦ rw room record {
      limit = v.limit;
      bounded = ground (arith, room, v.limit);
      unique = (e, v.unique);
      allotted = (
        omega arith,
        All-map (λ x. x.address < s.fresh) (λ x. x.address < s.fresh + 1) s.slots
            (λ x h. omega (arith, h)) v.allotted,
      );
      owned = (
        omega arith,
        All-map (λ x. x.address < s.fresh) (λ x. x.address < s.fresh + 1) s.clones
            (λ x h. omega (arith, h)) v.owned,
      );
      kept = (
        λ h. rw (bytes_eq_refl key) refl,
        All-map (λ c. (c.address < s.fresh) × Kept s.slots s.cells c)
            (Kept (record { key = key; address = s.fresh } ∷ s.slots)
              (set_cell s.cells s.fresh none))
            s.clones (λ c h. added-Kept s key c e h.0 h.1)
            (All-both (λ c. c.address < s.fresh) (Kept s.slots s.cells) s.clones v.owned v.kept),
      );
    }
  ]

  -- Filling a cell leaves fewer cells to wait for.
  set_cell-Kept :
      (s : SessionCache T) (a : ℕ) (value : Result T (List ℕ)) (c : Slot)
      → Kept s.slots s.cells c
      → Kept s.slots (set_cell s.cells a (some value)) c
  set_cell-Kept s a value c k e = elim (Bool-cases (a == c.address)) [
    | inl same ↦ let full = rw same at e in cc
    | inr other ↦ k (rw other at e)
  ]

  filled-IsCache :
      (maximum : ℕ) (s : SessionCache T) (n : ℕ) (outcome : Result T (List ℕ)) (o : Option Slot)
      → IsCache maximum s
      → IsCache maximum (filled s n outcome o).0
  filled-IsCache maximum s n outcome none v = v
  filled-IsCache maximum s n outcome (some x) v = record {
    limit = v.limit;
    bounded = v.bounded;
    unique = v.unique;
    allotted = v.allotted;
    owned = All-remove_at (λ c. c.address < s.fresh) s.clones n v.owned;
    kept =
        All-remove_at
          (Kept s.slots (set_cell s.cells x.address (some (init (s.cells x.address) outcome))))
          s.clones n
          (All-map (Kept s.slots s.cells)
            (Kept s.slots (set_cell s.cells x.address (some (init (s.cells x.address) outcome))))
            s.clones (set_cell-Kept s x.address (init (s.cells x.address) outcome)) v.kept);
  }

  on_event-IsCache :
      (maximum : ℕ) (s : SessionCache T) (e : Event T)
      → IsCache maximum s
      → IsCache maximum (on_event s e)
  unfolding reserve finish cancel
  on_event-IsCache maximum s (ask key alive) v =
      let t = reclaim alive s in
      entry-IsCache maximum t key (find t.slots key) refl (reclaim-IsCache maximum alive s v)
  on_event-IsCache maximum s (completed n outcome) v =
      filled-IsCache maximum s n outcome (get_elem? s.clones n) v
  on_event-IsCache maximum s (cancelled n) v = record {
    limit = v.limit;
    bounded = v.bounded;
    unique = v.unique;
    allotted = v.allotted;
    owned = All-remove_at (λ c. c.address < s.fresh) s.clones n v.owned;
    kept = All-remove_at (Kept s.slots s.cells) s.clones n v.kept;
  }

  empty-IsCache : (maximum : ℕ) → IsCache maximum (empty {T = T} maximum)
  empty-IsCache maximum = record {
    limit = refl;
    bounded = omega arith;
    unique = tt;
    allotted = tt;
    owned = tt;
    kept = tt;
  }

  from-IsCache :
      (maximum : ℕ) (s : SessionCache T) (es : List (Event T))
      → IsCache maximum s
      → IsCache maximum (run s es)
  from-IsCache maximum s [] v = v
  from-IsCache maximum s (e ∷ es) v =
      from-IsCache maximum (on_event s e) es (on_event-IsCache maximum s e v)

  -- Whatever contexts callers ask for, and in whatever order sessions start, fail, die or their
  -- callers are cancelled, a cache that was new has at most its maximum of contexts, each of them
  -- once, and the slot of a caller that still waits for its session is never swept.
  pub run-IsCache :
      (maximum : ℕ) (s : SessionCache T) (es : List (Event T))
      → new maximum ≡ some s
      → IsCache maximum (run s es)
  unfolding new
  run-IsCache maximum s es e = elim (Bool-cases (ltb 0 maximum)) [
    | inl enough ↦
        let same = some_inj (empty maximum) s (rw enough at e) in
        rw (sym same) (from-IsCache maximum (empty maximum) es (empty-IsCache maximum))
    | inr zero_slots ↦ let gone = rw zero_slots at e in cc
  ]

  -- Two callers that wait for a session of the same context wait for the same slot, so that one
  -- initialisation serves both.
  run-shared :
      (maximum : ℕ) (s : SessionCache T) (es : List (Event T)) (m n : ℕ) (a b : Slot)
      → new maximum ≡ some s
      → get_elem? (run s es).clones m ≡ some a
      → get_elem? (run s es).clones n ≡ some b
      → (run s es).cells a.address ≡ none
      → (run s es).cells b.address ≡ none
      → a.key ≡ b.key
      → a ≡ b
  run-shared maximum s es m n a b made p q h k same =
      let t = run s es in
      let v = (run-IsCache maximum s es made).kept in
      let left = All-get_elem? (Kept t.slots t.cells) t.clones m a v p h in
      let right = All-get_elem? (Kept t.slots t.cells) t.clones n b v q k in
      some_inj a b (sym left ∙ ap (find t.slots) same ∙ right)
