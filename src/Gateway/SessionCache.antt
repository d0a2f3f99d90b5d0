-- ===== src/Gateway/SessionCache.antt =====
-- `SessionCache` of src/gateway/session_cache.rs: at most so many privacy contexts at a time, each
-- with one session that its callers share. A slot is an `Arc<OnceCell>`: `cells` is the store of
-- the cells by address, and `clones` the slots that callers hold across their `await`. The lock of
-- the map is held from the sweep to the reservation, so that part is one step; a caller's
-- initialisation, its reading of the cell and the drop of its clone are another, and it may be
-- cancelled instead. Setting a cell and dropping the clone are one step, since a filled cell is
-- kept or swept whatever its count is.
pub mod Slots
pub mod Shared
use anon_guard.Base.{
  ℕ, zero, suc, ◌+◌, Bool, false, Option, none, some, List, [], ◌∷◌, ltb, leb, ◌==◌, if◌then◌else◌,
  codes, bytes_eq, length, retain, get_elem?, Result, ok, err,
}

pub record Slot : Type 0 where
  pub key : List ℕ
  pub address : ℕ

pub record SessionCache {ℓ} (T : Type ℓ) : Type ℓ where
  pub slots : List Slot
  pub maximum : ℕ
  pub cells : ℕ → Option (Result T (List ℕ))
  pub clones : List Slot
  pub fresh : ℕ

abbrev pub find : List Slot → List ℕ → Option Slot
find [] key = none
find (x ∷ xs) key = if bytes_eq x.key key then some x else find xs key

-- The clones of a slot that callers hold.
abbrev pub count : ℕ → List Slot → ℕ
count a [] = 0
count a (x ∷ xs) = (if x.address == a then 1 else 0) + count a xs

abbrev pub remove_at {ℓ} : {A : Type ℓ} → List A → ℕ → List A
remove_at [] n = []
remove_at (x ∷ xs) zero = xs
remove_at (x ∷ xs) (suc n) = x ∷ remove_at xs n

module _ {ℓ} {T : Type ℓ} where
  abbrev pub empty : ℕ → SessionCache T
  empty maximum = record {
    slots = [];
    maximum = maximum;
    cells = λ a. none;
    clones = [];
    fresh = 0;
  }

  -- There is none where the `assert!` panics.
  unfoldable pub new : ℕ → Option (SessionCache T)
  new maximum = if ltb 0 maximum then some (empty maximum) else none

  abbrev pub set_cell :
      (ℕ → Option (Result T (List ℕ)))
      → ℕ
      → Option (Result T (List ℕ))
      → ℕ
      → Option (Result T (List ℕ))
  set_cell cells a value b = if a == b then value else cells b

  -- The test of `retain`, on the cell of a slot and its strong count.
  abbrev pub keeps : (T → Bool) → ℕ → Option (Result T (List ℕ)) → Bool
  keeps alive strong_count (some (ok value)) = alive value
  keeps alive strong_count (some (err e)) = false
  keeps alive strong_count none = ltb 1 strong_count

  abbrev pub reclaim : (T → Bool) → SessionCache T → SessionCache T
  reclaim alive s = record s {
    slots = retain (λ x. keeps alive (1 + count x.address s.clones) (s.cells x.address)) s.slots;
  }

  -- The entry of the key in the swept map, or a new one.
  abbrev pub entry : List ℕ → SessionCache T → Option Slot → SessionCache T × Result Slot (List ℕ)
  entry key s (some x) = (record s { clones = x ∷ s.clones }, ok x)
  entry key s none =
      let x : Slot = record { key = key; address = s.fresh } in
      if leb s.maximum (length s.slots) then (s, err (codes "Privacy context limit reached")) else (
        record s {
          slots = x ∷ s.slots;
          cells = set_cell s.cells s.fresh none;
          clones = x ∷ s.clones;
          fresh = s.fresh + 1;
        },
        ok x,
      )

  -- `get_or_start` up to the wait for the slot.
  unfoldable pub reserve :
      SessionCache T → List ℕ → (T → Bool) → SessionCache T × Result Slot (List ℕ)
  reserve s key alive = let t = reclaim alive s in entry key t (find t.slots key)

  -- `get_or_init`: the first value stays.
  abbrev pub init : Option (Result T (List ℕ)) → Result T (List ℕ) → Result T (List ℕ)
  init none outcome = outcome
  init (some value) outcome = value

  abbrev pub filled :
      SessionCache T
      → ℕ
      → Result T (List ℕ)
      → Option Slot
      → SessionCache T × Option (Result T (List ℕ))
  filled s n outcome none = (s, none)
  filled s n outcome (some x) =
      let value = init (s.cells x.address) outcome in
      (
        record s { cells = set_cell s.cells x.address (some value); clones = remove_at s.clones n },
        some value,
      )

  -- The rest of `get_or_start` of the caller that holds clone `n`, whose `start` gives `outcome`.
  unfoldable pub finish :
      SessionCache T → ℕ → Result T (List ℕ) → SessionCache T × Option (Result T (List ℕ))
  finish s n outcome = filled s n outcome (get_elem? s.clones n)

  -- The caller that holds clone `n` is cancelled.
  unfoldable pub cancel : SessionCache T → ℕ → SessionCache T
  cancel s n = record s { clones = remove_at s.clones n }
