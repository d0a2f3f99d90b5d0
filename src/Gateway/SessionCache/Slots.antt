-- ===== src/Gateway/SessionCache/Slots.antt =====
-- The slots of the map of src/gateway/session_cache.rs under a sweep, and the clones of them.
use anon_guard.Base.{
  ℕ, zero, suc, ◌≤◌, ◌≡◌, refl, sym, ap, ◌∙◌, inl, inr, Bool, true, none, some, List, [], ◌∷◌,
  arith, bytes_eq, bytes_eq→eq, Bool-cases, some_inj, get_elem?, retain, All, All-map,
}
use anon_guard.Gateway.SessionCache.{Slot, find, count, remove_at}

abbrev pub Unique : List Slot → Type 0
Unique [] = Unit
Unique (x ∷ xs) = (find xs x.key ≡ none) × Unique xs

pub All-both {ℓ κ ι} :
    {A : Type ℓ} (P : A → Type κ) (Q : A → Type ι) (xs : List A)
    → All P xs
    → All Q xs
    → All (λ x. P x × Q x) xs
All-both P Q [] h k = tt
All-both P Q (x ∷ xs) (h, hs) (k, ks) = ((h, k), All-both P Q xs hs ks)

pub All-only {ℓ κ} :
    {A : Type ℓ} (P : A → Type κ) (p : A → Bool) (xs : List A) → All P xs → All P (retain p xs)
All-only P p [] h = tt
All-only P p (x ∷ xs) (h, hs) = elim (Bool-cases (p x)) [
  | inl k ↦ rw k (h, All-only P p xs hs)
  | inr k ↦ rw k (All-only P p xs hs)
]

pub All-remove_at {ℓ κ} :
    {A : Type ℓ} (P : A → Type κ) (xs : List A) (n : ℕ) → All P xs → All P (remove_at xs n)
All-remove_at P [] n h = tt
All-remove_at P (x ∷ xs) zero (h, hs) = hs
All-remove_at P (x ∷ xs) (suc n) (h, hs) = (h, All-remove_at P xs n hs)

pub All-get_elem? {ℓ κ} :
    {A : Type ℓ} (P : A → Type κ) (xs : List A) (n : ℕ) (x : A)
    → All P xs
    → get_elem? xs n ≡ some x
    → P x
All-get_elem? P [] n x h e = cc
All-get_elem? P (y ∷ ys) zero x (h, hs) e = rw (sym (some_inj y x e)) h
All-get_elem? P (y ∷ ys) (suc n) x (h, hs) e = All-get_elem? P ys n x hs e

pub find-key : (xs : List Slot) (key : List ℕ) (x : Slot) → find xs key ≡ some x → x.key ≡ key
find-key [] key x e = cc
find-key (y ∷ ys) key x e = elim (Bool-cases (bytes_eq y.key key)) [
  | inl k ↦ rw (sym (some_inj y x (rw k at e))) (bytes_eq→eq y.key key k)
  | inr k ↦ find-key ys key x (rw k at e)
]

pub All-find {κ} :
    (P : Slot → Type κ) (xs : List Slot) (key : List ℕ) (x : Slot)
    → All P xs
    → find xs key ≡ some x
    → P x
All-find P [] key x h e = cc
All-find P (y ∷ ys) key x (h, hs) e = elim (Bool-cases (bytes_eq y.key key)) [
  | inl k ↦ rw (sym (some_inj y x (rw k at e))) h
  | inr k ↦ All-find P ys key x hs (rw k at e)
]

pub find-retain-none :
    (p : Slot → Bool) (xs : List Slot) (key : List ℕ)
    → find xs key ≡ none
    → find (retain p xs) key ≡ none
find-retain-none p [] key e = refl
find-retain-none p (y ∷ ys) key e = elim (Bool-cases (bytes_eq y.key key)) [
  | inl k ↦ let absent = rw k at e in cc
  | inr k ↦
      let rest = find-retain-none p ys key (rw k at e) in
      elim (Bool-cases (p y)) [ inl q ↦ rw (q, k) rest | inr q ↦ rw q rest ]
]

pub find-retain-some :
    (p : Slot → Bool) (xs : List Slot) (key : List ℕ) (x : Slot)
    → find xs key ≡ some x
    → p x ≡ true
    → find (retain p xs) key ≡ some x
find-retain-some p [] key x e h = e
find-retain-some p (y ∷ ys) key x e h = elim (Bool-cases (bytes_eq y.key key)) [
  | inl k ↦
      let same = some_inj y x (rw k at e) in let kept = ap p same ∙ h in rw (kept, k) (ap some same)
  | inr k ↦
      let rest = find-retain-some p ys key x (rw k at e) h in
      elim (Bool-cases (p y)) [ inl q ↦ rw (q, k) rest | inr q ↦ rw q rest ]
]

pub retain-Unique : (p : Slot → Bool) (xs : List Slot) → Unique xs → Unique (retain p xs)
retain-Unique p [] u = tt
retain-Unique p (x ∷ xs) (h, u) = elim (Bool-cases (p x)) [
  | inl k ↦ rw k (find-retain-none p xs x.key h, retain-Unique p xs u)
  | inr k ↦ rw k (retain-Unique p xs u)
]

pub counted : (xs : List Slot) → All (λ c. 1 ≤ count c.address xs) xs
counted [] = tt
counted (x ∷ xs) = (
  ground arith,
  All-map (λ c. 1 ≤ count c.address xs) (λ c. 1 ≤ count c.address (x ∷ xs)) xs
      (λ c h. omega (arith, h)) (counted xs),
)
