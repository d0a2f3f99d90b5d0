-- ===== src/Mesh/Admission/History.antt =====
-- Histories of the door of src/mesh/admission.rs: the permits that callers hold, and the events.
use anon_guard.Base.{
  ℕ, zero, suc, ◌+◌, ◌≡◌, refl, sym, inl, inr, Bool, true, false, ◌&&◌, Option, none, some, List,
  [], ◌∷◌, arith, if◌then◌else◌, Bool-cases, some_inj, get_elem?,
}
use anon_guard.Kernel.Ip.{IpAddr}
use anon_guard.Mesh.Admission.{
  SourceGroup, SourceAdmission, group_of, same_group, source_slots, has_group, new_admission,
  try_admit, release,
}
use anon_guard.Mesh.Admission.Slots.{
  Unique, free_of, held_by, free_of-absent, same_group_refl, same_group→eq, try_admit-free,
  give_back-free, give_back-Unique,
}

-- An address asks at a time, or a caller drops one of the permits, by its position.
pub data Event : Type 0 where
  arrive : IpAddr → ℕ → Event
  leave : ℕ → Event

pub record Gate : Type 0 where
  pub door : SourceAdmission
  pub permits : List SourceGroup

abbrev remove_at {ℓ} : {A : Type ℓ} → List A → ℕ → List A
remove_at [] n = []
remove_at (x ∷ xs) zero = xs
remove_at (x ∷ xs) (suc n) = x ∷ remove_at xs n

abbrev dropped : Gate → ℕ → Option SourceGroup → Gate
dropped s n none = s
dropped s n (some g) = record { door = release s.door g; permits = remove_at s.permits n }

abbrev on_event : Gate → Event → Gate
on_event s (arrive ip now) =
    let (t, may) = try_admit s.door ip now in
    record { door = t; permits = if may then group_of ip ∷ s.permits else s.permits }
on_event s (leave n) = dropped s n (get_elem? s.permits n)

pub run : Gate → List Event → Gate
run s [] = s
run s (e ∷ es) = run (on_event s e) es

abbrev pub opened : Gate
opened = record { door = new_admission; permits = [] }

record IsGate (s : Gate) : Type 0 where
  pub unique : Unique s.door.sources
  pub counted : (h : SourceGroup) → free_of h s.door.sources + held_by h s.permits ≡ source_slots

held_by-remove_at :
    (h g : SourceGroup) (gs : List SourceGroup) (n : ℕ)
    → get_elem? gs n ≡ some g
    → held_by h (remove_at gs n) + (if same_group g h then 1 else 0) ≡ held_by h gs
held_by-remove_at h g [] n e = cc
held_by-remove_at h g (x ∷ xs) zero e = rw (some_inj x g e) (omega arith)
held_by-remove_at h g (x ∷ xs) (suc n) e = omega (arith, held_by-remove_at h g xs n e)

-- What is held has an entry.
held-has :
    (s : Gate) (g : SourceGroup) (n : ℕ)
    → IsGate s
    → get_elem? s.permits n ≡ some g
    → has_group g s.door.sources ≡ true
held-has s g n v e = elim (Bool-cases (has_group g s.door.sources)) [
  | inl h ↦ h
  | inr absent ↦
      let one = held_by-remove_at g g s.permits n e in
      let some_held = rw (same_group_refl g) at one in
      absurd (omega (arith, some_held, v.counted g, free_of-absent g s.door.sources absent))
]

freed :
    (x y z k : ℕ) (b : Bool)
    → x + y ≡ k
    → z + (if b then 1 else 0) ≡ y
    → x + (if b && true then 1 else 0) + z ≡ k
freed x y z k b e f = ground arith

taken_one :
    (x t y k : ℕ) (b c : Bool)
    → x + (if b && c then 1 else 0) ≡ t
    → t + y ≡ k
    → x + (if b then (if c then 1 else 0) + y else y) ≡ k
taken_one x t y k b c e f = ground arith

held_by-if :
    (h g : SourceGroup) (gs : List SourceGroup) (b : Bool)
    → held_by h (if b then g ∷ gs else gs)
      ≡ (if b then (if same_group g h then 1 else 0) + held_by h gs else held_by h gs)
held_by-if h g gs true = refl
held_by-if h g gs false = refl

group_freed :
    (s : Gate) (g h : SourceGroup)
    → has_group g s.door.sources ≡ true
    → (same_group g h && has_group h s.door.sources) ≡ (same_group g h && true)
group_freed s g h e = elim (Bool-cases (same_group g h)) [
  | inl same ↦ rw (same, sym (same_group→eq g h same)) e
  | inr other ↦ rw other refl
]

dropped-IsGate :
    (s : Gate) (n : ℕ) (o : Option SourceGroup)
    → get_elem? s.permits n ≡ o
    → IsGate s
    → IsGate (dropped s n o)
unfolding release
dropped-IsGate s n none e v = v
dropped-IsGate s n (some g) e v = record {
  unique = give_back-Unique g s.door.sources v.unique;
  counted = λ h.
      let f = give_back-free g h s.door.sources in
      let k = group_freed s g h (held-has s g n v e) in
      rw (f, k)
        (freed (free_of h s.door.sources) (held_by h s.permits) (held_by h (remove_at s.permits n))
          source_slots (same_group g h) (v.counted h) (held_by-remove_at h g s.permits n e));
}

on_event-IsGate : (s : Gate) (e : Event) → IsGate s → IsGate (on_event s e)
on_event-IsGate s (arrive ip now) v = record {
  unique = (try_admit-free s.door ip now (group_of ip) v.unique).1;
  counted = λ h. rw (held_by-if h (group_of ip) s.permits (try_admit s.door ip now).1) (
      taken_one _ (free_of h s.door.sources) (held_by h s.permits) source_slots
        (try_admit s.door ip now).1 (same_group (group_of ip) h)
        (try_admit-free s.door ip now h v.unique).0 (v.counted h));
}
on_event-IsGate s (leave n) v = dropped-IsGate s n (get_elem? s.permits n) refl v

run-IsGate : (s : Gate) (es : List Event) → IsGate s → IsGate (run s es)
unfolding run
run-IsGate s [] v = v
run-IsGate s (e ∷ es) v = run-IsGate (on_event s e) es (on_event-IsGate s e v)

opened-IsGate : IsGate opened
unfolding free_of
opened-IsGate = record { unique = tt; counted = λ h. refl }

-- Whatever addresses ask at whatever times, and in whatever order permits are dropped, the free
-- slots of a source group and the permits that its callers hold are together exactly four.
pub run-slots :
    (es : List Event) (g : SourceGroup)
    → free_of g (run opened es).door.sources + held_by g (run opened es).permits ≡ source_slots
run-slots es g = (run-IsGate opened es opened-IsGate).counted g
