-- ===== src/Mesh/Admission/Slots.antt =====
-- The slots of src/mesh/admission.rs, over histories of arrivals and of permits that are dropped.
use anon_guard.Base.{
  ℕ, ◌+◌, ◌-◌, ◌≡◌, refl, sym, ◌∙◌, subst, inl, inr, Bool, true, false, not, ◌&&◌, ◌||◌, List, [],
  ◌∷◌, map, arith, ltb, leb, ◌==◌, if◌then◌else◌, Bool-cases, length, retain,
}
use anon_guard.Kernel.Ip.{IpAddr}
use anon_guard.Mesh.Admission.{
  SourceGroup, Source, SourceAdmission, group4, group6, group_of, same_group, source_slots,
  admit_source, admit_in, has_group, sweep, sweep_due, max_sources, make_room, new_source,
  take_token, try_admit, source_idle,
}

four :
    (a e b f c g d h : ℕ)
    → ((a == e) && ((b == f) && ((c == g) && (d == h)))) ≡ true
    → (a ≡ e) × (b ≡ f) × (c ≡ g) × (d ≡ h)
four a e b f c g d h t = ground arith

pub same_group→eq : (g h : SourceGroup) → same_group g h ≡ true → g ≡ h
unfolding same_group
same_group→eq (group4 a b c d) (group4 e f g h) t =
    let (p, q, r, s) = four a e b f c g d h t in cc (p, q, r, s)
same_group→eq (group6 a b c d) (group6 e f g h) t =
    let (p, q, r, s) = four a e b f c g d h t in cc (p, q, r, s)
same_group→eq (group4 a b c d) (group6 e f g h) t = cc
same_group→eq (group6 a b c d) (group4 e f g h) t = cc

pub same_group_refl : (g : SourceGroup) → same_group g g ≡ true
unfolding same_group
same_group_refl (group4 a b c d) = ground arith
same_group_refl (group6 a b c d) = ground arith

same_group_sym : (g h : SourceGroup) → same_group g h ≡ false → same_group h g ≡ false
same_group_sym g h n = elim (Bool-cases (same_group h g)) [
  | inl e ↦ cc (rw (same_group→eq h g e) at n, same_group_refl g)
  | inr e ↦ e
]

-- The free slots of a group: all of them where it has no entry.
unfoldable pub free_of : SourceGroup → List Source → ℕ
free_of g [] = source_slots
free_of g (x ∷ xs) = if same_group x.group g then x.free else free_of g xs

abbrev pub Unique : List Source → Type 0
Unique [] = Unit {0}
Unique (x ∷ xs) = (has_group x.group xs ≡ false) × Unique xs

-- How many of the held permits are of the group.
abbrev pub held_by : SourceGroup → List SourceGroup → ℕ
held_by g [] = 0
held_by g (h ∷ hs) = (if same_group h g then 1 else 0) + held_by g hs

pub free_of-absent :
    (g : SourceGroup) (xs : List Source) → has_group g xs ≡ false → free_of g xs ≡ source_slots
unfolding free_of
free_of-absent g [] n = refl
free_of-absent g (x ∷ xs) n = elim (Bool-cases (same_group x.group g)) [
  | inl e ↦ cc (rw e at n)
  | inr e ↦ rw e (free_of-absent g xs (rw e at n))
]

retain-absent :
    (p : Source → Bool) (g : SourceGroup) (xs : List Source)
    → has_group g xs ≡ false
    → has_group g (retain p xs) ≡ false
retain-absent p g [] n = refl
retain-absent p g (x ∷ xs) n = elim (Bool-cases (same_group x.group g)) [
  | inl e ↦ cc (rw e at n)
  | inr e ↦
      let rest = retain-absent p g xs (rw e at n) in
      elim (Bool-cases (p x)) [ inl k ↦ rw (k, e) rest | inr k ↦ rw k rest ]
]

retain-Unique : (p : Source → Bool) (xs : List Source) → Unique xs → Unique (retain p xs)
retain-Unique p [] u = tt
retain-Unique p (x ∷ xs) (n, u) = elim (Bool-cases (p x)) [
  | inl k ↦ rw k (retain-absent p x.group xs n, retain-Unique p xs u)
  | inr k ↦ rw k (retain-Unique p xs u)
]

-- Dropping entries that have all their slots changes no count.
free_of-retain :
    (p : Source → Bool) (g : SourceGroup) (xs : List Source)
    → ((x : Source) → p x ≡ false → x.free ≡ source_slots)
    → Unique xs
    → free_of g (retain p xs) ≡ free_of g xs
unfolding free_of
free_of-retain p g [] idle u = refl
free_of-retain p g (x ∷ xs) idle (n, u) =
    let rest = free_of-retain p g xs idle u in
    elim (Bool-cases (p x)) [
      | inl k ↦ elim (Bool-cases (same_group x.group g)) [
        | inl e ↦ rw (k, e) refl
        | inr e ↦ rw (k, e) rest
      ]
      | inr k ↦ elim (Bool-cases (same_group x.group g)) [
        | inl e ↦
            let away = rw (same_group→eq x.group g e) at n in
            rw (k, e) (rest ∙ free_of-absent g xs away ∙ sym (idle x k))
        | inr e ↦ rw (k, e) rest
      ]
    ]

admit_source-free :
    (x : Source) (now : ℕ)
    → ((admit_source x now).0.group ≡ x.group)
      × ((admit_source x now).0.free + (if (admit_source x now).1 then 1 else 0) ≡ x.free)
unfolding admit_source take_token
admit_source-free x now = elim (Bool-cases (x.free == 0)) [
  | inl none_left ↦ rw none_left (refl, omega arith)
  | inr left ↦ elim (Bool-cases (take_token x.rate now).1) [
    | inl may ↦ rw (left, may) (refl, ground arith)
    | inr spent ↦ rw (left, spent) (refl, omega arith)
  ]
]

all_slots : (k : Bool) → (if k then source_slots else source_slots) ≡ source_slots
all_slots true = refl
all_slots false = refl

not_charged : (n : ℕ) (may : Bool) → n + (if may && false then 1 else 0) ≡ n
not_charged n may = ground arith

apart :
    (g h i : SourceGroup) → same_group i g ≡ false → same_group i h ≡ true → same_group g h ≡ false
apart g h i n k = elim (Bool-cases (same_group g h)) [
  | inl e ↦ cc (rw (same_group→eq g h e) at n, k)
  | inr e ↦ e
]

one_slot :
    (y x n : ℕ) (may k : Bool)
    → y + (if may then 1 else 0) ≡ x
    → (if k then y else n) + (if may && k then 1 else 0) ≡ (if k then x else n)
one_slot y x n may k h = ground arith

-- An entry that gives out a slot, at the head of the list.
charged :
    (g h : SourceGroup) (x y : Source) (may : Bool) (xs : List Source)
    → x.group ≡ g
    → y.group ≡ x.group
    → y.free + (if may then 1 else 0) ≡ x.free
    → free_of h (y ∷ xs) + (if may && same_group g h then 1 else 0) ≡ free_of h (x ∷ xs)
unfolding free_of
charged g h x y may xs e f one =
    rw (f, e) (one_slot y.free x.free (free_of h xs) may (same_group g h) one)

-- An admission takes one slot of its group, and no other.
admit_in-free :
    (g h : SourceGroup) (now : ℕ) (xs : List Source)
    → free_of h (admit_in g now xs).0 + (if (admit_in g now xs).1 && same_group g h then 1 else 0)
      ≡ free_of h xs
unfolding free_of admit_in
admit_in-free g h now [] =
    let (same, one) = admit_source-free (new_source g now) now in
    charged g h (new_source g now) (admit_source (new_source g now) now).0
      (admit_source (new_source g now) now).1 [] refl same one
    ∙ all_slots (same_group g h)
admit_in-free g h now (x ∷ xs) =
    let (same, one) = admit_source-free x now in
    elim (Bool-cases (same_group x.group g)) [
      | inl e ↦ rw e (
          charged g h x (admit_source x now).0 (admit_source x now).1 xs (same_group→eq x.group g e)
            same one)
      | inr e ↦ elim (Bool-cases (same_group x.group h)) [
        | inl k ↦
            let away = apart g h x.group e k in
            rw (e, k, away) (not_charged x.free (admit_in g now xs).1)
        | inr k ↦ rw (e, k) (admit_in-free g h now xs)
      ]
    ]

admit_in-absent :
    (g h : SourceGroup) (now : ℕ) (xs : List Source)
    → has_group h xs ≡ false
    → same_group g h ≡ false
    → has_group h (admit_in g now xs).0 ≡ false
unfolding admit_in
admit_in-absent g h now [] n d = rw (admit_source-free (new_source g now) now).0 (rw d refl)
admit_in-absent g h now (x ∷ xs) n d = elim (Bool-cases (same_group x.group h)) [
  | inl k ↦ cc (rw k at n)
  | inr k ↦ elim (Bool-cases (same_group x.group g)) [
    | inl e ↦ rw (e, (admit_source-free x now).0, k) (rw k at n)
    | inr e ↦ rw (e, k) (admit_in-absent g h now xs (rw k at n) d)
  ]
]

admit_in-Unique :
    (g : SourceGroup) (now : ℕ) (xs : List Source) → Unique xs → Unique (admit_in g now xs).0
unfolding admit_in
admit_in-Unique g now [] u = (refl, tt)
admit_in-Unique g now (x ∷ xs) (n, u) = elim (Bool-cases (same_group x.group g)) [
  | inl e ↦ rw (e, (admit_source-free x now).0) (n, u)
  | inr e ↦
      rw e (
        admit_in-absent g x.group now xs n (same_group_sym x.group g e),
        admit_in-Unique g now xs u,
      )
]

idle_free :
    (x : Source) (k : Bool) → (not (x.free == source_slots) || k) ≡ false → x.free ≡ source_slots
idle_free x k h = ground arith

sweep-free :
    (s : SourceAdmission) (h : SourceGroup) (now : ℕ)
    → Unique s.sources
    → (free_of h (sweep s now).sources ≡ free_of h s.sources) × Unique (sweep s now).sources
unfolding sweep
sweep-free s h now u = (
  free_of-retain _ h s.sources (λ x. idle_free x (ltb (now - x.seen) source_idle)) u,
  retain-Unique _ s.sources u,
)

make_room-free :
    (s : SourceAdmission) (g h : SourceGroup) (now : ℕ)
    → Unique s.sources
    → (free_of h (make_room s g now).sources ≡ free_of h s.sources)
      × Unique (make_room s g now).sources
make_room-free s g h now u = elim (Bool-cases (has_group g s.sources)) [
  | inl e ↦ rw e (refl, u)
  | inr e ↦ elim (Bool-cases (leb max_sources (length s.sources) || sweep_due s.next_sweep now)) [
    | inl due ↦ rw (e, due) (sweep-free s h now u)
    | inr early ↦ rw (e, early) (refl, u)
  ]
]

pub try_admit-free :
    (s : SourceAdmission) (ip : IpAddr) (now : ℕ) (h : SourceGroup)
    → Unique s.sources
    → (free_of h (try_admit s ip now).0.sources
          + (if (try_admit s ip now).1 && same_group (group_of ip) h then 1 else 0)
        ≡ free_of h s.sources)
      × Unique (try_admit s ip now).0.sources
unfolding try_admit
try_admit-free s ip now h u =
    let t = make_room s (group_of ip) now in
    let (same, v) = make_room-free s (group_of ip) h now u in
    elim (Bool-cases
      (not (has_group (group_of ip) s.sources) && leb max_sources (length t.sources))) [
        | inl full ↦ rw full (omega (arith, same), v)
        | inr room ↦ rw room (
          admit_in-free (group_of ip) h now t.sources ∙ same,
          admit_in-Unique (group_of ip) now t.sources v,
        )
      ]

abbrev give_back : SourceGroup → Source → Source
give_back g x = if same_group x.group g then record x { free = x.free + 1 } else x

give_back-group : (g : SourceGroup) (x : Source) → (give_back g x).group ≡ x.group
give_back-group g x = elim (Bool-cases (same_group x.group g)) [
  | inl e ↦ rw e refl
  | inr e ↦ rw e refl
]

give_back-has :
    (g h : SourceGroup) (xs : List Source) → has_group h (map (give_back g) xs) ≡ has_group h xs
give_back-has g h [] = refl
give_back-has g h (x ∷ xs) = rw (give_back-group g x, give_back-has g h xs) refl

pub give_back-Unique :
    (g : SourceGroup) (xs : List Source) → Unique xs → Unique (map (give_back g) xs)
give_back-Unique g [] u = tt
give_back-Unique g (x ∷ xs) (n, u) =
    (rw (give_back-group g x, give_back-has g x.group xs) n, give_back-Unique g xs u)

-- A permit that is dropped gives one slot back to its group, and to no other.
pub give_back-free :
    (g h : SourceGroup) (xs : List Source)
    → free_of h (map (give_back g) xs)
      ≡ free_of h xs + (if same_group g h && has_group h xs then 1 else 0)
unfolding free_of
give_back-free g h [] = sym (not_charged source_slots (same_group g h))
give_back-free g h (x ∷ xs) = elim (Bool-cases (same_group x.group h)) [
  | inl k ↦ elim (Bool-cases (same_group x.group g)) [
    | inl e ↦
        let t = subst (λ y. same_group y h ≡ true) (same_group→eq x.group g e) k in
        rw (give_back-group g x, k, e, t) refl
    | inr e ↦ rw (give_back-group g x, k, e, apart g h x.group e k) (omega arith)
  ]
  | inr k ↦ rw (give_back-group g x, k) (give_back-free g h xs)
]
