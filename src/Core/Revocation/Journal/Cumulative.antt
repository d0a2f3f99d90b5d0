-- ===== src/Core/Revocation/Journal/Cumulative.antt =====
-- Sequences of starts of the program with src/core/revocation.rs and one journal.
use anon_guard.Core.Storage.{Write, done, lost, unconfirmed}
use anon_guard.Base.{
  ℕ, ◌≤◌, ◌≡◌, refl, sym, ap, subst, inl, inr, Bool, true, false, not, ◌&&◌, ◌||◌, Option, none,
  some, List, [], ◌∷◌, arith, ltb, ◌==◌, Bool-cases, length, any, All, member, bytes_eq,
  bytes_eq→eq, Result, Result-cases, ok, err,
}
use anon_guard.Crypto.Identity.{Suite}
use anon_guard.Core.Revocation.{
  RevocationError, RevocationPolicy, Keys, max_revoked_identities, verify_policy, digest,
  distinct_count,
}
use anon_guard.Core.Revocation.Journal.{
  AcceptedPolicy, File, holding, Disk, Start, Loaded, read_journal, read_policy, without_policy,
  check_previous, accepted, decide, persist, commit, with_policy, with_journal, locked_call,
  load_and_commit,
}

all_kept :
    (ps xs : List (List ℕ)) (y : List ℕ)
    → any (λ x. not (member ps x)) xs ≡ false
    → member xs y ≡ true
    → member ps y ≡ true
all_kept ps [] y h m = cc
all_kept ps (x ∷ xs) y h m = elim (Bool-cases (member ps x)) [
  | inr out ↦ cc (rw out at h)
  | inl in_ps ↦ elim (Bool-cases (bytes_eq x y)) [
    | inl same ↦ rw (sym (bytes_eq→eq x y same)) in_ps
    | inr other ↦ all_kept ps xs y (rw in_ps at h) (rw other at m)
  ]
]

abbrev Includes : List (List ℕ) → List (List ℕ) → Type 0
Includes ids old = All (λ x. member ids x ≡ true) old

Includes-kept :
    (ps xs old : List (List ℕ))
    → any (λ x. not (member ps x)) xs ≡ false
    → Includes xs old
    → Includes ps old
Includes-kept ps xs [] h i = tt
Includes-kept ps xs (y ∷ ys) h (m, ms) = (all_kept ps xs y h m, Includes-kept ps xs ys h ms)

-- The journal holds a policy that is not older than the generation and retires the identities.
abbrev pub Retires : Disk → ℕ → List (List ℕ) → Type 0
Retires d generation old =
    (a : AcceptedPolicy) × (d.journal ≡ holding a)
    × (generation ≤ a.generation)
    × Includes a.revoked old

-- A call that succeeds returns the identities, and maybe more.
abbrev pub Returned : List (List ℕ) → Loaded → Type 0
Returned old (ok ids) = Includes ids old
Returned old (err e) = Unit {0}

not_older : (n m : ℕ) → ltb n m ≡ false → m ≤ n
not_older n m h = ground arith

two_false : (a b c : Bool) → (a || (b || c)) ≡ false → (a ≡ false) × (c ≡ false)
two_false a b c h = ground arith

module _ (z : Suite) where
  check_previous-newer :
      (p : RevocationPolicy) (a : AcceptedPolicy)
      → check_previous z p (some a) ≡ ok tt
      → (a.generation ≤ p.generation) × (any (λ x. not (member p.revoked x)) a.revoked ≡ false)
  unfolding check_previous
  check_previous-newer p a h =
      elim (Bool-cases (
        (a.generation == 0)
        || (ltb max_revoked_identities (length a.revoked)
            || not (distinct_count a.revoked == length a.revoked)))) [
              | inl bad ↦ cc (rw bad at h)
              | inr good ↦
                  elim (Bool-cases (
                    ltb p.generation a.generation
                    || (((p.generation == a.generation) && not (bytes_eq (digest z p) a.digest))
                        || any (λ x. not (member p.revoked x)) a.revoked))) [
                          | inl back ↦ cc (rw (good, back) at h)
                          | inr on ↦
                              let (newer, kept) =
                                two_false (ltb p.generation a.generation) _ _ on in
                              (not_older p.generation a.generation newer, kept)
                        ]
            ]

  decide-newer :
      (p : RevocationPolicy) (keys : Keys) (quorum : ℕ) (a : AcceptedPolicy)
      → decide z p keys quorum (some a) ≡ ok tt
      → (a.generation ≤ p.generation) × (any (λ x. not (member p.revoked x)) a.revoked ≡ false)
  unfolding decide
  decide-newer p keys quorum a h = elim (Result-cases (verify_policy z p keys quorum)) [
    | inl (tt, e) ↦ check_previous-newer p a (rw e at h)
    | inr (x, e) ↦ cc (rw e at h)
  ]

  -- A call keeps what the journal retires, and returns it if it succeeds.
  abbrev Keeps : ℕ → List (List ℕ) → Disk × Loaded → Type 0
  Keeps generation old (d, r) = Retires d generation old × Returned old r

  persist-Keeps :
      (p : RevocationPolicy) (w : Write) (d : Disk) (generation : ℕ) (old : List (List ℕ))
      → generation ≤ p.generation
      → Includes p.revoked old
      → Retires d generation old
      → Keeps generation old (persist z p w d)
  persist-Keeps p done d generation old g i k = ((accepted z p, refl, g, i), i)
  persist-Keeps p lost d generation old g i k = (k, tt)
  persist-Keeps p unconfirmed d generation old g i k = ((accepted z p, refl, g, i), tt)

  commit-Keeps :
      (p : RevocationPolicy) (s : Start) (d : Disk) (a : AcceptedPolicy) (generation : ℕ)
      (old : List (List ℕ)) (r : Result (Unit {0}) RevocationError)
      → decide z p s.keys s.quorum (some a) ≡ r
      → d.journal ≡ holding a
      → generation ≤ a.generation
      → Includes a.revoked old
      → Keeps generation old (commit z p s.write d r)
  commit-Keeps p s d a generation old (err e) h j g i = ((a, j, g, i), tt)
  commit-Keeps p s d a generation old (ok tt) h j g i =
      let (newer, kept) = decide-newer p s.keys s.quorum a h in
      persist-Keeps p s.write d generation old (omega arith)
        (Includes-kept p.revoked a.revoked old kept i) (a, j, g, i)

  with_policy-Keeps :
      (s : Start) (d : Disk) (a : AcceptedPolicy) (generation : ℕ) (old : List (List ℕ))
      (r : Result RevocationPolicy RevocationError)
      → d.journal ≡ holding a
      → generation ≤ a.generation
      → Includes a.revoked old
      → Keeps generation old (with_policy z s d (some a) r)
  with_policy-Keeps s d a generation old (err e) j g i = ((a, j, g, i), tt)
  with_policy-Keeps s d a generation old (ok p) j g i =
      commit-Keeps p s d a generation old (decide z p s.keys s.quorum (some a)) refl j g i

  without_policy-Returned :
      (lock : Bool) (a : AcceptedPolicy) (old : List (List ℕ))
      → Returned old (without_policy lock (some a))
  unfolding without_policy
  without_policy-Returned true a old = tt
  without_policy-Returned false a old = tt

  locked_call-Keeps :
      (s : Start) (d : Disk) (a : AcceptedPolicy) (generation : ℕ) (old : List (List ℕ))
      (o : Option (File RevocationPolicy))
      → d.journal ≡ holding a
      → generation ≤ a.generation
      → Includes a.revoked old
      → Keeps generation old (locked_call z s d o)
  unfolding read_journal
  locked_call-Keeps s d a generation old none j g i =
      ((a, j, g, i), rw j (without_policy-Returned d.lock a old))
  locked_call-Keeps s d a generation old (some file) j g i =
      elim (Bool-cases (d.lock || not s.lock_opens)) [
        | inl shut ↦ rw shut ((a, j, g, i), tt)
        | inr free ↦ rw free (
            subst (λ x. Keeps generation old (with_journal z s d file x)) (sym (ap read_journal j))
              (with_policy-Keeps s d a generation old (read_policy file) j g i))
      ]

  pub run : Disk → List Start → Disk × List Loaded
  run d [] = (d, [])
  run d (s ∷ ss) = let (e, r) = load_and_commit z d s in let (f, rs) = run e ss in (f, r ∷ rs)

  -- Once the journal retires identities, no sequence of starts, with whatever policies, keys and
  -- disk errors, brings one of them back or goes to an older generation, and every start that
  -- succeeds gets all of them.
  pub run-Retires :
      (d : Disk) (ss : List Start) (generation : ℕ) (old : List (List ℕ))
      → Retires d generation old
      → Retires (run d ss).0 generation old × All (Returned old) (run d ss).1
  unfolding run load_and_commit
  run-Retires d [] generation old k = (k, tt)
  run-Retires d (s ∷ ss) generation old (a, j, g, i) =
      let (k, r) = locked_call-Keeps s d a generation old s.policy j g i in
      let (l, rs) = run-Retires (load_and_commit z d s).0 ss generation old k in (l, (r, rs))
