-- ===== src/Mesh/Examples.antt =====
-- Tests of the modules of src/mesh at concrete inputs.
use anon_guard.Base.{
  ℕ, ◌+◌, ◌-◌, ◌*◌, ◌/◌, ◌%◌, ◌≤◌, ◌≡◌, refl, subst, inl, inr, ◌↔◌, Bool-cases, some_inj, ltb,
  ltb→lt, if◌then◌else◌, err, true, false, Option, none, some, List, [], ◌∷◌, map, arith, codes, ok,
}
use anon_guard.Kernel.Ip.{IpAddr, v4, v6, to_ipv4, to_ipv4_mapped}
use anon_guard.Mesh.Sybil.{
  new_registry, verify_pow, solve_rounds, check_and_record, count_leading_zero_bits,
}
use anon_guard.Mesh.Sybil.Spent.{Call, after, check_and_record-once}
use anon_guard.Mesh.Sybil.Work.{solve_rounds-verify}
use anon_guard.Mesh.Diversity.{
  subnet_collision, native_prefix, prefix_of, see_prefix, see, validate_from,
  validate_circuit_diversity,
}
use anon_guard.Mesh.Diversity.Forms.{IsIp}
use anon_guard.Mesh.Diversity.Subnets.{Diverse, validate_circuit_diversity-Diverse}
use anon_guard.Mesh.Admission.{group4, source_slots, TokenBucket, new_bucket}
use anon_guard.Mesh.Admission.Slots.{free_of, held_by}
use anon_guard.Mesh.Admission.History.{Event, arrive, leave, opened, run, run-slots}
use anon_guard.Mesh.Admission.Bounds.{taken, taken-budget}

-- A hash whose first byte is the last byte of the input.
abbrev last_byte : List ℕ → List ℕ
last_byte [] = []
last_byte (x ∷ []) = x ∷ []
last_byte (x ∷ y ∷ ys) = last_byte (y ∷ ys)

abbrev hash : List ℕ → List ℕ
hash m = map (λ x. x * 128 % 256) (last_byte m)

abbrev relay : List ℕ
relay = codes "relay"

-- The nonce 2 has eight leading zero bits.
valid_then : verify_pow hash relay 1000 2 8 1010 ≡ true
unfolding verify_pow count_leading_zero_bits
valid_then = refl

valid_later : verify_pow hash relay 1000 2 8 1200 ≡ true
unfolding verify_pow count_leading_zero_bits
valid_later = refl

admitted : (check_and_record new_registry relay 2 1010).1 ≡ false
unfolding check_and_record
admitted = refl

abbrev between : List Call
between = record { node_id = relay; nonce = 4; now = 1100 } ∷ []

check_and_record-once_example :
    (check_and_record (after (check_and_record new_registry relay 2 1010).0 between) relay 2 1200).1
    ≡ true
check_and_record-once_example =
    check_and_record-once hash relay 1000 2 8 1010 1200 new_registry between valid_then admitted
      valid_later

found : solve_rounds hash 5 relay 1000 8 1 ≡ some 2
unfolding solve_rounds count_leading_zero_bits
found = refl

solve_rounds-verify_example : verify_pow hash relay 1000 2 8 1200 ≡ true
solve_rounds-verify_example = solve_rounds-verify hash relay 1000 8 5 1 2 1200 found (omega arith)

-- A host of one byte stands for an IPv4 address, one of two bytes for a 6to4 address.
abbrev parse_digit : List ℕ → Option IpAddr
parse_digit (x ∷ []) = if ltb x 256 then some (v4 (record { a = x; b = 1; c = 1; d = 1 })) else none
parse_digit (x ∷ y ∷ []) =
    if ltb (x * 256 + y) 65536
    then some (
        v6 (record {
          s0 = 0x2002;
          s1 = x * 256 + y;
          s2 = 0;
          s3 = 0;
          s4 = 0;
          s5 = 0;
          s6 = 0;
          s7 = 1;
        }))
    else none
parse_digit _ = none

parse_digit-IsIp : (host : List ℕ) (ip : IpAddr) → parse_digit host ≡ some ip → IsIp ip
parse_digit-IsIp [] ip h = cc
parse_digit-IsIp (x ∷ []) ip h = elim (Bool-cases (ltb x 256)) [
  | inl small ↦
      let fits = ltb→lt x 256 small in
      subst IsIp (some_inj _ ip (rw small at h))
        (record { a_byte = fits; b_byte = omega arith; c_byte = omega arith; d_byte = omega arith })
  | inr large ↦ cc (rw large at h)
]
parse_digit-IsIp (x ∷ y ∷ []) ip h = elim (Bool-cases (ltb (x * 256 + y) 65536)) [
  | inl small ↦
      let fits = ltb→lt (x * 256 + y) 65536 small in
      subst IsIp (some_inj _ ip (rw small at h)) (record {
        w0 = omega arith;
        w1 = fits;
        w2 = omega arith;
        w3 = omega arith;
        w4 = omega arith;
        w5 = omega arith;
        w6 = omega arith;
        w7 = omega arith;
      })
  | inr large ↦ cc (rw large at h)
]
parse_digit-IsIp (x ∷ y ∷ z ∷ host) ip h = cc

abbrev three_hosts : List (List ℕ)
three_hosts = (8 ∷ []) ∷ (9 ∷ 1 ∷ []) ∷ (11 ∷ []) ∷ []

-- A 6to4 address and the IPv4 address in it are in one subnet.
same_carrier :
    validate_circuit_diversity parse_digit ((8 ∷ []) ∷ (8 ∷ 1 ∷ []) ∷ [])
    ≡ err (subnet_collision (8 ∷ 1 ∷ []))
unfolding validate_circuit_diversity validate_from see see_prefix prefix_of native_prefix to_ipv4
    to_ipv4_mapped
same_carrier = refl

validate_circuit_diversity-Diverse_example :
    (validate_circuit_diversity parse_digit three_hosts ≡ ok tt) ↔ Diverse parse_digit three_hosts
validate_circuit_diversity-Diverse_example =
    validate_circuit_diversity-Diverse parse_digit parse_digit-IsIp three_hosts

abbrev bucket : TokenBucket
bucket = new_bucket 2 10 0

taken-budget_example : taken bucket (1 ∷ 2 ∷ 3 ∷ 25 ∷ []) ≤ 2 + (30 - 0) / 10
taken-budget_example =
    taken-budget bucket (1 ∷ 2 ∷ 3 ∷ 25 ∷ []) 0 30
      (record { level = omega arith; fits = omega arith; ticking = omega arith }) (omega arith)
      (omega arith, (omega arith, (omega arith, (omega arith, omega arith))))

abbrev visitor : IpAddr
visitor = v4 (record { a = 203; b = 0; c = 113; d = 7 })

-- Two arrivals, the first leaves, and one more arrival.
abbrev visits : List Event
visits = arrive visitor 10 ∷ arrive visitor 20 ∷ leave 1 ∷ arrive visitor 30 ∷ []

run-slots_example :
    free_of (group4 203 0 113 7) (run opened visits).door.sources
      + held_by (group4 203 0 113 7) (run opened visits).permits
    ≡ source_slots
run-slots_example = run-slots visits (group4 203 0 113 7)
