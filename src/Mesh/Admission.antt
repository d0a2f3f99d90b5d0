-- ===== src/Mesh/Admission.antt =====
-- src/mesh/admission.rs: the token bucket and the slots of each source group. Instants and
-- durations are nanoseconds. The map of the sources is an association list; a source's
-- semaphore is the number of its free slots, and a permit gives its slot back when dropped.
pub mod Bounds
pub mod Slots
pub mod History
use anon_guard.Base.{
  ℕ, ◌+◌, ◌-◌, ◌*◌, ◌/◌, min, Bool, true, false, not, ◌&&◌, ◌||◌, Option, none, some, List, [], ◌∷◌,
  map, ltb, leb, ◌==◌, if◌then◌else◌, length, any, retain, u32_max,
}
use anon_guard.Kernel.Ip.{Ipv4Addr, Ipv6Addr, IpAddr, v4, v6, to_ipv4_mapped}

abbrev pub source_slots : ℕ
source_slots = 4

abbrev source_burst : ℕ
source_burst = 64

abbrev source_refill : ℕ
source_refill = 83334000

abbrev source_idle : ℕ
source_idle = 120000000000

abbrev max_sources : ℕ
max_sources = 4096

pub record TokenBucket : Type 0 where
  pub tokens : ℕ
  pub burst : ℕ
  pub refill : ℕ
  pub last : ℕ

abbrev pub new_bucket : ℕ → ℕ → ℕ → TokenBucket
new_bucket burst refill now = record { tokens = burst; burst = burst; refill = refill; last = now }

-- What `available` leaves in the bucket; `tokens` is a u32.
pub refilled : TokenBucket → ℕ → TokenBucket
refilled b now =
    let refill = (now - b.last) / b.refill in
    if leb b.burst refill
    then record b { tokens = b.burst; last = now }
    else if ltb 0 refill
    then record b {
      tokens = min (min (b.tokens + refill) u32_max) b.burst;
      last = b.last + b.refill * refill;
    }
    else b

abbrev available : TokenBucket → ℕ → TokenBucket × Bool
available b now = let c = refilled b now in (c, ltb 0 c.tokens)

pub take_token : TokenBucket → ℕ → TokenBucket × Bool
take_token b now =
    let (c, may) = available b now in
    if not may then (c, false) else (record c { tokens = c.tokens - 1 }, true)

-- `SourceGroup`: the IPv4 address, or the first eight bytes of the IPv6 address, here its
-- first four segments.
pub data SourceGroup : Type 0 where
  group4 group6 : ℕ → ℕ → ℕ → ℕ → SourceGroup

abbrev group_v6 : Ipv6Addr → Option Ipv4Addr → SourceGroup
group_v6 x (some a) = group4 a.a a.b a.c a.d
group_v6 x none = group6 x.s0 x.s1 x.s2 x.s3

pub group_of : IpAddr → SourceGroup
unfolding to_ipv4_mapped
group_of (v4 a) = group4 a.a a.b a.c a.d
group_of (v6 x) = group_v6 x (to_ipv4_mapped x)

pub same_group : SourceGroup → SourceGroup → Bool
same_group (group4 a b c d) (group4 e f g h) = (a == e) && ((b == f) && ((c == g) && (d == h)))
same_group (group6 a b c d) (group6 e f g h) = (a == e) && ((b == f) && ((c == g) && (d == h)))
same_group (group4 a b c d) (group6 e f g h) = false
same_group (group6 a b c d) (group4 e f g h) = false

pub record Source : Type 0 where
  pub group : SourceGroup
  pub free : ℕ
  pub rate : TokenBucket
  pub seen : ℕ

pub record SourceAdmission : Type 0 where
  pub sources : List Source
  pub next_sweep : Option ℕ

abbrev pub new_admission : SourceAdmission
new_admission = record { sources = []; next_sweep = none }

sweep : SourceAdmission → ℕ → SourceAdmission
sweep s now = record {
  sources = retain (λ x. not (x.free == source_slots) || ltb (now - x.seen) source_idle) s.sources;
  next_sweep = some (now + 1000000000);
}

abbrev sweep_due : Option ℕ → ℕ → Bool
sweep_due none now = true
sweep_due (some next) now = leb next now

abbrev new_source : SourceGroup → ℕ → Source
new_source g now = record {
  group = g;
  free = source_slots;
  rate = new_bucket source_burst source_refill now;
  seen = now;
}

-- The entry's slot is taken first; a spent rate gives it back, and is kept.
admit_source : Source → ℕ → Source × Bool
unfolding take_token
admit_source x now =
    if x.free == 0
    then (x, false)
    else let (rate, may) = take_token x.rate now in
      if not may
      then (record x { rate = rate }, false)
      else (record x { free = x.free - 1; rate = rate; seen = now }, true)

abbrev pub has_group : SourceGroup → List Source → Bool
has_group g = any λ x. same_group x.group g

-- The entry of the group, which is made where there is none.
admit_in : SourceGroup → ℕ → List Source → List Source × Bool
unfolding admit_source same_group
admit_in g now [] = let (x, may) = admit_source (new_source g now) now in (x ∷ [], may)
admit_in g now (x ∷ xs) =
    let (ys, rest) = admit_in g now xs in
    if same_group x.group g
    then (let (y, may) = admit_source x now in (y ∷ xs, may))
    else (x ∷ ys, rest)

abbrev make_room : SourceAdmission → SourceGroup → ℕ → SourceAdmission
make_room s g now =
    if has_group g s.sources
    then s
    else if leb max_sources (length s.sources) || sweep_due s.next_sweep now
    then sweep s now
    else s

-- `true` is an admission: the caller holds a slot of the group until it drops the permit.
pub try_admit : SourceAdmission → IpAddr → ℕ → SourceAdmission × Bool
unfolding sweep admit_in group_of same_group
try_admit s ip now =
    let g = group_of ip in
    let t = make_room s g now in
    if not (has_group g s.sources) && leb max_sources (length t.sources)
    then (t, false)
    else (let (xs, may) = admit_in g now t.sources in (record t { sources = xs }, may))

-- A permit of the group is dropped.
pub release : SourceAdmission → SourceGroup → SourceAdmission
unfolding same_group
release s g = record s {
  sources = map (λ x. if same_group x.group g then record x { free = x.free + 1 } else x) s.sources;
}
