-- ===== src/Kernel/ExitPolicy/Connect.antt =====
-- What the connection path of src/kernel/exit_policy.rs can reach.
use anon_guard.Base.{
  ℕ, ◌≡◌, inl, inr, true, not, Option, List, [], ◌∷◌, map, Bool-cases, any, All, Result, ok, err,
  Result-cases,
}
use anon_guard.Kernel.Ip.{IpAddr, SocketAddr}
use anon_guard.Kernel.ExitPolicy.{
  ExitPolicy, IoError, permission_denied, not_found, connect_failed, Attempt, connected, failed,
  deadline_passed, is_ip_permitted, validate_resolved_ips, Connection, after_attempt, try_each,
  connect_resolved, is_permitted, resolve_and_connect,
}

abbrev ips : List SocketAddr → List IpAddr
ips = map λ a. a.ip

abbrev pub Reachable : ExitPolicy → SocketAddr → Type 0
Reachable p addr = is_ip_permitted p addr.ip ≡ true

validate-All :
    (p : ExitPolicy) (addrs : List SocketAddr) (u : Unit {0})
    → validate_resolved_ips p (ips addrs) ≡ ok u
    → All (Reachable p) addrs
unfolding validate_resolved_ips
validate-All p [] u h = tt
validate-All p (a ∷ addrs) u h = elim (Bool-cases (is_ip_permitted p a.ip)) [
  | inl yes_ ↦ (yes_, validate-All p addrs u (rw yes_ at h))
  | inr no_ ↦ cc (rw no_ at h)
]

validate-any :
    (p : ExitPolicy) (addrs : List SocketAddr)
    → any (λ a. not (is_ip_permitted p a.ip)) addrs ≡ true
    → validate_resolved_ips p (ips addrs) ≡ err permission_denied
unfolding validate_resolved_ips
validate-any p [] h = cc
validate-any p (a ∷ addrs) h = elim (Bool-cases (is_ip_permitted p a.ip)) [
  | inl yes_ ↦ rw yes_ (validate-any p addrs (rw yes_ at h))
  | inr no_ ↦ rw no_
]

-- The address connected to is one of those tried, and only listed addresses are tried.
abbrev pub Tried : (SocketAddr → Type 0) → Connection → Type 0
Tried P (tried, ok a) = All P tried × P a
Tried P (tried, err e) = All P tried

after_attempt-Tried :
    (P : SocketAddr → Type 0) (a : SocketAddr) (rest : Connection) (o : Attempt)
    → P a
    → Tried P rest
    → Tried P (after_attempt a rest o)
after_attempt-Tried P a rest connected h t = ((h, tt), h)
after_attempt-Tried P a (tried, ok x) failed h t = ((h, t.0), t.1)
after_attempt-Tried P a (tried, err e) failed h t = (h, t)
after_attempt-Tried P a rest deadline_passed h t = (h, tt)

try_each-Tried :
    (P : SocketAddr → Type 0) (connect : SocketAddr → Attempt) (last : IoError)
    (addrs : List SocketAddr)
    → All P addrs
    → Tried P (try_each connect last addrs)
unfolding try_each
try_each-Tried P connect last [] h = tt
try_each-Tried P connect last (a ∷ addrs) h =
    after_attempt-Tried P a _ (connect a) h.0 (try_each-Tried P connect connect_failed addrs h.1)

Tried-nothing : (P : SocketAddr → Type 0) (e : IoError) → Tried P ([], err e)
Tried-nothing P e = tt

connect_resolved-Tried :
    (p : ExitPolicy) (connect : SocketAddr → Attempt) (addrs : List SocketAddr)
    → Tried (Reachable p) (connect_resolved p connect addrs)
unfolding connect_resolved
connect_resolved-Tried p connect addrs = elim (Result-cases (validate_resolved_ips p (ips addrs))) [
  | inl (u, e) ↦
      rw e (try_each-Tried (Reachable p) connect not_found addrs (validate-All p addrs u e))
  | inr (x, e) ↦ rw e tt
]

module _ (parse_ip : List ℕ → Option IpAddr) (p : ExitPolicy) (connect : SocketAddr → Attempt) where
  -- Whatever a name resolves to, no connection is even tried to an address that the policy
  -- forbids; the one that is made is to a permitted address.
  pub resolve_and_connect-Tried :
      (resolved : Result (List SocketAddr) IoError) (host : List ℕ) (port : ℕ)
      → Tried (Reachable p) (resolve_and_connect parse_ip p resolved connect host port)
  unfolding resolve_and_connect
  resolve_and_connect-Tried (ok addrs) host port =
      elim (Bool-cases (is_permitted parse_ip p host port)) [
        | inl may ↦ rw may (connect_resolved-Tried p connect addrs)
        | inr not_ ↦ rw not_ tt
      ]
  resolve_and_connect-Tried (err e) host port =
      elim (Bool-cases (is_permitted parse_ip p host port)) [
        | inl may ↦ rw may tt
        | inr not_ ↦ rw not_ tt
      ]

  -- One forbidden address among the answers is enough: the whole answer is refused, and nothing
  -- is tried.
  pub resolve_and_connect-rebinding :
      (addrs : List SocketAddr) (host : List ℕ) (port : ℕ)
      → any (λ a. not (is_ip_permitted p a.ip)) addrs ≡ true
      → resolve_and_connect parse_ip p (ok addrs) connect host port ≡ ([], err permission_denied)
  unfolding resolve_and_connect connect_resolved
  resolve_and_connect-rebinding addrs host port h =
      elim (Bool-cases (is_permitted parse_ip p host port)) [
        | inl may ↦ rw (may, validate-any p addrs h)
        | inr not_ ↦ rw not_
      ]
