-- ===== src/Gateway/Examples.antt =====
-- Tests of the modules of src/gateway at concrete inputs.
use anon_guard.Base.{
  ◌≡◌, refl, true, inl, inr, ◌&&◌, Bool-cases, Option, none, some, some_inj, List, [], ◌∷◌, ◌++◌,
  arith, ◌==◌, ==_iff, ==_true, &&-true, if◌then◌else◌, length, replicate, codes, ok, err, ℕ, sym,
  ap, ◌∙◌,
}
use anon_guard.Kernel.Dns.{build_socks5h_connect_frame, address_bytes, validate_domain}
use anon_guard.Gateway.Socks.{Texts, target_of, socks5_connect_through, intercept_socks5_request}
use anon_guard.Gateway.Socks.Handshake.{IsTexts, socks5_connect_through-intercept_socks5_request}
use anon_guard.Gateway.SessionCache.{SessionCache, empty, new, reserve, finish, cancel}
use anon_guard.Gateway.SessionCache.Shared.{
  Event, ask, completed, cancelled, IsCache, run, run-IsCache,
}

-- The text of an address is a mark and its bytes; every other text is a name.
abbrev marked : ℕ → ℕ → List ℕ → Option (List ℕ)
marked mark n [] = none
marked mark n (c ∷ ip) = if (c == mark) && (length ip == n) then some ip else none

abbrev texts : Texts
texts = record {
  parse4 = marked 4 4;
  parse6 = marked 6 16;
  format4 = λ ip. 4 ∷ ip;
  format6 = λ ip. 6 ∷ ip;
  utf8 = λ h. true;
  sha256 = λ m. replicate 32 0;
}

marked_size : (mark n : ℕ) (h ip : List ℕ) → marked mark n h ≡ some ip → length ip ≡ n
marked_size mark n [] ip e = cc
marked_size mark n (c ∷ h) ip e = elim (Bool-cases ((c == mark) && (length h == n))) [
  | inl good ↦
      let same = some_inj h ip (rw good at e) in
      ap length (sym same) ∙ (==_iff (length h) n).0 (&&-true (c == mark) (length h == n) good).1
  | inr bad ↦ cc (rw bad at e)
]

texts-IsTexts : IsTexts texts
texts-IsTexts = record {
  size4 = marked_size 4 4;
  size6 = marked_size 6 16;
  back4 = λ ip s. rw (==_true (length ip) 4 s) refl;
  other4 = λ ip s. refl;
  back6 = λ ip s. rw (==_true (length ip) 16 s) refl;
  plain_utf8 = λ h p. refl;
}

abbrev site : List ℕ
site = codes "a.example"

abbrev site_frame : List ℕ
site_frame = 5 ∷ 1 ∷ 0 ∷ 3 ∷ 9 ∷ (site ++ (1 ∷ 187 ∷ []))

site_framed : build_socks5h_connect_frame (target_of texts site) 443 true ≡ ok site_frame
unfolding build_socks5h_connect_frame address_bytes validate_domain target_of
site_framed = refl

socks5_connect_through-intercept_socks5_request_example :
    (made sent h : List ℕ) × (socks5_connect_through texts site 443 true
        (record { input = sent ++ (7 ∷ []); output = [] })
      ≡ ok (tt, record { input = 7 ∷ []; output = made }))
    × (intercept_socks5_request texts (record { input = made ++ (8 ∷ []); output = [] })
        ≡ ok (
          record { host = h; port = 443; context = none },
          record { input = 8 ∷ []; output = sent },
        ))
    × (target_of texts h ≡ target_of texts site)
socks5_connect_through-intercept_socks5_request_example =
    socks5_connect_through-intercept_socks5_request texts texts-IsTexts site site_frame (8 ∷ [])
      (7 ∷ []) 443 true (omega arith) site_framed

abbrev two_contexts : SessionCache ℕ
two_contexts = empty 2

abbrev one_context : SessionCache ℕ
one_context = empty 1

opened : new 2 ≡ some two_contexts
unfolding new
opened = refl

-- Two callers wait for one context while another has started.
abbrev history : List (Event ℕ)
history =
    ask (1 ∷ []) (λ v. true)
    ∷ ask (1 ∷ []) (λ v. true)
    ∷ ask (2 ∷ []) (λ v. true)
    ∷ completed 0 (ok 7)
    ∷ []

full :
    (reserve (run two_contexts history) (3 ∷ []) (λ v. true)).1
    ≡ err (codes "Privacy context limit reached")
unfolding reserve finish cancel
full = refl

-- A cancelled initialisation leaves its place to the next context.
reclaimed :
    (reserve
      (run one_context (ask (1 ∷ []) (λ (v : ℕ). true) ∷ cancelled 0 ∷ []))
      (2 ∷ [])
      (λ v. true)).1
    ≡ ok (record { key = 2 ∷ []; address = 1 })
unfolding reserve finish cancel
reclaimed = refl

run-IsCache_example : IsCache 2 (run two_contexts history)
run-IsCache_example = run-IsCache 2 two_contexts history opened
