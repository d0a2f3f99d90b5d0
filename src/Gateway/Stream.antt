-- ===== src/Gateway/Stream.antt =====
-- Programs over a byte stream, as src/gateway/chain.rs uses `AsyncRead` and `AsyncWrite`: they
-- read bytes, which may run out, and write bytes.
use anon_guard.Base.{
  ℕ, Bool, true, false, ◌≡◌, refl, List, [], ◌∷◌, ◌++◌, ltb, ltb-false, if◌then◌else◌, length, take,
  drop, take-length_append, drop-length_append, length-append, arith, Result, ok, err,
}
use anon_guard.Kernel.Dns.{SocksError, unexpected_eof}

-- What has come in and was not read, and what was written.
pub record Stream : Type 0 where
  pub input : List ℕ
  pub output : List ℕ

abbrev pub Io {ℓ} : Type ℓ → Type ℓ
Io A = Stream → Result (A × Stream) SocksError

abbrev continue {ℓ κ} :
    {A : Type ℓ} {B : Type κ}
    → Result (A × Stream) SocksError
    → (A → Io B)
    → Result (B × Stream) SocksError
continue (ok (a, s)) f = f a s
continue (err e) f = err e

infixl 5 ◌>>=◌
abbrev pub ◌>>=◌ {ℓ κ} : {A : Type ℓ} {B : Type κ} → Io A → (A → Io B) → Io B
m >>= f = λ s. continue (m s) f

infixl 5 ◌>>◌
abbrev pub ◌>>◌ {ℓ κ} : {A : Type ℓ} {B : Type κ} → Io A → Io B → Io B
m >> n = m >>= λ a. n

abbrev pub return {ℓ} : {A : Type ℓ} → A → Io A
return a = λ s. ok (a, s)

abbrev pub fail {ℓ} : {A : Type ℓ} → SocksError → Io A
fail e = λ s. err e

-- A computation without input and output.
abbrev pub lift {ℓ} : {A : Type ℓ} → Result A SocksError → Io A
lift (ok a) = return a
lift (err e) = fail e

pub read_exact : ℕ → Io (List ℕ)
read_exact n = λ s.
    if ltb (length s.input) n
    then err unexpected_eof
    else ok (take n s.input, record s { input = drop n s.input })

abbrev first_byte : Stream → List ℕ → Result (ℕ × Stream) SocksError
first_byte s [] = err unexpected_eof
first_byte s (b ∷ bs) = ok (b, record s { input = bs })

-- `read_u8`, and `read_exact` of one byte.
abbrev pub read_u8 : Io ℕ
read_u8 = λ s. first_byte s s.input

abbrev pub write_all : List ℕ → Io (Unit {0})
write_all bytes = λ s. ok (tt, record s { output = s.output ++ bytes })

abbrev pub unless {ℓ} : {A : Type ℓ} → Bool → SocksError → Io A → Io A
unless true e m = m
unless false e m = fail e

-- A read gets what is at the front.
pub read_exact-front :
    (xs ys out : List ℕ) (n : ℕ)
    → length xs ≡ n
    → read_exact n (record { input = xs ++ ys; output = out })
      ≡ ok (xs, record { input = ys; output = out })
unfolding read_exact
read_exact-front xs ys out n h =
    rw
      (
        ltb-false (length (xs ++ ys)) n (omega (arith, length-append xs ys)),
        take-length_append xs ys n h,
        drop-length_append xs ys n h,
      )
      refl
