-- ===== src/Errors.antt =====
-- Go's `error` values, and pkg/network/errors.go, which classifies them.
-- A text is the list of its bytes. An `error` that may be nil is an `Option Error`.
use control_protocol.Prelude.{
  ℕ, Bool, true, false, ◌||◌, codes, ◌++◌, List, ◌≡◌, refl, ap, ◌⊎◌, inl, inr, arith,
}

abbrev pub Text : Type 0
Text = List ℕ

-- `net_error temporary timeout text` implements `net.Error`; `plain` is made by `errors.New` or by
-- `fmt.Errorf` with no `%w`; `wrapped prefix e` is `fmt.Errorf("prefix%w", e)`.
pub data Error : Type 0 where
  eof unexpected_eof : Error
  net_error : Bool → Bool → Text → Error
  plain : Text → Error
  wrapped : Text → Error → Error

-- `errors.Is` unwraps the error.
unfoldable pub is_eof : Error → Bool
is_eof eof = true
is_eof unexpected_eof = true
is_eof (net_error temporary timeout text) = false
is_eof (plain text) = false
is_eof (wrapped prefix e) = is_eof e

-- A type assertion: a wrapped `net.Error` is not one.
unfoldable pub is_transient_error : Error → Bool
is_transient_error (net_error temporary timeout text) = temporary || timeout
is_transient_error _ = false

-- `err.Error()`
unfoldable pub error_text : Error → Text
error_text eof = codes "EOF"
error_text unexpected_eof = codes "unexpected EOF"
error_text (net_error temporary timeout text) = text
error_text (plain text) = text
error_text (wrapped prefix e) = prefix ++ error_text e

-- The result of a fallible call that returns a value.
pub data Result {ℓ} (A : Type ℓ) : Type ℓ where
  ok : A → Result A
  err : Error → Result A

infixl 5 ◌>>=◌
abbrev pub ◌>>=◌ {ℓ κ} : {A : Type ℓ} {B : Type κ} → Result A → (A → Result B) → Result B
ok a >>= f = f a
err e >>= f = err e

-- No error is both an end of the connection and worth a retry on it.
pub not-is_transient_of-is_eof : (e : Error) → is_eof e ≡ true → is_transient_error e ≡ false
unfolding is_eof is_transient_error
not-is_transient_of-is_eof eof h = refl
not-is_transient_of-is_eof unexpected_eof h = refl
not-is_transient_of-is_eof (net_error temporary timeout text) h = ground arith
not-is_transient_of-is_eof (plain text) h = refl
not-is_transient_of-is_eof (wrapped prefix e) h = refl

pub ok_inj {ℓ} : {A : Type ℓ} (a b : A) → ok a ≡ ok b → a ≡ b
ok_inj a b h = ap (λ r. elim r [ ok x ↦ x | err e ↦ a ]) h

-- A chain that succeeds, taken apart.
pub bind-ok {ℓ κ} :
    {A : Type ℓ} {B : Type κ} (r : Result A) (f : A → Result B) (b : B)
    → (r >>= f) ≡ ok b
    → (a : A) × (r ≡ ok a) × (f a ≡ ok b)
bind-ok (ok a) f b h = (a, refl, h)
bind-ok (err e) f b h = absurd (ground (arith, h))

pub Result-cases {ℓ} :
    {A : Type ℓ} (r : Result A) → ((a : A) × (r ≡ ok a)) ⊎ ((e : Error) × (r ≡ err e))
Result-cases (ok a) = inl (a, refl)
Result-cases (err e) = inr (e, refl)
