-- ===== src/Errors.antt =====
-- The error chains of auth/errors.go, github/errors.go and fulcrumprojects/errors.go: each package
-- has its own type of codes, and the same Error, Unwrap, IsCode and errorf.
-- Message texts are not modelled.
use packages_go.Prelude.{refl, Bool, false, ◌≡◌, arith, ◌||◌, if◌then◌else◌, true}

pub data GoError (C : Type 0) : Type 0 where
  -- &Error{Code: code, Err: inner}
  coded : C → GoError C → GoError C
  -- an error of another type with an Unwrap method
  wrapped : GoError C → GoError C
  -- an error with nothing to unwrap
  other : GoError C

pub data Result {ℓ} (C : Type 0) (A : Type ℓ) : Type ℓ where
  ok : A → Result C A
  err : GoError C → Result C A

infixl 5 ◌>>=◌
abbrev pub ◌>>=◌ {ℓ κ} :
    {C : Type 0} {A : Type ℓ} {B : Type κ} → Result C A → (A → Result C B) → Result C B
ok a >>= f = f a
err e >>= f = err e

-- The formatted texts of these packages wrap no error: %v, not %w.
abbrev pub errorf : {C : Type 0} → C → GoError C
errorf code = coded code other

abbrev pub fail {ℓ} : {C : Type 0} {A : Type ℓ} → C → Result C A
fail code = err (errorf code)

module _ {C : Type 0} (same : C → C → Bool) where
  unfoldable pub is_code : GoError C → C → Bool
  is_code (coded c inner) code = same c code || is_code inner code
  is_code (wrapped inner) code = is_code inner code
  is_code other code = false

-- The error that errorf builds carries its code and no other.
pub is_code-errorf :
    {C : Type 0} (same : C → C → Bool) (c code : C) → is_code same (errorf c) code ≡ same c code
unfolding is_code
is_code-errorf same c code = ground arith

-- What a chain that succeeds has gone through.
pub bind-ok {ℓ κ} :
    {C : Type 0} {A : Type ℓ} {B : Type κ} (x : Result C A) (f : A → Result C B) (b : B)
    → x >>= f ≡ ok b
    → (a : A) × (x ≡ ok a) × (f a ≡ ok b)
bind-ok (ok a) f b h = (a, refl, h)
bind-ok (err e) f b h = cc

-- What a guard that fails with a code has let through.
pub unguarded {ℓ} :
    {C : Type 0} {A : Type ℓ} (code : C) (t : Bool) (rest : Result C A) (a : A)
    → (if t then fail code else rest) ≡ ok a
    → (t ≡ false) × (rest ≡ ok a)
unguarded code true rest a h = cc
unguarded code false rest a h = (refl, h)
