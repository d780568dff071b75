-- ===== src/Prelude/Decimal.antt =====
-- Decimal text: the %d verb, strconv.ParseUint, strconv.Atoi and strconv.ParseInt in base 10.
use Prim.Native.Nat.{ℕ, zero, suc, ◌+◌, ◌-◌, ◌*◌, ◌/◌, ◌%◌, ◌^◌, ◌<◌}
use mathlib.Core.Path.{◌≡◌, refl, sym, ap, subst}
use mathlib.Core.Logic.{inl, inr, ◌≢◌}
use mathlib.Core.Bool.{Bool, true, false, ◌&&◌}
use mathlib.Core.Option.{Option, none, some}
use mathlib.Core.List.{[], ◌∷◌, ◌++◌}
use native.Mathlib.Omega.{arith}
use packages_go.Prelude.Tests.{leb, ltb, ◌==◌, if◌then◌else◌, Bool-cases}
use packages_go.Prelude.Lists.{All}
use packages_go.Prelude.Text.{Bytes}
use packages_go.Prelude.Int.{ℤ, pos, negsuc}

-- The digits of n in front of `rest`; a number has at most as many digits as its value plus one.
unfoldable pub digits_onto : ℕ → ℕ → Bytes → Bytes
digits_onto zero n rest = rest
digits_onto (suc fuel) n rest =
    let more = digits_onto fuel (n / 10) ((b'0' + n % 10) ∷ rest) in
    if ltb n 10 then (b'0' + n) ∷ rest else more

unfoldable pub decimal : ℕ → Bytes
unfolding digits_onto
decimal n = digits_onto (suc n) n []

unfoldable pub decimal_ℤ : ℤ → Bytes
unfolding decimal
decimal_ℤ (pos n) = decimal n
decimal_ℤ (negsuc n) = b'-' ∷ decimal (suc n)

abbrev pub is_digit : ℕ → Bool
is_digit c = leb b'0' c && leb c b'9'

unfoldable pub digits_value : ℕ → Bytes → Option ℕ
digits_value acc [] = some acc
digits_value acc (c ∷ s) =
    let more = digits_value (acc * 10 + (c - b'0')) s in if is_digit c then more else none

-- strconv.ParseUint(s, 10, 64)
unfoldable pub parse_uint : Bytes → Option ℕ
unfolding digits_value
parse_uint [] = none
parse_uint (c ∷ s) = elim (digits_value 0 (c ∷ s)) [
  | none ↦ none
  | some n ↦ if ltb n (2 ^ 64) then some n else none
]

-- strconv.ParseInt(s, 10, 64) and, on a 64-bit machine, strconv.Atoi(s)
abbrev signed : Bool → Option ℕ → Option ℤ
signed negative none = none
signed false (some n) = if ltb n (2 ^ 63) then some (pos n) else none
signed true (some zero) = some (pos 0)
signed true (some (suc n)) = if ltb n (2 ^ 63) then some (negsuc n) else none

unfoldable pub parse_int : Bytes → Option ℤ
unfolding parse_uint
parse_int [] = none
parse_int (c ∷ s) =
    if c == b'-'
    then signed true (parse_uint s)
    else if c == b'+'
    then signed false (parse_uint s)
    else signed false (parse_uint (c ∷ s))

digits_value-digits_onto :
    (fuel n : ℕ) (rest : Bytes)
    → n < fuel
    → digits_value 0 (digits_onto fuel n rest) ≡ digits_value n rest
unfolding digits_value digits_onto
digits_value-digits_onto zero n rest h = elim h [ ]
digits_value-digits_onto (suc fuel) n rest h =
    ground (arith, digits_value-digits_onto fuel (n / 10) ((b'0' + n % 10) ∷ rest))

-- ParseUint reads back what %d prints.
pub digits_value-decimal : (n : ℕ) → digits_value 0 (decimal n) ≡ some n
unfolding decimal digits_value
digits_value-decimal n = digits_value-digits_onto (suc n) n [] (omega arith)

pub decimal-injective : (m n : ℕ) → decimal m ≡ decimal n → m ≡ n
decimal-injective m n e = cc (digits_value-decimal m, digits_value-decimal n)

-- The printed digits are digits, in front of whatever follows.
digits_onto-All :
    (fuel n : ℕ) (rest : Bytes)
    → All (λ c. is_digit c ≡ true) rest
    → All (λ c. is_digit c ≡ true) (digits_onto fuel n rest)
unfolding digits_onto
digits_onto-All zero n rest h = h
digits_onto-All (suc fuel) n rest h = elim (Bool-cases (ltb n 10)) [
  | inl e ↦ rw e (ground arith, h)
  | inr e ↦ rw e (digits_onto-All fuel (n / 10) _ (ground arith, h))
]

pub decimal-All : (n : ℕ) → All (λ c. is_digit c ≡ true) (decimal n)
unfolding decimal
decimal-All n = digits_onto-All (suc n) n [] tt

pub Digit-ne : (c k : ℕ) → is_digit c ≡ true → is_digit k ≡ false → c ≢ k
Digit-ne c k h e = ground arith

Digits-ne :
    (k : ℕ) (s : Bytes) → is_digit k ≡ false → All (λ c. is_digit c ≡ true) s → All (λ c. c ≢ k) s
Digits-ne k [] e h = tt
Digits-ne k (c ∷ s) e (d, h) = (Digit-ne c k d e, Digits-ne k s e h)

-- A printed integer holds no byte but digits and the sign.
pub decimal_ℤ-ne : (k : ℕ) (a : ℤ) → is_digit k ≡ false → b'-' ≢ k → All (λ c. c ≢ k) (decimal_ℤ a)
unfolding decimal_ℤ
decimal_ℤ-ne k (pos n) e s = Digits-ne k _ e (decimal-All n)
decimal_ℤ-ne k (negsuc n) e s = (s, Digits-ne k _ e (decimal-All (suc n)))

decimal-no_sign : (n : ℕ) (s : Bytes) → decimal n ≡ b'-' ∷ s → ⊥
decimal-no_sign n s e =
    let digits : All (λ c. is_digit c ≡ true) (b'-' ∷ s) =
      subst (λ (t : Bytes). All (λ c. is_digit c ≡ true) t) e (decimal-All n) in
    cc digits.0

pub decimal_ℤ-injective : (a b : ℤ) → decimal_ℤ a ≡ decimal_ℤ b → a ≡ b
unfolding decimal_ℤ
decimal_ℤ-injective (pos m) (pos n) e = ap pos (decimal-injective m n e)
decimal_ℤ-injective (pos m) (negsuc n) e = absurd (decimal-no_sign m (decimal (suc n)) e)
decimal_ℤ-injective (negsuc m) (pos n) e = absurd (decimal-no_sign n (decimal (suc m)) (sym e))
decimal_ℤ-injective (negsuc m) (negsuc n) e =
    let same : decimal (suc m) ≡ decimal (suc n) = cc in
    let equal : suc m ≡ suc n = decimal-injective (suc m) (suc n) same in ap negsuc (omega arith)

-- Two texts that end at their first separator have the same parts when they are the same.
pub split_at-injective :
    (p : ℕ) (a b x y : Bytes)
    → All (λ c. c ≢ p) a
    → All (λ c. c ≢ p) b
    → a ++ (p ∷ x) ≡ b ++ (p ∷ y)
    → (a ≡ b) × (x ≡ y)
split_at-injective p [] [] x y h k e = (refl, cc)
split_at-injective p [] (d ∷ b) x y h k e = absurd (k.0 cc)
split_at-injective p (c ∷ a) [] x y h k e = absurd (h.0 cc)
split_at-injective p (c ∷ a) (d ∷ b) x y h k e =
    let (same, rest) = split_at-injective p a b x y h.1 k.1 (cc) in (cc, rest)
