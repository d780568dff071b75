-- ===== src/Pg/Export.antt =====
-- pg/export.go, and validateExportReceipt of pg/runner.go. Times are nanoseconds since Go's zero
-- time; a duration saturates at the largest int64.
use packages_go.Prelude.{
  ℕ, suc, ◌+◌, ◌-◌, ◌*◌, ◌^◌, ◌≤◌, ◌<◌, ◌≡◌, ◌≢◌, refl, Bool, true, false, not, [], ◌∷◌, Option,
  none, some, Bytes, min, ltb, ◌==◌, leb_ℤ, if◌then◌else◌, ℤ, pos, pos_part, length, arith,
}
use packages_go.Encoding.Hex.{hex_value}

pub record ExportReceipt : Type 0 where
  pub created_at : ℕ
  pub sha256 : Bytes

abbrev pub max_duration : ℕ
max_duration = 2 ^ 63 - 1

-- 24 * time.Hour
abbrev pub day : ℕ
day = 24 * (3600 * 10 ^ 9)

pub data ReceiptError : Type 0 where
  timestamp_required in_future stale bad_digest : ReceiptError

push_byte : Option ℕ → Option ℕ → Option Bytes → Option Bytes
push_byte (some hi) (some lo) (some rest) = some ((hi * 16 + lo) ∷ rest)
push_byte _ _ _ = none

-- hex.DecodeString
unfoldable pub hex_decode : Bytes → Option Bytes
unfolding push_byte
hex_decode [] = some []
hex_decode (c ∷ []) = none
hex_decode (c ∷ d ∷ s) = push_byte (hex_value c) (hex_value d) (hex_decode s)

unfoldable pub age_limit : ℤ → ℕ
age_limit max_age = if leb_ℤ max_age (pos 0) then day else pos_part max_age

unfoldable pub is_digest : Bytes → Bool
unfolding hex_decode
is_digest s = elim (hex_decode s) [ none ↦ false | some digest ↦ length digest == 32 ]

unfoldable pub validate_export_receipt : ExportReceipt → ℕ → ℤ → Option ReceiptError
validate_export_receipt receipt now max_age =
    if receipt.created_at == 0
    then some timestamp_required
    else if ltb now receipt.created_at
    then some in_future
    else if ltb (age_limit max_age) (min (now - receipt.created_at) max_duration)
    then some stale
    else if not (is_digest receipt.sha256)
    then some bad_digest
    else none

abbrev pub IsHex : Bytes → Type 0
IsHex [] = Unit
IsHex (c ∷ s) = (hex_value c ≢ none) × IsHex s

push_byte-eq-some :
    (hi lo : Option ℕ) (rest : Option Bytes) (digest : Bytes)
    → push_byte hi lo rest ≡ some digest
    → (hi ≢ none)
      × (lo ≢ none)
      × ((tail : Bytes) × (rest ≡ some tail) × (length digest ≡ suc (length tail)))
unfolding push_byte
push_byte-eq-some (some hi) (some lo) (some tail) digest e =
    (λ h. cc, λ h. cc, (tail, refl, ground arith))
push_byte-eq-some none _ _ digest e = cc
push_byte-eq-some (some hi) none _ digest e = cc
push_byte-eq-some (some hi) (some lo) none digest e = cc

hex_decode-length :
    (s digest : Bytes) → hex_decode s ≡ some digest → (length s ≡ 2 * length digest) × IsHex s
unfolding hex_decode
hex_decode-length [] digest e = (ground arith, tt)
hex_decode-length (c ∷ []) digest e = cc
hex_decode-length (c ∷ d ∷ s) digest e =
    let (high, low, (tail, decoded, size)) =
      push_byte-eq-some (hex_value c) (hex_value d) (hex_decode s) digest e in
    let (length_eq, hex) = hex_decode-length s tail decoded in (omega arith, (high, (low, hex)))

-- A receipt that is fresh at `now`: made in the past, within the limit, with a digest of 64
-- hexadecimal digits.
pub record IsFresh (receipt : ExportReceipt) (now : ℕ) (limit : ℕ) : Type 0 where
  pub dated : 0 < receipt.created_at
  pub past : receipt.created_at ≤ now
  pub recent : now ≤ receipt.created_at + limit
  pub digest_length : length receipt.sha256 ≡ 64
  pub digest_hex : IsHex receipt.sha256

is_digest-length :
    (s : Bytes)
    → is_digest s ≡ true
    → (digest : Bytes) × (hex_decode s ≡ some digest) × (length digest ≡ 32)
unfolding is_digest
is_digest-length s e = ground arith

is_digest-IsHex : (s : Bytes) → is_digest s ≡ true → (length s ≡ 64) × IsHex s
is_digest-IsHex s e =
    let (digest, decoded, size) = is_digest-length s e in
    let (doubled, hex) = hex_decode-length s digest decoded in (omega arith, hex)

validate_export_receipt-checks :
    (receipt : ExportReceipt) (now : ℕ) (max_age : ℤ)
    → validate_export_receipt receipt now max_age ≡ none
    → (0 < receipt.created_at)
      × (receipt.created_at ≤ now)
      × (min (now - receipt.created_at) max_duration ≤ age_limit max_age)
      × (is_digest receipt.sha256 ≡ true)
unfolding validate_export_receipt
validate_export_receipt-checks receipt now max_age e = ground arith

-- A receipt passes only if it is fresh, the limit being 24 hours when none is set.
pub validate_export_receipt-IsFresh :
    (receipt : ExportReceipt) (now : ℕ) (max_age : ℤ)
    → age_limit max_age < max_duration
    → validate_export_receipt receipt now max_age ≡ none
    → IsFresh receipt now (age_limit max_age)
validate_export_receipt-IsFresh receipt now max_age small e =
    let (dated, past, recent, digest) = validate_export_receipt-checks receipt now max_age e in
    let (size, hex) = is_digest-IsHex receipt.sha256 digest in
    record {
      dated = dated;
      past = past;
      recent = omega arith;
      digest_length = size;
      digest_hex = hex;
    }
