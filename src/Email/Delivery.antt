-- ===== src/Email/Delivery.antt =====
-- retryAfter of email/delivery.go.
use packages_go.Prelude.{
  ℕ, ◌*◌, ◌^◌, ◌≤◌, Option, none, some, Bytes, is_empty, parse_uint, ltb, if◌then◌else◌, ℤ, pos,
  negsuc, arith,
}

-- 24 * time.Hour
abbrev pub maximum : ℕ
maximum = 86400 * 10 ^ 9

abbrev clamped : ℕ → ℕ
clamped n = if ltb maximum n then maximum else n

-- until: http.ParseTime, then time.Until of the time that it gives.
unfoldable pub retry_after : (Bytes → Option ℤ) → Bytes → ℕ
retry_after until header = if is_empty header then 0 else elim (parse_uint header) [
  | some seconds ↦ if ltb 86400 seconds then maximum else seconds * 10 ^ 9
  | none ↦ elim (until header) [ none ↦ 0 | some (negsuc n) ↦ 0 | some (pos n) ↦ clamped n ]
]

-- The hint is at most a day, whatever the header says.
retry_after-le : (until : Bytes → Option ℤ) (header : Bytes) → retry_after until header ≤ maximum
unfolding retry_after
retry_after-le until header = ground arith
