-- ===== src/Email/Message.antt =====
-- buildRawMessage and generateMessageID of email/client.go.
pub mod Headers
use packages_go.Encoding.Hex.{hex_encode}
use packages_go.Prelude.{
  ℕ, ◌+◌, ◌/◌, ◌%◌, Bool, true, false, List, [], ◌∷◌, ◌++◌, Option, none, some, Bytes, codes, ltb,
  ◌==◌, if◌then◌else◌,
}
use packages_go.Email.{MailError, random_failed, Outcome, ok, err}

-- A line with its CRLF, in front of the rest.
abbrev pub line : Bytes → Bytes → Bytes
line s rest = s ++ b'\r' ∷ b'\n' ∷ rest

-- strings.Join(to, ", ")
unfoldable pub join_comma : List Bytes → Bytes
join_comma [] = []
join_comma (a ∷ []) = a
join_comma (a ∷ b ∷ rest) = a ++ b',' ∷ b' ' ∷ join_comma (b ∷ rest)

-- The header lines; `date` is the clock's reading in RFC 1123 form.
abbrev pub header_lines : Bytes → List Bytes → Bytes → Bytes → Bytes → List Bytes
header_lines from to subject message_id date =
    (codes "From: " ++ from)
    ∷ (codes "To: " ++ join_comma to)
    ∷ (codes "Subject: " ++ subject)
    ∷ (codes "Message-ID: <" ++ (message_id ++ codes ">"))
    ∷ (codes "Date: " ++ date)
    ∷ codes "MIME-Version: 1.0"
    ∷ codes "Content-Type: text/plain; charset=utf-8"
    ∷ codes "Content-Transfer-Encoding: 8bit"
    ∷ []

abbrev pub write_lines : List Bytes → Bytes → Bytes
write_lines [] rest = rest
write_lines (l ∷ ls) rest = line l (write_lines ls rest)

unfoldable pub build_raw_message : Bytes → List Bytes → Bytes → Bytes → Bytes → Bytes → Bytes
build_raw_message from to subject body message_id date =
    write_lines (header_lines from to subject message_id date) (line [] body)

-- What follows the last '@'.
unfoldable pub after_last_at : Bytes → Option Bytes
after_last_at [] = none
after_last_at (c ∷ s) = elim (after_last_at s) [
  | some d ↦ some d
  | none ↦ if c == b'@' then some s else none
]

-- random: the bytes that rand.Read fills in, `none` for its error.
unfoldable pub generate_message_id : Option Bytes → Bytes → Outcome Bytes
generate_message_id none from = err random_failed
generate_message_id (some raw) from =
    let domain : Bytes = elim (after_last_at from) [ some d ↦ d | none ↦ from ] in
    ok (hex_encode raw ++ b'@' ∷ domain)
