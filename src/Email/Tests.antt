-- ===== src/Email/Tests.antt =====
-- Runs of the email client.
use packages_go.Prelude.{
  ◌≡◌, refl, true, false, ◌&&◌, List, [], ◌∷◌, Option, none, some, Bytes, codes, ℤ, All, arith, ◌↔◌,
  bytes_eq, contains_any, contains_byte,
}
use packages_go.Email.{ok}
use packages_go.Email.Recipients.{
  SendResult, has, verdict_of, sort_out, verify_all_recipients_accepted,
}
use packages_go.Email.Recipients.Verified.{IsAccepted, verify_all_recipients_accepted_iff}
use packages_go.Email.Message.{header_lines, generate_message_id, after_last_at}
use packages_go.Encoding.Hex.{hex_encode, hex_digit}
use packages_go.Email.Message.Headers.{read_headers}
use packages_go.Email.Client.{
  Config, new, bad_address, Post, Reply, broken, answered, Envelope, is_valid, read_envelope,
  read_response, read_reply, post_of, send_with_message_id,
}
use packages_go.Email.Client.Evidence.{
  unsent, shows_unsent, Confirms, send_with_message_id-Confirms, send_with_message_id-unsent,
}
use packages_go.Email.Client.Injection.{post_of-headers}

abbrev ann : Bytes
ann = codes "ann@example.org"

abbrev bob : Bytes
bob = codes "bob@example.org"

abbrev both_people : List Bytes
both_people = ann ∷ bob ∷ []

abbrev subject : Bytes
subject = codes "Hello"

abbrev body : Bytes
body = codes "See you"

abbrev id : Bytes
id = codes "1@example.org"

abbrev date : Bytes
date = codes "Mon, 02 Jan 2006 15:04:05 UTC"

abbrev config : Config
config = record {
  account_id = codes "acct";
  api_token = codes "token";
  from = codes "alerts@example.org";
}

abbrev result : SendResult
result = record {
  delivered = ann ∷ [];
  queued = bob ∷ [];
  permanent_bounces = [];
  suppressed_recipients = [];
}

abbrev decode : Bytes → Option Envelope
decode text = some (record { success = some true; result = some result })

abbrev until : Bytes → Option ℤ
until header = none

abbrev accepting : Post → Reply
accepting p = answered (record { status = 200; retry_header = []; body = codes "{}"; whole = true })

abbrev unreachable : Post → Reply
unreachable p = broken (record { is_dns = false; op = some (codes "dial") })

accepted_id :
    (send_with_message_id decode until accepting config both_people subject body id date).0 ≡ ok id
unfolding send_with_message_id is_valid contains_any contains_byte bad_address read_reply
    read_response read_envelope verify_all_recipients_accepted sort_out verdict_of has bytes_eq
accepted_id = refl

verify_all_recipients_accepted_iff_example :
    (verify_all_recipients_accepted both_people (some result) ≡ none)
    ↔ All (IsAccepted (some result)) both_people
verify_all_recipients_accepted_iff_example =
    verify_all_recipients_accepted_iff both_people (some result)

send_with_message_id-Confirms_example :
    (id ≡ id)
    × ((send_with_message_id decode until accepting config both_people subject body id date).1
        ≡ post_of decode until config both_people subject body id date ∷ [])
    × Confirms decode until both_people
        (accepting (post_of decode until config both_people subject body id date))
send_with_message_id-Confirms_example =
    send_with_message_id-Confirms decode until accepting config both_people subject body id date id
      accepted_id

send_with_message_id-unsent_example :
    unsent (send_with_message_id decode until unreachable config both_people subject body id date).0
    ≡ (is_valid both_people subject body id
        && shows_unsent decode until
            (unreachable (post_of decode until config both_people subject body id date)))
send_with_message_id-unsent_example =
    send_with_message_id-unsent decode until unreachable config both_people subject body id date

made : new config ≡ ok config
unfolding new contains_byte contains_any
made = refl

passes : is_valid both_people subject body id ≡ true
unfolding is_valid contains_any contains_byte bad_address
passes = refl

post_of-headers_example :
    read_headers [] false
      (post_of decode until config both_people subject body id date).mime_message
    ≡ (header_lines config.from both_people subject id date, body)
post_of-headers_example =
    post_of-headers decode until config config both_people subject body id date made passes
      (omega arith)

message_id : generate_message_id (some (1 ∷ 255 ∷ [])) ann ≡ ok (codes "01ff@example.org")
unfolding generate_message_id after_last_at hex_encode hex_digit
message_id = refl
