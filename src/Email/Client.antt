-- ===== src/Email/Client.antt =====
-- New, Send and SendWithMessageID of email/client.go.
pub mod Evidence
pub mod Injection
use packages_go.Prelude.{
  ℕ, Bool, true, false, not, ◌||◌, ◌&&◌, List, [], ◌∷◌, Option, none, some, Bytes, codes, is_empty,
  contains_byte, contains_any, take, ltb, leb, ◌==◌, if◌then◌else◌, ℤ,
}
use packages_go.Email.{
  TransportError, MailError, unsubmitted, rate_limit, request_failed, invalid, gateway_error,
  read_failed, decode_failed, rejected, no_verdict, random_failed, is_unsubmitted_transport_error,
  Outcome, ok, err,
}
use packages_go.Email.Delivery.{retry_after}
use packages_go.Email.Recipients.{SendResult, verify_all_recipients_accepted}
use packages_go.Email.Message.{build_raw_message, generate_message_id}

pub record Config : Type 0 where
  pub account_id : Bytes
  pub api_token : Bytes
  pub from : Bytes

-- "\r\n"
abbrev pub crlf : Bytes
crlf = b'\r' ∷ b'\n' ∷ []

-- A client holds its configuration.
unfoldable pub new : Config → Outcome Config
new cfg =
    if is_empty cfg.account_id
    then err invalid
    else if is_empty cfg.api_token
    then err invalid
    else if is_empty cfg.from || (not (contains_byte b'@' cfg.from) || contains_any crlf cfg.from)
    then err invalid
    else ok cfg

pub record Post : Type 0 where
  pub account_id : Bytes
  pub api_token : Bytes
  pub from : Bytes
  pub recipients : List Bytes
  pub mime_message : Bytes

-- `whole` is whether reading the first MiB of the body ends without an error.
pub record Response : Type 0 where
  pub status : ℕ
  pub retry_header : Bytes
  pub body : Bytes
  pub whole : Bool

pub data Reply : Type 0 where
  broken : TransportError → Reply
  answered : Response → Reply

-- The fields of cloudflareResponse that decide; a null and a missing key are both `none`.
pub record Envelope : Type 0 where
  pub success : Option Bool
  pub result : Option SendResult

unfoldable pub bad_address : List Bytes → Bool
bad_address [] = false
bad_address (a ∷ to) = (is_empty a || contains_any crlf a) || bad_address to

-- The checks in front of the request.
unfoldable pub is_valid : List Bytes → Bytes → Bytes → Bytes → Bool
is_valid to subject body message_id =
    not (is_empty message_id || contains_any (b'\r' ∷ b'\n' ∷ b'<' ∷ b'>' ∷ []) message_id)
    && (not (is_empty to || (is_empty subject || is_empty body))
        && (not (contains_any crlf subject) && not (bad_address to)))

-- decode: json.Unmarshal of a body; until: how far off an HTTP date is.
module _ (decode : Bytes → Option Envelope) (until : Bytes → Option ℤ) where
  abbrev accepted_verdict : Bytes → Option MailError → Outcome Bytes
  accepted_verdict message_id none = ok message_id
  accepted_verdict message_id (some e) = err e

  -- The switch on the envelope's verdict.
  unfoldable pub read_envelope : List Bytes → Bytes → ℕ → Envelope → Outcome Bytes
  read_envelope to message_id status e = elim e.success [
    | none ↦ err no_verdict
    | some false ↦ err (unsubmitted rejected)
    | some true ↦
        if status == 200
        then accepted_verdict message_id (verify_all_recipients_accepted to e.result)
        else err no_verdict
  ]

  unfoldable pub read_response : List Bytes → Bytes → Response → Outcome Bytes
  read_response to message_id r =
      if r.status == 429
      then err (unsubmitted (rate_limit 429 (retry_after until r.retry_header)))
      else if leb 500 r.status
      then err gateway_error
      else if not r.whole
      then err read_failed
      else elim (decode (take 1048576 r.body)) [
        | none ↦ err decode_failed
        | some e ↦ read_envelope to message_id r.status e
      ]

  unfoldable pub read_reply : List Bytes → Bytes → Reply → Outcome Bytes
  read_reply to message_id (broken e) =
      if is_unsubmitted_transport_error e
      then err (unsubmitted (request_failed e))
      else err (request_failed e)
  read_reply to message_id (answered r) = read_response to message_id r

  abbrev pub post_of : Config → List Bytes → Bytes → Bytes → Bytes → Bytes → Post
  post_of c to subject body message_id date = record {
    account_id = c.account_id;
    api_token = c.api_token;
    from = c.from;
    recipients = to;
    mime_message = build_raw_message c.from to subject body message_id date;
  }

  -- exchange: http.Client.Do and the reading of its body. The posts that the call makes are beside
  -- its result.
  module _ (exchange : Post → Reply) where
    unfoldable pub send_with_message_id :
        Config → List Bytes → Bytes → Bytes → Bytes → Bytes → Outcome Bytes × List Post
    send_with_message_id c to subject body message_id date =
        if not (is_valid to subject body message_id)
        then (err invalid, [])
        else (let p = post_of c to subject body message_id date in
            (read_reply to message_id (exchange p), p ∷ []))

    abbrev send_generated :
        Config → List Bytes → Bytes → Bytes → Bytes → Outcome Bytes → Outcome Bytes × List Post
    send_generated c to subject body date (err e) = (err (unsubmitted e), [])
    send_generated c to subject body date (ok id) = send_with_message_id c to subject body id date

    unfoldable pub send :
        Option Bytes → Config → List Bytes → Bytes → Bytes → Bytes → Outcome Bytes × List Post
    send random c to subject body date =
        send_generated c to subject body date (generate_message_id random c.from)
