-- ===== src/Email.antt =====
-- email/: the error values of a send, and its parts.
pub mod Delivery
pub mod Recipients
pub mod Message
pub mod Client
pub mod Tests
use packages_go.Prelude.{
  ℕ, Bool, true, false, ◌||◌, List, Option, none, some, Bytes, codes, bytes_eq,
}

-- An error of http.Client.Do: whether its chain has a *net.DNSError, and the Op of the first
-- *net.OpError in it.
pub record TransportError : Type 0 where
  pub is_dns : Bool
  pub op : Option Bytes

-- The errors that Send returns. The texts of those built with errors.New and fmt.Errorf are not
-- modelled.
pub data MailError : Type 0 where
  -- unsubmittedError{err}
  unsubmitted : MailError → MailError
  -- &RateLimitError{StatusCode, RetryAfter}, in nanoseconds
  rate_limit : ℕ → ℕ → MailError
  -- &RecipientError{Bounced, Suppressed, Unaccepted}
  recipients : List Bytes → List Bytes → List Bytes → MailError
  -- fmt.Errorf("email: request failed: %w", err)
  request_failed : TransportError → MailError
  invalid : MailError
  gateway_error : MailError
  read_failed : MailError
  decode_failed : MailError
  rejected : MailError
  no_verdict : MailError
  random_failed : MailError

-- errors.As for an unsubmittedError, and for a *RateLimitError: the only error that wraps another
-- of this package is unsubmittedError.
unfoldable pub is_unsubmitted : MailError → Bool
is_unsubmitted (unsubmitted e) = true
is_unsubmitted _ = false

unfoldable pub is_rate_limited : MailError → Bool
is_rate_limited (unsubmitted e) = is_rate_limited e
is_rate_limited (rate_limit status after) = true
is_rate_limited _ = false

-- isUnsubmittedTransportError
unfoldable pub is_unsubmitted_transport_error : TransportError → Bool
is_unsubmitted_transport_error e =
    e.is_dns || elim e.op [ none ↦ false | some op ↦ bytes_eq op (codes "dial") ]

pub data Outcome {ℓ} (A : Type ℓ) : Type ℓ where
  ok : A → Outcome A
  err : MailError → Outcome A
