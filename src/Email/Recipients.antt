-- ===== src/Email/Recipients.antt =====
-- verifyAllRecipientsAccepted of email/client.go.
pub mod Verified
use packages_go.Prelude.{
  Bool-cases, sym, ◌∙◌, ap, ℕ, ◌≡◌, ◌≢◌, ◌↔◌, refl, Bool, true, false, not, ◌&&◌, ◌||◌, List, [],
  ◌∷◌, ◌++◌, Option, none, some, Bytes, bytes_eq, bytes_eq_iff, bytes_eq_refl, is_empty, All,
  if◌then◌else◌, arith,
}
use mathlib.Core.List.{Memᴰ}
use mathlib.Core.Logic.{◌⊎◌, inl, inr}
use packages_go.Email.{MailError, recipients}

pub record SendResult : Type 0 where
  pub delivered : List Bytes
  pub queued : List Bytes
  pub permanent_bounces : List Bytes
  pub suppressed_recipients : List Bytes

-- A look-up in the map that holds exactly the entries of a list.
unfoldable pub has : List Bytes → Bytes → Bool
has [] r = false
has (x ∷ xs) r = bytes_eq x r || has xs r

pub data Verdict : Type 0 where
  bounced suppressed accepted unaccepted : Verdict

-- The switch for one recipient; the maps are empty for a nil result.
unfoldable pub verdict_of : Option SendResult → Bytes → Verdict
verdict_of none r = unaccepted
verdict_of (some s) r =
    if has s.permanent_bounces r
    then bounced
    else if has s.suppressed_recipients r
    then suppressed
    else if has s.delivered r || has s.queued r
    then accepted
    else unaccepted

-- bouncedOut, suppressedOut and unacceptedOut.
pub record Dropped : Type 0 where
  pub bounced_out : List Bytes
  pub suppressed_out : List Bytes
  pub unaccepted_out : List Bytes

abbrev pub drop_one : Verdict → Bytes → Dropped → Dropped
drop_one bounced r d = record d { bounced_out = d.bounced_out ++ r ∷ [] }
drop_one suppressed r d = record d { suppressed_out = d.suppressed_out ++ r ∷ [] }
drop_one accepted r d = d
drop_one unaccepted r d = record d { unaccepted_out = d.unaccepted_out ++ r ∷ [] }

unfoldable pub sort_out : Option SendResult → List Bytes → Dropped → Dropped
sort_out result [] d = d
sort_out result (r ∷ rs) d = sort_out result rs (drop_one (verdict_of result r) r d)

unfoldable pub verify_all_recipients_accepted : List Bytes → Option SendResult → Option MailError
verify_all_recipients_accepted requested result =
    let d =
      sort_out result requested
        (record { bounced_out = []; suppressed_out = []; unaccepted_out = [] }) in
    if is_empty d.bounced_out && (is_empty d.suppressed_out && is_empty d.unaccepted_out)
    then none
    else some (recipients d.bounced_out d.suppressed_out d.unaccepted_out)
