-- ===== src/S3/Multipart/Transient.antt =====
-- When uploadPartWithRetry of s3/multipart.go sends a part again.
use packages_go.Prelude.{
  ℕ, suc, ◌+◌, ◌≤◌, ◌≡◌, ◌≢◌, refl, sym, ◌∙◌, ap, Bool, true, false, List, [], ◌∷◌, ◌++◌,
  append_assoc, append-nil, Option, none, some, Bytes, contains, has_prefix, decimal, is_digit,
  Digit-ne, decimal-All, arith, length, ltb, if◌then◌else◌, Bool-cases, All, inl, inr, is_empty,
}
use packages_go.S3.Wire.{
  Failure, text, plain, is_success, Result, ok, err, Request, upload, Reply, broken, answered,
  World, send,
}
use packages_go.S3.Multipart.{
  is_transient, part_etag, after_part, after_wait, upload_part, upload_attempts,
  upload_part_with_retry,
}
use packages_go.S3.Multipart.Retry.{Entry}

abbrev pub transient_error : Result Bytes → Bool
transient_error (ok etag) = false
transient_error (err e) = is_transient e

abbrev pub is_broken : Reply → Bool
is_broken (broken message) = true
is_broken (answered status etag body whole) = false

-- No digits hold a text that starts with another character.
contains-digits :
    (s : Bytes) (c : ℕ) (needle : Bytes)
    → All (λ (d : ℕ). is_digit d ≡ true) s
    → is_digit c ≡ false
    → contains s (c ∷ needle) ≡ false
unfolding contains has_prefix
contains-digits [] c needle h k = refl
contains-digits (d ∷ s) c needle (e, h) k =
    let ne : d ≢ c = Digit-ne d c e k in
    let rest : contains s (c ∷ needle) ≡ false = contains-digits s c needle h k in ground arith

status_not_transient :
    (status : ℕ)
    → is_transient (plain (text "s3: put multipart part returned status " ++ decimal status))
      ≡ false
unfolding is_transient text contains has_prefix
status_not_transient status =
    let absent = λ (c : ℕ) (needle : Bytes) (k : is_digit c ≡ false).
      contains-digits (decimal status) c needle (decimal-All status) k in
    rw
      (
        absent b'u' _ refl,
        absent b'c' _ refl,
        absent b'b' _ refl,
        absent b'u' _ refl,
        absent b'E' _ refl,
      )
      refl

missing_not_transient :
    is_transient (plain (text "s3: put multipart part response is missing an ETag")) ≡ false
unfolding is_transient text contains has_prefix
missing_not_transient = refl

-- The error of an attempt is transient exactly when the connection broke: no status that the endpoint
-- answers with, and no answer without an ETag, is taken for a broken connection by its text.
pub transient_error-part_etag :
    (reply : Reply) → transient_error (part_etag reply) ≡ is_broken reply
unfolding part_etag is_transient
transient_error-part_etag (broken message) = refl
transient_error-part_etag (answered status etag body whole) =
    elim (Bool-cases (is_success status)) [
      | inr e ↦ rw e (status_not_transient status)
      | inl e ↦ rw e (elim (Bool-cases (is_empty etag)) [
        | inl k ↦ rw k missing_not_transient
        | inr k ↦ rw k refl
      ])
    ]

-- All entries but the last are broken connections.
abbrev pub Persists : List Entry → Type 0
Persists [] = Unit
Persists ((q, reply) ∷ []) = Unit
Persists ((q, reply) ∷ e ∷ es) = (is_broken reply ≡ true) × Persists (e ∷ es)

-- From w to w' only `request` was sent, at most `bound` times, and again only after a broken
-- connection.
pub record Tries {S : Type 0} (bound : ℕ) (request : Request) (w w' : World S) : Type 0 where
  pub sent : List Entry
  pub logged : w'.log ≡ w.log ++ sent
  pub only : All (λ (e : Entry). e.0 ≡ request) sent
  pub few : length sent ≤ bound
  pub persists : Persists sent

module _ {S : Type 0} (serve : Request → S → Reply × S) (interrupted : World S → Option Failure)
    (key id : Bytes) (number : ℕ) (content : Bytes) where
  abbrev request : Request
  request = upload key id number content

  Tries-none : (bound : ℕ) (w : World S) → Tries bound request w w
  Tries-none bound w = record {
    sent = [];
    logged = sym (append-nil w.log);
    only = tt;
    few = omega arith;
    persists = tt;
  }

  Persists-cons :
      (reply : Reply) (es : List Entry)
      → is_broken reply ≡ true
      → Persists es
      → Persists ((request, reply) ∷ es)
  Persists-cons reply [] b h = tt
  Persists-cons reply (e ∷ es) b h = (b, h)

  Tries-cons :
      (bound : ℕ) (reply : Reply) (w w' w'' : World S)
      → w'.log ≡ w.log ++ (request, reply) ∷ []
      → is_broken reply ≡ true
      → Tries bound request w' w''
      → Tries (suc bound) request w w''
  Tries-cons bound reply w w' w'' h b t = record {
    sent = (request, reply) ∷ t.sent;
    logged = t.logged ∙ ap (λ l. l ++ t.sent) h ∙ append_assoc w.log _ t.sent;
    only = (refl, t.only);
    few = omega (arith, t.few);
    persists = Persists-cons reply t.sent b t.persists;
  }

  after_part-Tries :
      (bound : ℕ) (reply : Reply) (w : World S) (o : Result Bytes × World S)
      (retry : Failure → World S → Result Bytes × World S)
      → (o.1).log ≡ w.log ++ (request, reply) ∷ []
      → transient_error o.0 ≡ is_broken reply
      → ((e : Failure) (w' : World S) → Tries bound request w' (retry e w').1)
      → Tries (suc bound) request w (after_part o retry).1
  after_part-Tries bound reply w (ok etag, w') retry h b t = record {
    sent = (request, reply) ∷ [];
    logged = h;
    only = (refl, tt);
    few = omega arith;
    persists = tt;
  }
  after_part-Tries bound reply w (err e, w') retry h b t = elim (Bool-cases (is_transient e)) [
    | inl k ↦ rw k (Tries-cons bound reply w w' (retry e w').1 h (sym b ∙ k) (t e w'))
    | inr k ↦ rw k (record {
      sent = (request, reply) ∷ [];
      logged = h;
      only = (refl, tt);
      few = omega arith;
      persists = tt;
    })
  ]

  after_wait-Tries :
      (bound : ℕ) (o : Option Failure) (w : World S) (next : World S → Result Bytes × World S)
      → Tries bound request w (next w).1
      → Tries bound request w (after_wait o w next).1
  after_wait-Tries bound none w next t = t
  after_wait-Tries bound (some e) w next t = Tries-none bound w

  upload_attempts-Tries :
      (delays : List ℕ) (attempt : ℕ) (last : Result Bytes) (w : World S)
      → Tries
          (length delays)
          request
          w
          (upload_attempts serve interrupted key id number content delays attempt last w).1
  unfolding upload_attempts upload_part send
  upload_attempts-Tries [] attempt last w = Tries-none 0 w
  upload_attempts-Tries (delay ∷ delays) attempt last w =
      let retry : Failure → World S → Result Bytes × World S = λ f w'.
        upload_attempts serve interrupted key id number content delays (attempt + 1) (err f) w' in
      let reply = (serve request w.endpoint).0 in
      after_wait-Tries (length (delay ∷ delays)) (if ltb 0 attempt then interrupted w else none) w
        (λ w0. after_part (upload_part serve interrupted key id number content w0) retry)
        (after_part-Tries (length delays) reply w
          (upload_part serve interrupted key id number content w) retry refl
          (transient_error-part_etag reply)
          λ f w'. upload_attempts-Tries delays (attempt + 1) (err f) w')

  -- One call sends its part at most four times, and sends it again only when the connection broke: a
  -- status or a missing ETag ends it.
  pub upload_part_with_retry-Tries :
      (w : World S)
      → Tries 4
          (upload key id number content)
          w
          (upload_part_with_retry serve interrupted key id number content w).1
  unfolding upload_part_with_retry
  upload_part_with_retry-Tries w = upload_attempts-Tries (0 ∷ 2 ∷ 5 ∷ 10 ∷ []) 0 (ok []) w
