-- ===== src/S3/Multipart/Retry.antt =====
-- What uploadPartWithRetry of s3/multipart.go sends for one part, and when it stops.
use packages_go.Prelude.{
  ℕ, ◌+◌, ◌≡◌, refl, sym, ◌∙◌, ap, Bool, true, false, List, [], ◌∷◌, ◌++◌, append_assoc, append-nil,
  Option, none, some, Bytes, All, All-append, ltb, if◌then◌else◌,
}
use packages_go.S3.Wire.{
  Failure, Result, ok, err, Part, Request, create, upload, complete, abort, fetch, put, remove,
  list, Reply, World, send,
}
use packages_go.S3.Multipart.{
  retry_if, after_wait, is_transient, part_etag, after_part, upload_part, upload_attempts,
  upload_part_with_retry,
}

-- An entry of the log, and the part with its bytes that it added to an upload.
abbrev pub Entry : Type 0
Entry = Request × Reply

abbrev pub Piece : Type 0
Piece = Part × Bytes

abbrev pub piece_if : ℕ → Bytes → Result Bytes → List Piece
piece_if number content (ok etag) = (record { number = number; etag = etag }, content) ∷ []
piece_if number content (err e) = []

unfoldable pub accepted_by : Request → Reply → List Piece
accepted_by (upload key id number content) reply = piece_if number content (part_etag reply)
accepted_by (create key) reply = []
accepted_by (complete key id parts) reply = []
accepted_by (abort key id) reply = []
accepted_by (fetch key range) reply = []
accepted_by (put key content type) reply = []
accepted_by (remove key) reply = []
accepted_by (list prefix after limit) reply = []

-- The accepted parts of a log, with the bytes that were sent for them.
abbrev pub accepted : List Entry → List Piece
accepted [] = []
accepted ((q, reply) ∷ log) = accepted_by q reply ++ accepted log

pub accepted-append : (a b : List Entry) → accepted (a ++ b) ≡ accepted a ++ accepted b
accepted-append [] b = refl
accepted-append ((q, reply) ∷ a) b =
    ap (λ l. accepted_by q reply ++ l) (accepted-append a b)
    ∙ sym (append_assoc (accepted_by q reply) (accepted a) (accepted b))

-- The request is the upload of a part to `id` at `key`.
abbrev pub IsUpload : Bytes → Bytes → Entry → Type 0
IsUpload key id (q, reply) = (number : ℕ) × (content : Bytes) × (q ≡ upload key id number content)

-- From one world to another only parts of the upload were sent, of which `pieces` were accepted.
pub record Sends {S : Type 0} (key id : Bytes) (w w' : World S) (pieces : List Piece) : Type 0 where
  pub sent : List Entry
  pub logged : w'.log ≡ w.log ++ sent
  pub uploads : All (IsUpload key id) sent
  pub taken : accepted sent ≡ pieces

module _ {S : Type 0} (key id : Bytes) where
  pub Sends-none : (w : World S) → Sends key id w w []
  Sends-none w = record { sent = []; logged = sym (append-nil w.log); uploads = tt; taken = refl }

  pub Sends-trans :
      (w w' w'' : World S) (a b : List Piece)
      → Sends key id w w' a
      → Sends key id w' w'' b
      → Sends key id w w'' (a ++ b)
  Sends-trans w w' w'' a b s t = record {
    sent = s.sent ++ t.sent;
    logged = t.logged ∙ ap (λ l. l ++ t.sent) s.logged ∙ append_assoc w.log s.sent t.sent;
    uploads = All-append (IsUpload key id) s.sent t.sent s.uploads t.uploads;
    taken = accepted-append s.sent t.sent ∙ rw (s.taken, t.taken);
  }

module _ {S : Type 0} (serve : Request → S → Reply × S) (interrupted : World S → Option Failure)
    (key id : Bytes) (number : ℕ) (content : Bytes) where
  upload_part-Sends :
      (w : World S)
      → Sends key id w
          (upload_part serve interrupted key id number content w).1
          (piece_if number content (upload_part serve interrupted key id number content w).0)
  unfolding upload_part send accepted_by
  upload_part-Sends w = record {
    sent = (upload key id number content, (serve (upload key id number content) w.endpoint).0) ∷ [];
    logged = refl;
    uploads = ((number, content, refl), tt);
    taken = append-nil _;
  }

  abbrev SendsResult : World S → Result Bytes × World S → Type 0
  SendsResult w (r, w') = Sends key id w w' (piece_if number content r)

  after_part-Sends :
      (w : World S) (o : Result Bytes × World S)
      (retry : Failure → World S → Result Bytes × World S)
      → SendsResult w o
      → ((e : Failure) (w' : World S) → SendsResult w' (retry e w'))
      → SendsResult w (after_part o retry)
  after_part-Sends w (ok etag, w') retry s t = s
  after_part-Sends w (err e, w') retry s t = go (is_transient e)
    where
      go : (transient : Bool) → SendsResult w (retry_if transient e w' retry)
      go true = Sends-trans key id w w' _ [] _ s (t e w')
      go false = s

  after_wait-Sends :
      (o : Option Failure) (w : World S) (next : World S → Result Bytes × World S)
      → SendsResult w (next w)
      → SendsResult w (after_wait o w next)
  after_wait-Sends none w next s = s
  after_wait-Sends (some e) w next s = Sends-none key id w

  upload_attempts-Sends :
      (delays : List ℕ) (attempt : ℕ) (e : Failure) (w : World S)
      → SendsResult w
          (upload_attempts serve interrupted key id number content delays attempt (err e) w)
  unfolding upload_attempts
  upload_attempts-Sends [] attempt e w = Sends-none key id w
  upload_attempts-Sends (delay ∷ delays) attempt e w =
      let retry : Failure → World S → Result Bytes × World S = λ f w'.
        upload_attempts serve interrupted key id number content delays (attempt + 1) (err f) w' in
      after_wait-Sends (if ltb 0 attempt then interrupted w else none) w
        (λ w0. after_part (upload_part serve interrupted key id number content w0) retry)
        (after_part-Sends w _ retry (upload_part-Sends w)
          λ f w'. upload_attempts-Sends delays (attempt + 1) f w')

  pub upload_part_with_retry-Sends :
      (w : World S)
      → Sends key id w (upload_part_with_retry serve interrupted key id number content w).1 (
          piece_if number content
            (upload_part_with_retry serve interrupted key id number content w).0)
  unfolding upload_part_with_retry upload_attempts
  upload_part_with_retry-Sends w =
      after_part-Sends w _ _ (upload_part-Sends w)
        λ f w'. upload_attempts-Sends (2 ∷ 5 ∷ 10 ∷ []) 1 f w'
