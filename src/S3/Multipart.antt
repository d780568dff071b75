-- ===== src/S3/Multipart.antt =====
-- s3/multipart.go up to PutStream, which is in Stream.
pub mod Upload
pub mod Transient
pub mod Retry
pub mod Accepted
pub mod Abort
use Prim.Native.String.{String}
use packages_go.Prelude.{
  ℕ, zero, suc, ◌+◌, ◌-◌, ◌*◌, ◌/◌, Bool, true, false, not, ◌||◌, ◌&&◌, List, [], ◌∷◌, ◌++◌, Option,
  none, some, Bytes, is_empty, contains, decimal, length, take, drop, ltb, leb, ◌==◌, if◌then◌else◌,
}
use packages_go.S3.Wire.{
  Failure, text, plain, wrap, join, Result, ok, err, Part, Request, create, upload, complete, abort,
  Reply, broken, answered, World, send, network, is_success,
}

-- 8 MiB, the largest number of parts, and multipartPartRetries in seconds
abbrev pub multipart_part_size : ℕ
multipart_part_size = 8 * 1048576

abbrev pub max_multipart_parts : ℕ
max_multipart_parts = 10000

abbrev pub multipart_part_retries : List ℕ
multipart_part_retries = 0 ∷ 2 ∷ 5 ∷ 10 ∷ []

-- isTransientMultipartError
unfoldable pub is_transient : Failure → Bool
is_transient e =
    e.is_net
    || (contains e.text (text "use of closed network connection")
        || (contains e.text (text "connection reset by peer")
            || (contains e.text (text "broken pipe")
                || (contains e.text (text "unexpected EOF") || contains e.text (text "EOF")))))

-- A stream: its bytes, and the error that reading past them gives, `none` for io.EOF.
pub record Reader : Type 0 where
  pub content : Bytes
  pub end_error : Option Failure

module _ {S : Type 0} (serve : Request → S → Reply × S)
    (parse_upload_id : Bytes → Option Bytes) where
  -- The reading of createMultipartUpload's answer.
  unfoldable pub upload_id_of : Reply → Result Bytes
  upload_id_of (broken message) = err (network message)
  upload_id_of (answered status etag body (some e)) = err e
  upload_id_of (answered status etag body none) =
      if not (is_success status)
      then err (plain (text "s3: create multipart upload returned status " ++ decimal status))
      else elim (parse_upload_id body) [
        | none ↦ err (plain (text "s3: create multipart upload response is invalid"))
        | some id ↦
            if is_empty id
            then err (plain (text "s3: create multipart upload response is invalid"))
            else ok id
      ]

  unfoldable pub create_multipart_upload : Bytes → World S → Result Bytes × World S
  create_multipart_upload key w =
      let (reply, w') = send serve (create key) w in (upload_id_of reply, w')

-- The reading of uploadPart's answer.
unfoldable pub part_etag : Reply → Result Bytes
part_etag (broken message) = err (network message)
part_etag (answered status etag body whole) =
    if not (is_success status)
    then err (plain (text "s3: put multipart part returned status " ++ decimal status))
    else if is_empty etag
    then err (plain (text "s3: put multipart part response is missing an ETag"))
    else ok etag

-- The readings of completeMultipartUpload's and abortMultipartUpload's answers: the nil error is `none`.
unfoldable pub status_error : String → Reply → Option Failure
status_error what (broken message) = some (network message)
status_error what (answered status etag body whole) =
    if not (is_success status)
    then some (plain (text what ++ (text " returned status " ++ decimal status)))
    else none

-- The rest of the retry loop after one attempt, which `retry` goes on with after a transient failure.
abbrev pub retry_if {ℓ} :
    {W : Type ℓ} → Bool → Failure → W → (Failure → W → Result Bytes × W) → Result Bytes × W
retry_if true e w retry = retry e w
retry_if false e w retry = (err e, w)

abbrev pub after_part {ℓ} :
    {W : Type ℓ} → Result Bytes × W → (Failure → W → Result Bytes × W) → Result Bytes × W
after_part (ok etag, w) retry = (ok etag, w)
after_part (err e, w) retry = retry_if (is_transient e) e w retry

-- The wait before an attempt, which an error of the context ends.
abbrev pub after_wait {ℓ} :
    {W : Type ℓ} → Option Failure → W → (W → Result Bytes × W) → Result Bytes × W
after_wait none w next = next w
after_wait (some e) w next = (err e, w)

-- interrupted: what the select between two attempts finds, `none` when the timer fires first.
module _ {S : Type 0} (serve : Request → S → Reply × S)
    (interrupted : World S → Option Failure) where
  unfoldable pub upload_part : Bytes → Bytes → ℕ → Bytes → World S → Result Bytes × World S
  upload_part key id number content w =
      let (reply, w') = send serve (upload key id number content) w in (part_etag reply, w')

  -- `last` is lastErr, with the empty ETag beside it.
  unfoldable pub upload_attempts :
      Bytes → Bytes → ℕ → Bytes → List ℕ → ℕ → Result Bytes → World S → Result Bytes × World S
  upload_attempts key id number content [] attempt last w = (last, w)
  upload_attempts key id number content (delay ∷ delays) attempt last w =
      after_wait (if ltb 0 attempt then interrupted w else none) w λ w0.
        after_part (upload_part key id number content w0)
          λ e w'. upload_attempts key id number content delays (attempt + 1) (err e) w'

  unfoldable pub upload_part_with_retry :
      Bytes → Bytes → ℕ → Bytes → World S → Result Bytes × World S
  upload_part_with_retry key id number content w =
      upload_attempts key id number content multipart_part_retries 0 (ok []) w
