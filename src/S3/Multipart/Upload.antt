-- ===== src/S3/Multipart/Upload.antt =====
-- uploadParts, completeMultipartUpload, abortMultipartUpload and putMultipart of s3/multipart.go.
use Prim.Native.String.{String}
use packages_go.Prelude.{
  ℕ, zero, suc, ◌+◌, ◌-◌, ◌/◌, ◌^◌, List, [], ◌∷◌, ◌++◌, Option, none, some, Bytes, decimal, length,
  take, drop, ltb, leb, if◌then◌else◌,
}
use packages_go.S3.Wire.{
  Failure, text, plain, wrap, join, Result, ok, err, Part, Request, complete, abort, Reply, World,
  send,
}
use packages_go.S3.Multipart.{
  max_multipart_parts, Reader, upload_part_with_retry, create_multipart_upload, status_error,
}

-- How io.ReadFull ends: with a full buffer, at the end of the stream (io.EOF or
-- io.ErrUnexpectedEOF), or with another error.
pub data ReadEnd : Type 0 where
  full at_end : ReadEnd
  failed : Failure → ReadEnd

-- io.ReadFull into a buffer of `size` bytes
unfoldable pub read_end : ℕ → Reader → ReadEnd
read_end size r =
    if leb size (length r.content)
    then full
    else elim r.end_error [ none ↦ at_end | some e ↦ failed e ]

pub data Uploaded : Type 0 where
  parts_done : List Part → Uploaded
  upload_failed : Failure → Uploaded
  -- make([]completedMultipart, 0, partCount) with a negative partCount
  panicked : Uploaded
  out_of_fuel : Uploaded

-- How putMultipart ends: with the nil error, an error, the panic above, or not at all.
pub data Put : Type 0 where
  stored : Put
  put_failed : Failure → Put
  put_panicked : Put
  put_stuck : Put

abbrev pub rest_of : ℕ → Reader → Reader
rest_of size r = record { content = drop size r.content; end_error = r.end_error }

unfoldable pub part_error : String → ℕ → Failure → Failure
part_error what number e = wrap (text what ++ (decimal number ++ text ": ")) e

-- The check after the loop.
unfoldable pub checked_parts : List Part → Uploaded
checked_parts [] = upload_failed (plain (text "s3: multipart upload produced no parts"))
checked_parts (p ∷ ps) = parts_done (p ∷ ps)

-- The rest of a round after uploadPartWithRetry.
abbrev pub after_upload {ℓ} :
    {W : Type ℓ} → ℕ → Result Bytes × W → (Part → W → Uploaded × W) → Uploaded × W
after_upload number (err e, w) next =
    (upload_failed (part_error "s3: upload multipart part " number e), w)
after_upload number (ok etag, w) next = next (record { number = number; etag = etag }) w

-- A round after its read, of `chunk`: `upload` sends it, and `next` is the next round.
abbrev pub after_read {ℓ} :
    {W : Type ℓ}
    → ReadEnd
    → ℕ
    → List Part
    → Bytes
    → W
    → (W → Result Bytes × W)
    → (List Part → W → Uploaded × W)
    → Uploaded × W
after_read (failed e) number parts chunk w upload next =
    (upload_failed (part_error "s3: read multipart part " number e), w)
after_read full number parts [] w upload next = (checked_parts parts, w)
after_read full number parts (c ∷ chunk) w upload next =
    after_upload number (upload w) λ p w'. next (parts ++ p ∷ []) w'
after_read at_end number parts [] w upload next = (checked_parts parts, w)
after_read at_end number parts (c ∷ chunk) w upload next =
    after_upload number (upload w) λ p w'. (checked_parts (parts ++ p ∷ []), w')

-- The return of a failure after the upload was made: `returned` when the abort succeeds, else `e`
-- joined with the abort's error.
abbrev pub abort_failed {ℓ} :
    {W : Type ℓ} → Failure → Failure → Bytes → Option Failure × W → Put × W
abort_failed e returned prefix (none, w) = (put_failed returned, w)
abort_failed e returned prefix (some f, w) = (put_failed (join e (wrap prefix f)), w)

-- size: multipartPartSize, a variable of the package.
module _ {S : Type 0} (serve : Request → S → Reply × S) (interrupted : World S → Option Failure)
    (size : ℕ) where
  unfoldable pub upload_loop :
      ℕ → Bytes → Bytes → ℕ → List Part → Reader → World S → Uploaded × World S
  upload_loop zero key id number parts r w = (out_of_fuel, w)
  upload_loop (suc fuel) key id number parts r w =
      let chunk = take size r.content in
      after_read (read_end size r) number parts chunk w
        (upload_part_with_retry serve interrupted key id number chunk)
        λ ps w'. upload_loop fuel key id (number + 1) ps (rest_of size r) w'

  -- total + size - 1 is computed in int64, where it wraps around to a negative number.
  abbrev too_many : ℕ → Uploaded
  too_many count = upload_failed (
      plain (
        text "s3: multipart upload requires "
        ++ (decimal count
            ++ (text " parts, over the " ++ (decimal max_multipart_parts ++ text " limit")))))

  unfoldable pub upload_parts : Bytes → Bytes → Reader → ℕ → World S → Uploaded × World S
  upload_parts key id r total w =
      if leb (2 ^ 63) (total + size - 1)
      then (panicked, w)
      else if ltb max_multipart_parts ((total + size - 1) / size)
      then (too_many ((total + size - 1) / size), w)
      else upload_loop (suc (length r.content)) key id 1 [] r w

  unfoldable pub complete_multipart_upload :
      Bytes → Bytes → List Part → World S → Option Failure × World S
  complete_multipart_upload key id parts w =
      let (reply, w') = send serve (complete key id parts) w in
      (status_error "s3: complete multipart upload" reply, w')

  unfoldable pub abort_multipart_upload : Bytes → Bytes → World S → Option Failure × World S
  abort_multipart_upload key id w =
      let (reply, w') = send serve (abort key id) w in
      (status_error "s3: abort multipart upload" reply, w')

  abbrev pub after_complete : Bytes → Bytes → Option Failure × World S → Put × World S
  after_complete key id (none, w) = (stored, w)
  after_complete key id (some e, w) =
      abort_failed e (wrap (text "s3: complete multipart upload: ") e)
        (text "s3: abort multipart upload after failed complete: ")
        (abort_multipart_upload key id w)

  abbrev pub after_uploads : Bytes → Bytes → Uploaded × World S → Put × World S
  after_uploads key id (parts_done parts, w) =
      after_complete key id (complete_multipart_upload key id parts w)
  after_uploads key id (upload_failed e, w) =
      abort_failed e e (text "s3: abort multipart upload after failed part: ")
        (abort_multipart_upload key id w)
  after_uploads key id (out_of_fuel, w) = (put_stuck, w)
  after_uploads key id (panicked, w) = (put_panicked, w)

  abbrev pub after_create : Bytes → Reader → ℕ → Result Bytes × World S → Put × World S
  after_create key r total (err e, w) =
      (put_failed (wrap (text "s3: create multipart upload: ") e), w)
  after_create key r total (ok id, w) = after_uploads key id (upload_parts key id r total w)

  unfoldable pub put_multipart :
      (Bytes → Option Bytes) → Bytes → Reader → ℕ → World S → Put × World S
  put_multipart parse_upload_id key r total w =
      after_create key r total (create_multipart_upload serve parse_upload_id key w)
