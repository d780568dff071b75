-- ===== src/S3/Stream.antt =====
-- Client.PutStream of s3/multipart.go.
pub mod Readback
use packages_go.Prelude.{
  ℕ, ◌+◌, Bool, true, false, not, ◌||◌, ◌&&◌, Option, none, some, Bytes, bytes_eq, length, take,
  ltb, leb, ◌==◌, if◌then◌else◌, ℤ, pos, negsuc,
}
use packages_go.S3.Wire.{Failure, text, plain, wrap, Result, ok, err, Request, Reply, World}
use packages_go.S3.Key.{valid_key}
use packages_go.S3.Client.{Identity, put_object, inspect}
use packages_go.S3.Multipart.{Reader}
use packages_go.S3.Multipart.Upload.{
  Put, stored, put_failed, put_panicked, put_stuck, put_multipart,
}

-- io.ReadAll(io.LimitReader(body, limit))
unfoldable pub read_limited : ℕ → Reader → Result Bytes
read_limited limit r =
    if leb limit (length r.content)
    then ok (take limit r.content)
    else elim r.end_error [ none ↦ ok r.content | some e ↦ err e ]

unfoldable pub is_identity : Bytes → ℕ → Result Identity → Bool
is_identity sha256 size (err e) = false
is_identity sha256 size (ok i) = bytes_eq i.sha256 sha256 && (i.size == size)

-- part_size and threshold: multipartPartSize and MultipartThreshold, variables of the package.
module _ {S : Type 0} (serve : Request → S → Reply × S) (interrupted : World S → Option Failure)
    (parse_upload_id : Bytes → Option Bytes) (status_line : ℕ → Bytes) (hash : Bytes → Bytes)
    (part_size threshold : ℕ) where
  abbrev pub put_result : Option Failure × World S → Put × World S
  put_result (none, w) = (stored, w)
  put_result (some e, w) = (put_failed e, w)

  abbrev pub put_content : Bytes → ℕ → Result Bytes → World S → Put × World S
  put_content key size (err e) w = (put_failed (wrap (text "s3: read put stream body: ") e), w)
  put_content key size (ok content) w =
      if not (length content == size)
      then (put_failed (plain (text "s3: put stream body did not match the declared size")), w)
      else put_result
          (put_object serve status_line hash key content (text "application/octet-stream") w)

  -- The upload, by one request or in parts.
  unfoldable pub put_body : Bytes → Reader → ℕ → World S → Put × World S
  put_body key r size w =
      if leb size threshold
      then put_content key size (read_limited (size + 1) r) w
      else put_multipart serve interrupted part_size parse_upload_id key r size w

  abbrev pub verdict : Bytes → ℕ → Result Identity × World S → Put × World S
  verdict sha256 size (r, w) =
      if is_identity sha256 size r
      then (stored, w)
      else (put_failed (plain (text "s3: put stream object identity differs after upload")), w)

  -- The rest of PutStream after the upload.
  abbrev pub read_back : Bytes → Bytes → ℕ → Put × World S → Put × World S
  read_back key sha256 size (stored, w) = verdict sha256 size (inspect serve status_line hash key w)
  read_back key sha256 size (put_failed e, w) = (put_failed e, w)
  read_back key sha256 size (put_panicked, w) = (put_panicked, w)
  read_back key sha256 size (put_stuck, w) = (put_stuck, w)

  abbrev pub bad_size : Put
  bad_size = put_failed (plain (text "s3: put stream requires a positive byte count"))

  abbrev pub put_sized : Bytes → Reader → ℕ → Bytes → World S → Put × World S
  put_sized key r size sha256 w =
      if ltb size 1
      then (bad_size, w)
      else if not (length sha256 == 64)
      then (put_failed (plain (text "s3: put stream requires the exact sha256 of body")), w)
      else read_back key sha256 size (put_body key r size w)

  unfoldable pub put_stream : Bytes → Reader → ℤ → Bytes → World S → Put × World S
  put_stream key r size sha256 w =
      if not (valid_key key)
      then (put_failed (plain (text "s3: key must be a non-empty bucket-relative path")), w)
      else elim size [ negsuc n ↦ (bad_size, w) | pos n ↦ put_sized key r n sha256 w ]
