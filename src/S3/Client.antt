-- ===== src/S3/Client.antt =====
-- Get, Put, Delete and Inspect of s3/s3.go.
use packages_go.Prelude.{
  ℕ, not, ◌||◌, [], ◌++◌, Option, none, some, Bytes, is_blank, length, take, ltb, ◌==◌,
  if◌then◌else◌,
}
use packages_go.S3.Wire.{
  Failure, text, plain, wrap, Result, ok, err, Request, fetch, put, remove, Reply, broken, answered,
  World, send, network, is_success,
}
use packages_go.S3.Key.{valid_key}

pub record Identity : Type 0 where
  pub sha256 : Bytes
  pub size : ℕ

abbrev bad_key : Failure
bad_key = plain (text "s3: key must be a non-empty bucket-relative path")

-- status_line: the text of http.Response.Status, such as "404 Not Found".
-- hash: mustHashHex, the SHA-256 of the bytes in hexadecimal.
module _ {S : Type 0} (serve : Request → S → Reply × S) (status_line : ℕ → Bytes)
    (hash : Bytes → Bytes) where
  -- The error that quotes the status and at most 4096 bytes of the body.
  abbrev rejected : Bytes → Bytes → ℕ → Bytes → Failure
  rejected method key status body =
      plain
        (method ++ (key ++ (text ": " ++ (status_line status ++ (text ": " ++ take 4096 body)))))

  -- The body of the response, with the error of reading it to its end.
  unfoldable pub got : Bytes → Reply → Result (Bytes × Option Failure)
  got key (broken message) = err (network message)
  got key (answered status etag body e) =
      if not ((status == 200) || (status == 206))
      then err (rejected (text "s3: GET ") key status body)
      else ok (body, e)

  unfoldable pub get_object : Bytes → Bytes → World S → Result (Bytes × Option Failure) × World S
  get_object key range w =
      if not (valid_key key)
      then (err bad_key, w)
      else (let (reply, w') = send serve (fetch key range) w in (got key reply, w'))

  unfoldable pub put_error : Bytes → Reply → Option Failure
  put_error key (broken message) = some (network message)
  put_error key (answered status etag body e) =
      if not (is_success status) then some (rejected (text "s3: PUT ") key status body) else none

  unfoldable pub put_object : Bytes → Bytes → Bytes → World S → Option Failure × World S
  put_object key body content_type w =
      if not (valid_key key)
      then (some bad_key, w)
      else if is_blank content_type
      then (some (plain (text "s3: put requires a content type")), w)
      else (let (reply, w') = send serve (put key body content_type) w in (put_error key reply, w'))

  unfoldable pub delete_error : Bytes → Reply → Option Failure
  delete_error key (broken message) = some (network message)
  delete_error key (answered status etag body e) =
      if not ((status == 200) || ((status == 204) || (status == 404)))
      then some (rejected (text "s3: DELETE ") key status body)
      else none

  unfoldable pub delete_object : Bytes → World S → Option Failure × World S
  delete_object key w =
      if not (valid_key key)
      then (some bad_key, w)
      else (let (reply, w') = send serve (remove key) w in (delete_error key reply, w'))

  unfoldable pub identity_of : Bytes → Result (Bytes × Option Failure) → Result Identity
  identity_of key (err e) = err e
  identity_of key (ok (body, some e)) = err (wrap (text "s3: inspect " ++ (key ++ text ": ")) e)
  identity_of key (ok (body, none)) =
      if ltb (length body) 1
      then err (plain (text "s3: inspect " ++ (key ++ text ": object is empty")))
      else ok (record { sha256 = hash body; size = length body })

  unfoldable pub inspect : Bytes → World S → Result Identity × World S
  inspect key w = let (r, w') = get_object key [] w in (identity_of key r, w')
