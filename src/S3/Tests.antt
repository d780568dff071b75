-- ===== src/S3/Tests.antt =====
-- Runs of the s3 client against a small endpoint, which keeps the bytes of one object.
use packages_go.Prelude.{
  List, zero, suc, is_blank, blank_from, space_next, has_prefix, contains, bytes_eq, ℕ, ◌≡◌, refl,
  true, false, [], ◌∷◌, ◌++◌, Option, none, some, Bytes, codes, take, decimal, pos, arith,
}
use packages_go.S3.Wire.{
  Result, ok, Failure, text, Request, create, upload, complete, abort, fetch, put, remove, list,
  Reply, answered, World, send,
}
use packages_go.S3.Key.{valid_key, valid_bucket}
use packages_go.S3.Client.{inspect, get_object, got, identity_of}
use packages_go.S3.Multipart.{
  create_multipart_upload, upload_id_of, status_error, Reader, part_etag, upload_part,
  upload_attempts, upload_part_with_retry,
}
use packages_go.S3.Multipart.Upload.{
  stored, read_end, checked_parts, upload_loop, complete_multipart_upload, upload_parts,
  put_multipart,
}
use packages_go.S3.Multipart.Transient.{
  Tries, is_broken, transient_error, transient_error-part_etag, upload_part_with_retry-Tries,
}
use packages_go.S3.Multipart.Accepted.{Delivers, upload_parts-Delivers}
use packages_go.S3.Multipart.Abort.{Settles, put_multipart-Settles}
use packages_go.S3.Listing.{
  ObjectSummary, Page, ListResult, last_key, result_of, bad_prefix, bad_limit, page_in,
  list_objects,
}
use packages_go.S3.Listing.Next.{Continues, list_objects-Continues}
use packages_go.S3.Stream.{put_stream, put_body, is_identity}
use packages_go.S3.Stream.Readback.{Verified, put_stream-Verified}

abbrev endpoint : Request → Bytes → Reply × Bytes
endpoint (create key) object = (answered 200 [] (codes "upload") none, [])
endpoint (upload key id number content) object =
    (answered 200 (b'e' ∷ decimal number) [] none, object ++ content)
endpoint (complete key id parts) object = (answered 200 [] [] none, object)
endpoint (abort key id) object = (answered 204 [] [] none, [])
endpoint (fetch key range) object = (answered 200 [] object none, object)
endpoint (put key content type) object = (answered 200 [] [] none, content)
endpoint (remove key) object = (answered 204 [] [] none, [])
endpoint (list prefix after limit) object = (answered 200 [] [] none, object)

-- The same, but that the second part is refused.
abbrev refusing : Request → Bytes → Reply × Bytes
refusing (upload key id (suc (suc zero)) content) object = (answered 503 [] [] none, object)
refusing q object = endpoint q object

abbrev never : World Bytes → Option Failure
never w = none

abbrev start : World Bytes
start = record { endpoint = []; log = [] }

abbrev key : Bytes
key = codes "data/a.bin"

abbrev id : Bytes
id = codes "upload"

abbrev letters : Reader
letters = record { content = codes "abcde"; end_error = none }

abbrev parse : Bytes → Option Bytes
parse body = some body

abbrev line : ℕ → Bytes
line status = decimal status

abbrev zeros : Bytes
zeros = codes "0000000000000000000000000000000000000000000000000000000000000000"

-- A hash of 64 characters.
abbrev digest : Bytes → Bytes
digest body = take 64 (body ++ zeros)

keys : valid_key (codes "data/a.bin") ≡ true
unfolding valid_key has_prefix text contains bytes_eq
keys = refl

dotted_keys : valid_key (codes "data/./a.bin") ≡ false
unfolding valid_key has_prefix text contains bytes_eq
dotted_keys = refl

buckets : valid_bucket (codes "my-bucket.1") ≡ true
unfolding valid_bucket has_prefix text
buckets = refl

upload_part_with_retry-Tries_example :
    Tries 4
      (upload key id 2 (codes "ab"))
      start
      (upload_part_with_retry refusing never key id 2 (codes "ab") start).1
upload_part_with_retry-Tries_example =
    upload_part_with_retry-Tries refusing never key id 2 (codes "ab") start

transient_error-part_etag_example :
    transient_error (part_etag (answered 503 [] [] none)) ≡ is_broken (answered 503 [] [] none)
transient_error-part_etag_example = transient_error-part_etag (answered 503 [] [] none)

upload_parts-Delivers_example :
    Delivers endpoint never 2 key id 1 []
      (codes "abcde")
      start
      (upload_parts endpoint never 2 key id letters 5 start)
upload_parts-Delivers_example =
    upload_parts-Delivers endpoint never 2 key id (omega arith) letters 5 start (omega arith)

put_multipart-Settles_example :
    Settles endpoint never 2
      (omega arith)
      parse
      key
      (codes "abcde")
      start
      (put_multipart endpoint never 2 parse key letters 5 start)
put_multipart-Settles_example =
    put_multipart-Settles endpoint never 2 (omega arith) parse key letters 5 start (omega arith)

in_parts :
    (put_stream endpoint never parse line digest 2 2 key letters
      (pos 5)
      (digest (codes "abcde"))
      start).0
    ≡ stored
unfolding put_stream put_body put_multipart create_multipart_upload upload_id_of upload_parts
    upload_loop read_end checked_parts upload_part_with_retry upload_attempts upload_part part_etag
    complete_multipart_upload status_error inspect get_object got identity_of is_identity send text
    valid_key has_prefix contains bytes_eq
in_parts = refl

put_stream-Verified_example :
    Verified endpoint never parse line digest 2 2 key letters (pos 5) (digest (codes "abcde")) start
put_stream-Verified_example =
    put_stream-Verified endpoint never parse line digest 2 2 key letters (pos 5)
      (digest (codes "abcde")) start in_parts

abbrev objects : List ObjectSummary
objects =
    record { key = codes "data/a"; last_modified = []; size = pos 1 }
    ∷ record { key = codes "data/b"; last_modified = []; size = pos 2 }
    ∷ []

abbrev parse_two : Bytes → Result Page
parse_two body = ok (record { is_truncated = true; contents = objects })

abbrev page : ListResult
page = record { objects = objects; is_truncated = true; next_start_after = codes "data/b" }

two_listed : (list_objects endpoint line parse_two (codes "data/") [] (pos 2) start).0 ≡ ok page
unfolding list_objects bad_prefix bad_limit page_in result_of last_key send is_blank blank_from
    space_next has_prefix text
two_listed = refl

list_objects-Continues_example :
    (reply : Reply) × ((list_objects endpoint line parse_two (codes "data/") [] (pos 2) start).1.log
      ≡ start.log ++ (list (codes "data/") [] (pos 2), reply) ∷ [])
    × (bad_prefix (codes "data/") ≡ false)
    × (bad_limit (pos 2) ≡ false)
    × Continues page
list_objects-Continues_example =
    list_objects-Continues endpoint line parse_two (codes "data/") [] (pos 2) start page two_listed
