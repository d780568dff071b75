-- ===== src/S3/Listing.antt =====
-- List of s3/s3.go.
pub mod Next
use packages_go.Prelude.{
  ℕ, ◌≡◌, ◌≢◌, refl, sym, ◌∙◌, ap, Bool, true, false, not, ◌||◌, ◌&&◌, ◌==◌, List, [], ◌∷◌, ◌++◌,
  Option, none, some, Bytes, is_empty, is_blank, has_prefix, take, ltb_ℤ, ℤ, pos, if◌then◌else◌,
  Bool-cases, Option-cases, inl, inr, neither,
}
use packages_go.S3.Wire.{
  Failure, text, plain, wrap, Result, ok, err, Request, list, Reply, broken, answered, World, send,
  network,
}

-- LastModified is kept as a text.
pub record ObjectSummary : Type 0 where
  pub key : Bytes
  pub last_modified : Bytes
  pub size : ℤ

-- The answer's XML.
pub record Page : Type 0 where
  pub is_truncated : Bool
  pub contents : List ObjectSummary

pub record ListResult : Type 0 where
  pub objects : List ObjectSummary
  pub is_truncated : Bool
  pub next_start_after : Bytes

-- The key of the last object, "" when there is none.
unfoldable pub last_key : List ObjectSummary → Bytes
last_key [] = []
last_key (o ∷ []) = o.key
last_key (o ∷ p ∷ os) = last_key (p ∷ os)

unfoldable pub result_of : Page → ListResult
result_of p = record {
  objects = p.contents;
  is_truncated = p.is_truncated;
  next_start_after =
      if p.is_truncated && not (is_empty p.contents) then last_key p.contents else [];
}

unfoldable pub bad_prefix : Bytes → Bool
bad_prefix prefix = is_blank prefix || has_prefix prefix (text "/")

unfoldable pub bad_limit : ℤ → Bool
bad_limit limit = ltb_ℤ limit (pos 1) || ltb_ℤ (pos 1000) limit

-- status_line: the text of http.Response.Status; parse_page: xml.Unmarshal, with its error.
module _ {S : Type 0} (serve : Request → S → Reply × S) (status_line : ℕ → Bytes)
    (parse_page : Bytes → Result Page) where
  abbrev parsed : Bytes → Result Page → Result ListResult
  parsed prefix (ok page) = ok (result_of page)
  parsed prefix (err e) =
      err (wrap (text "s3: LIST " ++ (prefix ++ text ": malformed response: ")) e)

  -- The reading of at most 1 MiB of the body.
  unfoldable pub page_in : Bytes → Reply → Result ListResult
  page_in prefix (broken message) = err (network message)
  page_in prefix (answered status etag body (some e)) = err e
  page_in prefix (answered status etag body none) =
      if not (status == 200)
      then err (
          plain (
            text "s3: LIST "
            ++ (prefix ++ (text ": " ++ (status_line status ++ (text ": " ++ take 1048576 body))))))
      else parsed prefix (parse_page (take 1048576 body))

  unfoldable pub list_objects : Bytes → Bytes → ℤ → World S → Result ListResult × World S
  list_objects prefix start_after limit w =
      if bad_prefix prefix
      then (err (plain (text "s3: list prefix must be a non-empty bucket-relative path")), w)
      else if bad_limit limit
      then (err (plain (text "s3: list max keys must be between 1 and 1000")), w)
      else (let (reply, w') = send serve (list prefix start_after limit) w in
          (page_in prefix reply, w'))
