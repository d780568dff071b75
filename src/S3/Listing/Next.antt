-- ===== src/S3/Listing/Next.antt =====
-- Where the next page of List of s3/s3.go starts.
use packages_go.Prelude.{
  ℕ, ◌≡◌, refl, ap, ◌⊎◌, inl, inr, Bool, true, false, ◌==◌, List, [], ◌∷◌, ◌++◌, none, some, Bytes,
  take, ℤ, Bool-cases,
}
use packages_go.S3.Wire.{Result, ok, err, Request, list, Reply, broken, answered, World, send}
use packages_go.S3.Listing.{
  ObjectSummary, Page, ListResult, last_key, result_of, bad_prefix, bad_limit, parsed, page_in,
  list_objects,
}

-- A page that is not the last one names the key of its last object; any other page, and an empty
-- one, names none.
abbrev pub Continues : ListResult → Type 0
Continues r =
    ((r.next_start_after ≡ []) × ((r.is_truncated ≡ false) ⊎ (r.objects ≡ [])))
    ⊎ ((front : List ObjectSummary) × (o : ObjectSummary) × (r.is_truncated ≡ true)
        × (r.objects ≡ front ++ o ∷ [])
        × (r.next_start_after ≡ o.key))

abbrev Ended : List ObjectSummary → Type 0
Ended os =
    (front : List ObjectSummary) × (o : ObjectSummary) × (os ≡ front ++ o ∷ [])
    × (last_key os ≡ o.key)

last_key-Ended : (o : ObjectSummary) (os : List ObjectSummary) → Ended (o ∷ os)
unfolding last_key
last_key-Ended o [] = ([], o, refl, refl)
last_key-Ended o (p ∷ os) =
    let (front, q, e, k) = last_key-Ended p os in (o ∷ front, q, ap (◌∷◌ o) e, k)

page-Continues :
    (b : Bool) (os : List ObjectSummary)
    → Continues (result_of (record { is_truncated = b; contents = os }))
unfolding result_of
page-Continues false os = inl (refl, inl refl)
page-Continues true [] = inl (refl, inr refl)
page-Continues true (o ∷ os) =
    let (front, q, e, k) = last_key-Ended o os in inr (front, q, refl, e, k)

result_of-Continues : (p : Page) → Continues (result_of p)
result_of-Continues p = page-Continues p.is_truncated p.contents

module _ {S : Type 0} (serve : Request → S → Reply × S) (status_line : ℕ → Bytes)
    (parse_page : Bytes → Result Page) where
  parsed-Continues :
      (prefix : Bytes) (o : Result Page) (r : ListResult)
      → parsed serve status_line parse_page prefix o ≡ ok r
      → Continues r
  parsed-Continues prefix (ok page) r h =
      let same : result_of page ≡ r = cc in rw (← same) (result_of-Continues page)
  parsed-Continues prefix (err e) r h = cc

  page_in-Continues :
      (prefix : Bytes) (reply : Reply) (r : ListResult)
      → page_in serve status_line parse_page prefix reply ≡ ok r
      → Continues r
  unfolding page_in
  page_in-Continues prefix (broken message) r h = cc
  page_in-Continues prefix (answered status etag body (some e)) r h = cc
  page_in-Continues prefix (answered status etag body none) r h =
      elim (Bool-cases (status == 200)) [
        | inr e ↦ absurd (cc (h, e))
        | inl e ↦ parsed-Continues prefix (parse_page (take 1048576 body)) r (rw e at h)
      ]

  -- A List that returns a page was given a prefix and a limit that pass the checks, has sent one
  -- request, and the page names the key to go on from exactly when it is truncated and not empty: the
  -- key of its last object.
  pub list_objects-Continues :
      (prefix start_after : Bytes) (limit : ℤ) (w : World S) (r : ListResult)
      → (list_objects serve status_line parse_page prefix start_after limit w).0 ≡ ok r
      → (reply : Reply) × ((list_objects serve status_line parse_page prefix start_after limit
            w).1.log
          ≡ w.log ++ (list prefix start_after limit, reply) ∷ [])
        × (bad_prefix prefix ≡ false)
        × (bad_limit limit ≡ false)
        × Continues r
  unfolding list_objects send
  list_objects-Continues prefix start_after limit w r h = elim (Bool-cases (bad_prefix prefix)) [
    | inl e ↦ absurd (cc (h, e))
    | inr e ↦ elim (Bool-cases (bad_limit limit)) [
      | inl k ↦ absurd (cc (h, e, k))
      | inr k ↦
          let reply : Reply = (serve (list prefix start_after limit) w.endpoint).0 in
          let read : page_in serve status_line parse_page prefix reply ≡ ok r = rw (e, k) at h in
          let next : Continues r = page_in-Continues prefix reply r read in
          (reply, rw (e, k) refl, e, k, next)
    ]
  ]
