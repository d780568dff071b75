-- ===== src/S3/Stream/Readback.antt =====
-- What a PutStream of s3/multipart.go that returns nil has stored and read back.
use packages_go.Prelude.{
  and_split, ℕ, ◌+◌, ◌≤◌, ◌≡◌, refl, sym, ◌∙◌, ap, true, ◌||◌, ◌&&◌, [], Option, none, some, Bytes,
  bytes_eq, length, take, ltb, leb, ◌==◌, ℤ, pos, negsuc, Bool-cases, Option-cases, leb→le,
  length-take, inl, inr, ◌⊎◌, arith, bytes_eq_iff, ==_iff,
}
use packages_go.S3.Wire.{
  Failure, Result, ok, err, Request, fetch, Reply, broken, answered, World, send,
}
use packages_go.S3.Key.{valid_key}
use packages_go.S3.Client.{inspect, get_object, got, identity_of}
use packages_go.S3.Multipart.{Reader}
use packages_go.S3.Multipart.Upload.{Put, stored, put_failed, put_panicked, put_stuck}
use packages_go.S3.Stream.{
  read_limited, is_identity, put_content, put_body, read_back, put_sized, put_stream,
}

one_of : (n : ℕ) → ((n == 200) || (n == 206)) ≡ true → (n ≡ 200) ⊎ (n ≡ 206)
one_of n h = ground arith

read_limited-length :
    (r : Reader) (content : Bytes) (n : ℕ)
    → ok content ≡ read_limited (n + 1) r
    → length content ≡ n
    → length r.content ≡ n
unfolding read_limited
read_limited-length r content n k e = elim (Bool-cases (leb (n + 1) (length r.content))) [
  | inl l ↦
      let same : ok content ≡ ok (take (n + 1) r.content) = rw l at k in
      let cut : content ≡ take (n + 1) r.content = cc in
      let long : n + 1 ≤ length r.content = leb→le (n + 1) (length r.content) l in
      absurd (omega (arith, length-take (n + 1) r.content, ap length cut, e, long))
  | inr l ↦ elim (Option-cases r.end_error) [
    | inl f ↦
        let same : ok content ≡ ok r.content = rw (l, f) at k in
        let whole : content ≡ r.content = cc in ap length (sym whole) ∙ e
    | inr (f, g) ↦ let same : ok content ≡ err f = rw (l, g) at k in absurd cc
  ]
]

module _ {S : Type 0} (serve : Request → S → Reply × S) (interrupted : World S → Option Failure)
    (parse_upload_id : Bytes → Option Bytes) (status_line : ℕ → Bytes) (hash : Bytes → Bytes)
    (part_size threshold : ℕ) where
  -- The endpoint answers a GET of the key, sent in world w, with a body of this hash and size.
  abbrev pub Holds : Bytes → Bytes → ℕ → World S → Type 0
  Holds key sha256 size w =
      (status : ℕ) × (etag : Bytes) × (body : Bytes) × ((serve (fetch key []) w.endpoint).0
        ≡ answered status etag body none)
      × ((status ≡ 200) ⊎ (status ≡ 206))
      × (hash body ≡ sha256)
      × (length body ≡ size)

  got-Holds :
      (key sha256 : Bytes) (size : ℕ) (w : World S) (reply : Reply)
      → (serve (fetch key []) w.endpoint).0 ≡ reply
      → is_identity sha256 size
          (identity_of serve status_line hash key (got serve status_line hash key reply))
        ≡ true
      → Holds key sha256 size w
  unfolding is_identity identity_of got
  got-Holds key sha256 size w (broken message) e h = cc
  got-Holds key sha256 size w (answered status etag body (some f)) e h =
      elim (Bool-cases ((status == 200) || (status == 206))) [
        | inl k ↦ absurd (cc (h, k))
        | inr k ↦ absurd (cc (h, k))
      ]
  got-Holds key sha256 size w (answered status etag body none) e h =
      elim (Bool-cases ((status == 200) || (status == 206))) [
        | inr k ↦ absurd (cc (h, k))
        | inl k ↦ elim (Bool-cases (ltb (length body) 1)) [
          | inl l ↦ absurd (cc (h, k, l))
          | inr l ↦
              let same : (bytes_eq (hash body) sha256 && (length body == size)) ≡ true =
                rw (k, l) at h in
              let (d, m) = and_split (bytes_eq (hash body) sha256) (length body == size) same in
              (
                status,
                etag,
                body,
                e,
                one_of status k,
                (bytes_eq_iff (hash body) sha256).0 d,
                (==_iff (length body) size).0 m,
              )
        ]
      ]

  -- What a nil error of put_stream rests on: the size is positive, the upload went through, ending in
  -- world w1, the stream of a single request had exactly that size, and the object that the endpoint
  -- answers with in w1 has the size and the hash that the caller gave.
  abbrev pub Verified : Bytes → Reader → ℤ → Bytes → World S → Type 0
  Verified key r size sha256 w =
      (n : ℕ) × (w1 : World S) × (size ≡ pos n)
      × (1 ≤ n)
      × (put_body serve interrupted parse_upload_id status_line hash part_size threshold key r n w
          ≡ (stored, w1))
      × (n ≤ threshold → length r.content ≡ n)
      × Holds key sha256 n w1

  inspect-Holds :
      (key sha256 : Bytes) (n : ℕ) (w : World S)
      → valid_key key ≡ true
      → is_identity sha256 n (inspect serve status_line hash key w).0 ≡ true
      → Holds key sha256 n w
  unfolding inspect get_object send
  inspect-Holds key sha256 n w k h =
      got-Holds key sha256 n w (serve (fetch key []) w.endpoint).0 refl (rw k at h)

  read_back-stored :
      (key sha256 : Bytes) (n : ℕ) (o : Put × World S)
      → valid_key key ≡ true
      → (read_back serve interrupted parse_upload_id status_line hash part_size threshold key sha256
          n o).0
        ≡ stored
      → (w1 : World S) × (o ≡ (stored, w1)) × Holds key sha256 n w1
  read_back-stored key sha256 n (stored, w) k h =
      elim (Bool-cases (is_identity sha256 n (inspect serve status_line hash key w).0)) [
        | inl i ↦ (w, refl, inspect-Holds key sha256 n w k i)
        | inr i ↦ absurd (cc (h, i))
      ]
  read_back-stored key sha256 n (put_failed e, w) k h = cc
  read_back-stored key sha256 n (put_panicked, w) k h = cc
  read_back-stored key sha256 n (put_stuck, w) k h = cc

  put_content-length :
      (key : Bytes) (n : ℕ) (r : Reader) (w : World S) (content : Result Bytes)
      → content ≡ read_limited (n + 1) r
      → (put_content serve interrupted parse_upload_id status_line hash part_size threshold key n
          content w).0
        ≡ stored
      → length r.content ≡ n
  unfolding read_limited
  put_content-length key n r w (err e) k h = cc
  put_content-length key n r w (ok content) k h = elim (Bool-cases (length content == n)) [
    | inr e ↦ absurd (cc (h, e))
    | inl e ↦ read_limited-length r content n k ((==_iff (length content) n).0 e)
  ]

  put_body-length :
      (key : Bytes) (r : Reader) (n : ℕ) (w : World S)
      → (put_body serve interrupted parse_upload_id status_line hash part_size threshold key r n
          w).0
        ≡ stored
      → n ≤ threshold
      → length r.content ≡ n
  unfolding put_body
  put_body-length key r n w h small =
      let yes : leb n threshold ≡ true = ground arith in
      put_content-length key n r w (read_limited (n + 1) r) refl (rw yes at h)

  put_sized-Verified :
      (key : Bytes) (r : Reader) (n : ℕ) (sha256 : Bytes) (w : World S)
      → valid_key key ≡ true
      → (put_sized serve interrupted parse_upload_id status_line hash part_size threshold key r n
          sha256 w).0
        ≡ stored
      → Verified key r (pos n) sha256 w
  put_sized-Verified key r n sha256 w k h = elim (Bool-cases (ltb n 1)) [
    | inl e ↦ absurd (cc (h, e))
    | inr e ↦ elim (Bool-cases (length sha256 == 64)) [
      | inr l ↦ absurd (cc (h, e, l))
      | inl l ↦
          let (w1, p, holds) =
            read_back-stored key sha256 n
              (put_body serve interrupted parse_upload_id status_line hash part_size threshold key r
                n w)
              k (rw (e, l) at h) in
          (
            n,
            w1,
            refl,
            ground arith,
            p,
            put_body-length key r n w (ap (λ (o : Put × World S). o.0) p),
            holds,
          )
    ]
  ]

  -- A call that returns nil was given a positive size, its upload went through, a stream that went in
  -- one request had exactly that size, and then the endpoint answered a GET of the key with a body of
  -- that size and of the hash given.
  pub put_stream-Verified :
      (key : Bytes) (r : Reader) (size : ℤ) (sha256 : Bytes) (w : World S)
      → (put_stream serve interrupted parse_upload_id status_line hash part_size threshold key r
          size sha256 w).0
        ≡ stored
      → Verified key r size sha256 w
  unfolding put_stream
  put_stream-Verified key r (pos n) sha256 w h = elim (Bool-cases (valid_key key)) [
    | inr k ↦ absurd (cc (h, k))
    | inl k ↦ put_sized-Verified key r n sha256 w k (rw k at h)
  ]
  put_stream-Verified key r (negsuc n) sha256 w h = elim (Bool-cases (valid_key key)) [
    | inr k ↦ absurd (cc (h, k))
    | inl k ↦ absurd (cc (h, k))
  ]
