-- ===== src/S3/Multipart/Accepted.antt =====
-- What uploadParts of s3/multipart.go has uploaded when it returns.
use packages_go.Prelude.{
  inl, inr, ℕ, zero, suc, ◌+◌, ◌-◌, ◌/◌, ◌^◌, ◌≤◌, ◌<◌, ◌≡◌, ◌≢◌, refl, sym, ◌∙◌, ap, false, List,
  [], ◌∷◌, ◌++◌, append_assoc, append-nil, map, Option, Bytes, arith, length, length-drop, take,
  drop, take-append-drop, ltb, leb, Bool-cases,
}
use packages_go.S3.Wire.{Failure, Result, ok, err, Part, Request, Reply, World}
use packages_go.S3.Multipart.{max_multipart_parts, Reader, upload_part_with_retry}
use packages_go.S3.Multipart.Upload.{
  ReadEnd, full, at_end, failed, read_end, Uploaded, parts_done, upload_failed, panicked,
  out_of_fuel, rest_of, checked_parts, after_upload, after_read, upload_loop, upload_parts,
}
use packages_go.S3.Multipart.Retry.{
  Piece, piece_if, Sends, Sends-none, Sends-trans, upload_part_with_retry-Sends,
}

-- The pieces are numbered from n on, and are the content cut into slices of `size` bytes: each piece
-- is the next `size` bytes or, at the end, the fewer that are left.
abbrev pub IsCut : ℕ → ℕ → Bytes → List Piece → Type 0
IsCut size n content [] = content ≡ []
IsCut size n content ((p, b) ∷ ps) =
    (p.number ≡ n)
    × (b ≡ take size content)
    × (content ≢ [])
    × IsCut size (n + 1) (drop size content) ps

abbrev pub part_of : Piece → Part
part_of (p, b) = p

abbrev pub joined : List Piece → Bytes
joined [] = []
joined ((p, b) ∷ ps) = b ++ joined ps

pub IsCut-joined :
    (size n : ℕ) (content : Bytes) (ps : List Piece) → IsCut size n content ps → joined ps ≡ content
IsCut-joined size n content [] h = sym h
IsCut-joined size n content ((p, b) ∷ ps) (_, e, _, h) =
    rw (e, IsCut-joined size (n + 1) (drop size content) ps h, take-append-drop size content)

drop_all {ℓ} : {A : Type ℓ} (n : ℕ) (xs : List A) → length xs ≤ n → drop n xs ≡ []
drop_all zero [] h = refl
drop_all zero (x ∷ xs) h = absurd (omega (arith, h))
drop_all (suc n) [] h = refl
drop_all (suc n) (x ∷ xs) h = drop_all n xs (omega (arith, h))

take-nil {ℓ} : {A : Type ℓ} (n : ℕ) → take {A = A} n [] ≡ []
take-nil zero = refl
take-nil (suc n) = refl

take_none {ℓ} : {A : Type ℓ} (n : ℕ) (xs : List A) → 0 < n → [] ≡ take n xs → xs ≡ []
take_none zero xs h e = absurd (omega (arith, h))
take_none (suc n) [] h e = refl
take_none (suc n) (x ∷ xs) h e = cc

module _ {S : Type 0} (serve : Request → S → Reply × S) (interrupted : World S → Option Failure)
    (size : ℕ) (key id : Bytes) where
  -- All of the content was accepted, in parts that are those listed after `before`; or some parts
  -- were when an error is reported.
  abbrev pub Delivers : ℕ → List Part → Bytes → World S → Uploaded × World S → Type 0
  Delivers n before content w (parts_done ps, w') =
      (pieces : List Piece) × Sends key id w w' pieces
      × (ps ≡ before ++ map part_of pieces)
      × IsCut size n content pieces
  Delivers n before content w (upload_failed e, w') =
      (pieces : List Piece) × Sends key id w w' pieces
  Delivers n before content w (panicked, w') = ⊥
  Delivers n before content w (out_of_fuel, w') = ⊥

  checked_parts-Delivers :
      (n : ℕ) (before parts : List Part) (content : Bytes) (w w' : World S) (pieces : List Piece)
      → Sends key id w w' pieces
      → parts ≡ before ++ map part_of pieces
      → IsCut size n content pieces
      → Delivers n before content w (checked_parts parts, w')
  unfolding checked_parts
  checked_parts-Delivers n before [] content w w' pieces s e c = (pieces, s)
  checked_parts-Delivers n before (p ∷ ps) content w w' pieces s e c = (pieces, s, e, c)

  -- A later round's delivery, after a piece that was accepted.
  Delivers-after :
      (n : ℕ) (before : List Part) (piece : Piece) (content : Bytes) (w w' : World S)
      (o : Uploaded × World S)
      → Sends key id w w' (piece ∷ [])
      → (piece.0).number ≡ n
      → piece.1 ≡ take size content
      → content ≢ []
      → Delivers (n + 1) (before ++ piece.0 ∷ []) (drop size content) w' o
      → Delivers n before content w o
  Delivers-after n before piece content w w' (parts_done ps, w'') s e k h (pieces, t, l, c) =
      let cut : IsCut size n content (piece ∷ pieces) = (e, k, h, c) in
      (
        piece ∷ pieces,
        Sends-trans key id w w' w'' (piece ∷ []) pieces s t,
        l ∙ append_assoc before (piece.0 ∷ []) (map part_of pieces),
        cut,
      )
  Delivers-after n before piece content w w' (upload_failed f, w'') s e k h (pieces, t) =
      (piece ∷ pieces, Sends-trans key id w w' w'' (piece ∷ []) pieces s t)
  Delivers-after n before piece content w w' (out_of_fuel, w'') s e k h x = elim x [ ]
  Delivers-after n before piece content w w' (panicked, w'') s e k h x = elim x [ ]

  after_upload-Delivers :
      (n : ℕ) (before : List Part) (chunk content : Bytes) (w : World S)
      (o : Result Bytes × World S) (next : Part → World S → Uploaded × World S)
      → Sends key id w o.1 (piece_if n chunk o.0)
      → chunk ≡ take size content
      → content ≢ []
      → ((p : Part) (w' : World S)
          → Delivers (n + 1) (before ++ p ∷ []) (drop size content) w' (next p w'))
      → Delivers n before content w (after_upload n o next)
  after_upload-Delivers n before chunk content w (err e, w') next s k h rest = ([], s)
  after_upload-Delivers n before chunk content w (ok etag, w') next s k h rest =
      let p : Part = record { number = n; etag = etag } in
      Delivers-after n before (p, chunk) content w w' (next p w') s refl k h (rest p w')

  empty_end :
      (n : ℕ) (before : List Part) (content : Bytes) (w : World S)
      → content ≡ []
      → Delivers n before content w (checked_parts before, w)
  empty_end n before content w e =
      checked_parts-Delivers n before before content w w [] (Sends-none key id w)
        (sym (append-nil before)) e

  abbrev Fits : Bytes → ReadEnd → Type 0
  Fits content full = size ≤ length content
  Fits content at_end = length content < size
  Fits content (failed e) = Unit

  read_end-Fits : (r : Reader) → Fits r.content (read_end size r)
  unfolding read_end
  read_end-Fits r = ground arith

  taken_nonempty :
      (content : Bytes) (c : ℕ) (chunk : Bytes) → c ∷ chunk ≡ take size content → content ≢ []
  taken_nonempty content c chunk k e = let n = k ∙ ap (take size) e ∙ take-nil {A = ℕ} size in cc

  module _ (positive : 0 < size) where
    take_empty : (content : Bytes) → [] ≡ take size content → content ≡ []
    take_empty content e = take_none size content positive e

    after_read-Delivers :
        (end : ReadEnd) (n : ℕ) (before : List Part) (chunk content : Bytes) (w : World S)
        (up : World S → Result Bytes × World S) (next : List Part → World S → Uploaded × World S)
        → Fits content end
        → chunk ≡ take size content
        → Sends key id w (up w).1 (piece_if n chunk (up w).0)
        → (size ≤ length content
            → (ps : List Part) (w' : World S)
            → Delivers (n + 1) ps (drop size content) w' (next ps w'))
        → Delivers n before content w (after_read end n before chunk w up next)
    after_read-Delivers (failed e) n before chunk content w up next f k s rest =
        ([], Sends-none key id w)
    after_read-Delivers full n before [] content w up next f k s rest =
        empty_end n before content w (take_empty content k)
    after_read-Delivers full n before (c ∷ chunk) content w up next f k s rest =
        after_upload-Delivers n before (c ∷ chunk) content w (up w)
          (λ p w'. next (before ++ p ∷ []) w') s k (taken_nonempty content c chunk k)
          λ p w'. rest f (before ++ p ∷ []) w'
    after_read-Delivers at_end n before [] content w up next f k s rest =
        empty_end n before content w (take_empty content k)
    after_read-Delivers at_end n before (c ∷ chunk) content w up next f k s rest =
        after_upload-Delivers n before (c ∷ chunk) content w (up w)
          (λ p w'. (checked_parts (before ++ p ∷ []), w')) s k (taken_nonempty content c chunk k)
          λ p w'.
            empty_end (n + 1) (before ++ p ∷ []) (drop size content) w'
              (drop_all size content (omega (arith, f)))

    upload_loop-Delivers :
        (fuel n : ℕ) (before : List Part) (r : Reader) (w : World S)
        → length r.content < fuel
        → Delivers n before r.content w
            (upload_loop serve interrupted size fuel key id n before r w)
    unfolding upload_loop
    upload_loop-Delivers zero n before r w h = absurd (omega (arith, h))
    upload_loop-Delivers (suc fuel) n before r w h =
        after_read-Delivers (read_end size r) n before (take size r.content) r.content w
          (upload_part_with_retry serve interrupted key id n (take size r.content))
          (λ ps w'. upload_loop serve interrupted size fuel key id (n + 1) ps (rest_of size r) w')
          (read_end-Fits r) refl
          (upload_part_with_retry-Sends serve interrupted key id n (take size r.content) w)
          λ f ps w'.
            upload_loop-Delivers fuel (n + 1) ps (rest_of size r) w'
              (omega (arith, h, f, length-drop size r.content))

    -- For a positive part size, and a declared total whose sum with it fits an int64, upload_parts
    -- returns parts or an error. When it returns parts, the endpoint has accepted exactly those,
    -- numbered from 1, and their bytes are the whole stream cut into slices of the part size, the last
    -- one shorter; in either case it sent nothing but parts of this upload.
    pub upload_parts-Delivers :
        (r : Reader) (total : ℕ) (w : World S)
        → total + size ≤ 2 ^ 63
        → Delivers 1 [] r.content w (upload_parts serve interrupted size key id r total w)
    unfolding upload_parts
    upload_parts-Delivers r total w fits =
        let small : leb (2 ^ 63) (total + size - 1) ≡ false = ground arith in
        rw small (elim (Bool-cases (ltb max_multipart_parts ((total + size - 1) / size))) [
          | inl e ↦ rw e ([], Sends-none key id w)
          | inr e ↦ rw e (upload_loop-Delivers (suc (length r.content)) 1 [] r w (omega arith))
        ])
