-- ===== src/S3/Multipart/Abort.antt =====
-- How putMultipart of s3/multipart.go ends: with the upload completed, or given up with an abort.
use packages_go.Prelude.{
  ℕ, ◌+◌, ◌<◌, ◌≤◌, ◌^◌, ◌≡◌, refl, sym, ◌∙◌, ap, List, [], ◌∷◌, ◌++◌, append_assoc, map, Option,
  none, some, Bytes, All,
}
use packages_go.S3.Wire.{
  Failure, Result, ok, err, Request, create, complete, abort, Reply, World, send,
}
use packages_go.S3.Multipart.{Reader, upload_id_of, create_multipart_upload, status_error}
use packages_go.S3.Multipart.Upload.{
  Uploaded, parts_done, upload_failed, out_of_fuel, panicked, Put, stored, put_failed, put_panicked,
  put_stuck, upload_parts, complete_multipart_upload, abort_multipart_upload, abort_failed,
  after_complete, after_uploads, after_create, put_multipart,
}
use packages_go.S3.Multipart.Retry.{Entry, IsUpload, accepted}
use packages_go.S3.Multipart.Accepted.{IsCut, part_of, Delivers, upload_parts-Delivers}

module _ {S : Type 0} (serve : Request → S → Reply × S) (interrupted : World S → Option Failure)
    (size : ℕ) (positive : 0 < size) where
  -- The requests after the one that made the upload, on success: the parts, then their completion,
  -- which the endpoint confirms. The parts that it lists are those accepted, and they are the content
  -- cut up.
  abbrev pub Completes : Bytes → Bytes → Bytes → List Entry → Type 0
  Completes key id content entries =
      (sent : List Entry) × (reply : Reply) × (entries
        ≡ sent ++ (complete key id (map part_of (accepted sent)), reply) ∷ [])
      × All (IsUpload key id) sent
      × IsCut size 1 content (accepted sent)
      × (status_error "s3: complete multipart upload" reply ≡ none)

  -- On failure: the last request is the abort of the upload.
  abbrev pub Aborts : Bytes → Bytes → List Entry → Type 0
  Aborts key id entries =
      (before : List Entry) × (reply : Reply) × (entries ≡ before ++ (abort key id, reply) ∷ [])

  abbrev Ends : Bytes → Bytes → Bytes → World S → Put × World S → Type 0
  Ends key id content w (stored, w') =
      (entries : List Entry) × (w'.log ≡ w.log ++ entries) × Completes key id content entries
  Ends key id content w (put_failed e, w') =
      (entries : List Entry) × (w'.log ≡ w.log ++ entries) × Aborts key id entries
  Ends key id content w (put_panicked, w') = ⊥
  Ends key id content w (put_stuck, w') = ⊥

  abort_failed-Ends :
      (key id content : Bytes) (e returned : Failure) (prefix : Bytes) (w : World S)
      (o : Option Failure × World S) (entries : List Entry)
      → (o.1).log ≡ w.log ++ entries
      → Aborts key id entries
      → Ends key id content w (abort_failed e returned prefix o)
  abort_failed-Ends key id content e returned prefix w (none, w') entries h a = (entries, h, a)
  abort_failed-Ends key id content e returned prefix w (some f, w') entries h a = (entries, h, a)

  -- The log after one more request.
  sent_then :
      (w w' w'' : World S) (sent : List Entry) (entry : Entry)
      → w'.log ≡ w.log ++ sent
      → w''.log ≡ w'.log ++ entry ∷ []
      → w''.log ≡ w.log ++ (sent ++ entry ∷ [])
  sent_then w w' w'' sent entry h k =
      k ∙ ap (λ l. l ++ entry ∷ []) h ∙ append_assoc w.log sent (entry ∷ [])

  aborting-Ends :
      (key id content : Bytes) (e returned : Failure) (prefix : Bytes) (w w' : World S)
      (sent : List Entry)
      → w'.log ≡ w.log ++ sent
      → Ends key id content w
          (abort_failed e returned prefix (abort_multipart_upload serve interrupted size key id w'))
  unfolding abort_multipart_upload send
  aborting-Ends key id content e returned prefix w w' sent h =
      let reply : Reply = (serve (abort key id) w'.endpoint).0 in
      let w'' : World S = (abort_multipart_upload serve interrupted size key id w').1 in
      abort_failed-Ends key id content e returned prefix w
        (abort_multipart_upload serve interrupted size key id w')
        (sent ++ (abort key id, reply) ∷ []) (sent_then w w' w'' sent (abort key id, reply) h refl)
        (sent, reply, refl)

  after_complete-Ends :
      (key id content : Bytes) (w w' : World S) (sent : List Entry) (reply : Reply)
      (o : Option Failure × World S)
      → (o.1).log ≡ w.log ++ (sent ++ (complete key id (map part_of (accepted sent)), reply) ∷ [])
      → o.0 ≡ status_error "s3: complete multipart upload" reply
      → All (IsUpload key id) sent
      → IsCut size 1 content (accepted sent)
      → Ends key id content w (after_complete serve interrupted size key id o)
  after_complete-Ends key id content w w' sent reply (none, w'') h e u c =
      let entries = sent ++ (complete key id (map part_of (accepted sent)), reply) ∷ [] in
      let done : Completes key id content entries = (sent, reply, refl, u, c, sym e) in
      (entries, h, done)
  after_complete-Ends key id content w w' sent reply (some f, w'') h e u c =
      aborting-Ends key id content f _ _ w w'' _ h

  after_uploads-Ends :
      (key id content : Bytes) (w : World S) (o : Uploaded × World S)
      → Delivers serve interrupted size key id 1 [] content w o
      → Ends key id content w (after_uploads serve interrupted size key id o)
  unfolding complete_multipart_upload send
  after_uploads-Ends key id content w (parts_done ps, w') (pieces, s, e, c) =
      let reply : Reply = (serve (complete key id ps) w'.endpoint).0 in
      let o = complete_multipart_upload serve interrupted size key id ps w' in
      let listed : ps ≡ map part_of (accepted s.sent) = e ∙ ap (map part_of) (sym s.taken) in
      after_complete-Ends key id content w w' s.sent reply o
        (rw (← listed) (sent_then w w' o.1 s.sent (complete key id ps, reply) s.logged refl)) refl
        s.uploads (rw s.taken c)
  after_uploads-Ends key id content w (upload_failed e, w') (pieces, s) =
      aborting-Ends key id content e e _ w w' s.sent s.logged
  after_uploads-Ends key id content w (out_of_fuel, w') x = elim x [ ]
  after_uploads-Ends key id content w (panicked, w') x = elim x [ ]

  module _ (parse_upload_id : Bytes → Option Bytes) where
    abbrev pub Ended : Bytes → Bytes → Put → List Entry → Result Bytes → Type 0
    Ended key content stored entries (ok id) = Completes key id content entries
    Ended key content (put_failed e) entries (ok id) = Aborts key id entries
    Ended key content stored entries (err f) = ⊥
    Ended key content (put_failed e) entries (err f) = entries ≡ []
    Ended key content put_panicked entries id = ⊥
    Ended key content put_stuck entries id = ⊥

    -- What one call sends: the request that makes the upload, alone when it fails, and else what
    -- completes or aborts the upload that its reply names.
    abbrev pub Settles : Bytes → Bytes → World S → Put × World S → Type 0
    Settles key content w (result, w') =
        (reply : Reply) × (entries : List Entry) × (w'.log ≡ w.log ++ (create key, reply) ∷ entries)
        × Ended key content result entries (upload_id_of serve parse_upload_id reply)

    after_create-Settles :
        (key : Bytes) (r : Reader) (total : ℕ) (w w' : World S) (reply : Reply) (id : Result Bytes)
        → w'.log ≡ w.log ++ (create key, reply) ∷ []
        → total + size ≤ 2 ^ 63
        → id ≡ upload_id_of serve parse_upload_id reply
        → Settles key r.content w (after_create serve interrupted size key r total (id, w'))
    after_create-Settles key r total w w' reply (err f) h fits e = (reply, [], h, rw (← e) refl)
    after_create-Settles key r total w w' reply (ok id) h fits e =
        go
          (after_uploads serve interrupted size key id
            (upload_parts serve interrupted size key id r total w'))
          (after_uploads-Ends key id r.content w' _
            (upload_parts-Delivers serve interrupted size key id positive r total w' fits))
      where
        go : (o : Put × World S) → Ends key id r.content w' o → Settles key r.content w o
        go (stored, w'') (entries, l, c) = (
          reply,
          entries,
          l ∙ ap (λ k. k ++ entries) h ∙ append_assoc w.log _ entries,
          rw (← e) c,
        )
        go (put_failed f, w'') (entries, l, a) = (
          reply,
          entries,
          l ∙ ap (λ k. k ++ entries) h ∙ append_assoc w.log _ entries,
          rw (← e) a,
        )
        go (put_panicked, w'') x = elim x [ ]
        go (put_stuck, w'') x = elim x [ ]

    -- For a positive part size, and a declared total whose sum with it fits an int64. A call first
    -- asks for an upload; when that fails it sends nothing else and returns an error. Otherwise, when it
    -- returns nil, the endpoint has accepted for that upload the whole stream, cut into parts numbered
    -- from 1, nothing else was sent, and the last request, which the endpoint confirmed, completes the
    -- upload with exactly those parts; and when it returns an error, its last request is the abort of
    -- that upload.
    pub put_multipart-Settles :
        (key : Bytes) (r : Reader) (total : ℕ) (w : World S)
        → total + size ≤ 2 ^ 63
        → Settles key r.content w
            (put_multipart serve interrupted size parse_upload_id key r total w)
    unfolding put_multipart create_multipart_upload send
    put_multipart-Settles key r total w fits =
        let made = create_multipart_upload serve parse_upload_id key w in
        after_create-Settles key r total w made.1 (serve (create key) w.endpoint).0 made.0 refl fits
          refl
