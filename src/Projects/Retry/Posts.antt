-- ===== src/Projects/Retry/Posts.antt =====
-- What a Retry of fulcrumprojects/client.go sends.
use packages_go.Prelude.{
  ℕ, ◌≡◌, refl, sym, inl, inr, true, false, List, [], ◌∷◌, ◌++◌, append-nil, Bytes, Bool-cases,
}
use packages_go.Errors.{GoError, Result, ok, err, errorf, is_code}
use packages_go.Projects.Codes.{Code, invalid_request, same_code}
use packages_go.Projects.Client.{
  Snapshot, Mutation, Outcome, Batch, Request, read_snapshot, post, Reply, World, Json, snapshot_in,
  results_in, call, snapshot, batch_of, mutate,
}
use packages_go.Projects.Retry.{
  is_mismatch, after_snapshot, after_mutate, after_build, retry_from, retry,
}
use packages_go.Projects.Retry.Attempt.{
  Entry, Sends, Sends-trans, Mutated, mutate-Mutated, Last, retry_from-Last,
}

-- The reply to a batch is read as an epoch mismatch.
abbrev pub IsMismatch : Json → Batch → Reply → Type 0
IsMismatch j b reply =
    (e : GoError Code) × (results_in j b.mutations reply ≡ err e) × (is_mismatch e ≡ true)

-- The batch carries the epoch of the snapshot that the reply is read as.
abbrev pub IsUnder : Json → Reply → Batch → Type 0
IsUnder j reply b = (s : Snapshot) × (snapshot_in j reply ≡ ok s) × (b.epoch ≡ s.epoch)

-- The requests that one Retry may send, in order.
pub data IsRun (j : Json) : List Entry → Type 0 where
  -- a snapshot, and no batch
  snapshot_only : (r : Reply) → IsRun j ((read_snapshot [], r) ∷ [])
  -- one batch
  one_batch :
      (r r1 : Reply) (b : Batch)
      → IsUnder j r b
      → IsRun j ((read_snapshot [], r) ∷ (post b, r1) ∷ [])
  -- a batch refused for its epoch, and another snapshot
  no_second_batch :
      (r r1 r2 : Reply) (b : Batch)
      → IsUnder j r b
      → IsMismatch j b r1
      → IsRun j ((read_snapshot [], r) ∷ (post b, r1) ∷ (read_snapshot [], r2) ∷ [])
  -- and a batch under the epoch of that one
  two_batches :
      (r r1 r2 r3 : Reply) (b b' : Batch)
      → IsUnder j r b
      → IsMismatch j b r1
      → IsUnder j r2 b'
      → IsRun j ((read_snapshot [], r) ∷ (post b, r1) ∷ (read_snapshot [], r2) ∷ (post b', r3) ∷ [])

module _ {S : Type 0} (serve : Request → S → Reply × S) (j : Json) (client_id : Bytes)
    (build : ℕ → Snapshot → Result Code (List Mutation)) where
  -- What follows the first snapshot, whose reply is r.
  abbrev Runs : Reply → World S → World S → Type 0
  Runs r w w' =
      (es : List Entry) × Sends serve j client_id build w w' es
      × IsRun j ((read_snapshot [], r) ∷ es)

  second-Runs :
      (r r1 r2 : Reply) (b : Batch) (s : Snapshot) (w w1 w2 w3 : World S)
      → IsUnder j r b
      → IsMismatch j b r1
      → snapshot_in j r2 ≡ ok s
      → Sends serve j client_id build w w2 ((post b, r1) ∷ (read_snapshot [], r2) ∷ [])
      → Last serve j client_id build s w2 w3
      → Runs r w w3
  second-Runs r r1 r2 b s w w1 w2 w3 u m k h (inl l) = (
    (post b, r1) ∷ (read_snapshot [], r2) ∷ [],
    Sends-trans serve j client_id build w w2 w3 _ [] h l,
    no_second_batch r r1 r2 b u m,
  )
  second-Runs r r1 r2 b s w w1 w2 w3 u m k h (inr (b', r3, l, e)) = (
    (post b, r1) ∷ (read_snapshot [], r2) ∷ (post b', r3) ∷ [],
    Sends-trans serve j client_id build w w2 w3 _ ((post b', r3) ∷ []) h l,
    two_batches r r1 r2 r3 b b' u m (s, k, e),
  )

  after_snapshot-Runs :
      (r r1 r2 : Reply) (b : Batch) (w w1 : World S) (o : Result Code Snapshot × World S)
      → IsUnder j r b
      → IsMismatch j b r1
      → Sends serve j client_id build w w1 ((post b, r1) ∷ [])
      → snapshot_in j r2 ≡ o.0
      → Sends serve j client_id build w1 o.1 ((read_snapshot [], r2) ∷ [])
      → Runs r w
          (after_snapshot serve j client_id build o
            (λ s w'. retry_from serve j client_id build 1 1 s w')).1
  after_snapshot-Runs r r1 r2 b w w1 (err e, w2) u m h k l = (
    (post b, r1) ∷ (read_snapshot [], r2) ∷ [],
    Sends-trans serve j client_id build w w1 w2 ((post b, r1) ∷ []) ((read_snapshot [], r2) ∷ []) h
        l,
    no_second_batch r r1 r2 b u m,
  )
  after_snapshot-Runs r r1 r2 b w w1 (ok s, w2) u m h k l =
      second-Runs r r1 r2 b s w w1 w2 (retry_from serve j client_id build 1 1 s w2).1 u m k
        (Sends-trans serve j client_id build w w1 w2 ((post b, r1) ∷ [])
          ((read_snapshot [], r2) ∷ []) h l)
        (retry_from-Last serve j client_id build s w2)

  reread-Runs :
      (r r1 : Reply) (b : Batch) (w w1 : World S)
      → IsUnder j r b
      → IsMismatch j b r1
      → Sends serve j client_id build w w1 ((post b, r1) ∷ [])
      → Runs r w
          (after_snapshot serve j client_id build
            (snapshot serve j client_id [] w1)
            (λ s w'. retry_from serve j client_id build 1 1 s w')).1
  unfolding snapshot call
  reread-Runs r r1 b w w1 u m h =
      after_snapshot-Runs r r1 (serve (read_snapshot []) w1.endpoint).0 b w w1
        (snapshot serve j client_id [] w1) u m h refl refl

  invalid_request-mismatch : is_mismatch (errorf invalid_request) ≡ false
  unfolding is_mismatch is_code same_code
  invalid_request-mismatch = refl

  after_mutate-Runs :
      (r : Reply) (s : Snapshot) (w : World S) (o : Result Code (List Outcome) × World S)
      → snapshot_in j r ≡ ok s
      → Mutated serve j client_id build s.epoch w o
      → Runs r w
          (after_mutate serve j client_id build 0 s o
            (λ s' w'. retry_from serve j client_id build 1 1 s' w')).1
  after_mutate-Runs r s w (ok results, w') k (inl (h, e)) = cc
  after_mutate-Runs r s w (err e', w') k (inl (h, e)) =
      let same : e' ≡ errorf invalid_request = cc in
      rw (same, invalid_request-mismatch) ([], h, snapshot_only r)
  after_mutate-Runs r s w (ok results, w') k (inr (ms, r1, h, e)) =
      ((post (batch_of serve j client_id s.epoch ms), r1) ∷ [], h, one_batch r r1 _ (s, k, refl))
  after_mutate-Runs r s w (err e, w') k (inr (ms, r1, h, q)) = elim (Bool-cases (is_mismatch e)) [
    | inl m ↦
        rw m
          (reread-Runs r r1 (batch_of serve j client_id s.epoch ms) w w' (s, k, refl) (e, q, m) h)
    | inr m ↦
        rw m (
          (post (batch_of serve j client_id s.epoch ms), r1) ∷ [],
          h,
          one_batch r r1 _ (s, k, refl),
        )
  ]

  after_build-Runs :
      (r : Reply) (s : Snapshot) (w : World S) (o : Result Code (List Mutation))
      → snapshot_in j r ≡ ok s
      → Runs r w
          (after_build serve j client_id build 0 s o w
            (λ s' w'. retry_from serve j client_id build 1 1 s' w')).1
  after_build-Runs r s w (err e) k = ([], sym (append-nil w.log), snapshot_only r)
  after_build-Runs r s w (ok ms) k =
      after_mutate-Runs r s w (mutate serve j client_id s.epoch ms w) k
        (mutate-Mutated serve j client_id build s.epoch ms w)

  first-Runs :
      (w : World S) (r : Reply) (o : Result Code Snapshot × World S)
      → snapshot_in j r ≡ o.0
      → Sends serve j client_id build w o.1 ((read_snapshot [], r) ∷ [])
      → (es : List Entry) × Sends serve j client_id build w
          (after_snapshot serve j client_id build o
            (λ s w'. retry_from serve j client_id build 2 0 s w')).1
          es
        × IsRun j es
  unfolding retry_from
  first-Runs w r (err e, w1) k h = ((read_snapshot [], r) ∷ [], h, snapshot_only r)
  first-Runs w r (ok s, w1) k h =
      let (es, l, run) = after_build-Runs r s w1 (build 0 s) k in
      (
        (read_snapshot [], r) ∷ es,
        Sends-trans serve j client_id build w w1 (retry_from serve j client_id build 2 0 s w1).1
            ((read_snapshot [], r) ∷ []) es h l,
        run,
      )

  -- One Retry sends a snapshot request, then at most one batch, under that snapshot's epoch. Only when
  -- the batch is refused with an epoch mismatch it sends another snapshot request, and then at most
  -- one more batch, under the epoch of the new snapshot; and nothing after that.
  pub retry-IsRun :
      (w : World S)
      → (es : List Entry) × ((retry serve j client_id build w).1.log ≡ w.log ++ es) × IsRun j es
  unfolding retry snapshot call
  retry-IsRun w =
      first-Runs w (serve (read_snapshot []) w.endpoint).0 (snapshot serve j client_id [] w) refl
        refl
