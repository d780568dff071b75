-- ===== src/Projects/Retry/Attempt.antt =====
-- What one attempt in Retry of fulcrumprojects/client.go sends.
use packages_go.Prelude.{
  ℕ, ◌≡◌, refl, sym, ◌∙◌, ap, ◌⊎◌, inl, inr, not, ◌||◌, List, [], ◌∷◌, ◌++◌, append_assoc,
  append-nil, Bytes, ltb, length, is_empty, Bool-cases, or_true, ℤ,
}
use packages_go.Errors.{Result, ok, err, fail}
use packages_go.Projects.Codes.{Code, invalid_request}
use packages_go.Projects.Client.{
  Snapshot, Mutation, Outcome, Batch, Request, post, Reply, World, Json, results_in, any_incomplete,
  call, batch_of, mutate,
}
use packages_go.Projects.Retry.{is_mismatch, Answer, after_mutate, after_build, retry_from}

abbrev pub Entry : Type 0
Entry = Request × Reply

module _ {S : Type 0} (serve : Request → S → Reply × S) (j : Json) (client_id : Bytes)
    (build : ℕ → Snapshot → Result Code (List Mutation)) where
  -- From w to w' the entries were sent.
  abbrev pub Sends : World S → World S → List Entry → Type 0
  Sends w w' entries = w'.log ≡ w.log ++ entries

  pub Sends-trans :
      (w w' w'' : World S) (a b : List Entry) → Sends w w' a → Sends w' w'' b → Sends w w'' (a ++ b)
  Sends-trans w w' w'' a b s t = t ∙ ap (λ l. l ++ b) s ∙ append_assoc w.log a b

  -- A mutate sends nothing, and its error is no mismatch; or it sends one batch, and its result is
  -- read from the reply.
  abbrev pub Mutated : ℤ → World S → Result Code (List Outcome) × World S → Type 0
  Mutated epoch w (o, w') =
      (Sends w w' [] × (o ≡ fail invalid_request))
      ⊎ ((ms : List Mutation) × (r : Reply) × Sends w w'
            ((post (batch_of serve j client_id epoch ms), r) ∷ [])
          × (results_in j ms r ≡ o))

  pub mutate-Mutated :
      (epoch : ℤ) (ms : List Mutation) (w : World S)
      → Mutated epoch w (mutate serve j client_id epoch ms w)
  unfolding mutate call
  mutate-Mutated epoch ms w = elim (Bool-cases (is_empty ms || ltb 32 (length ms))) [
    | inl e ↦ rw e (inl (sym (append-nil w.log), refl))
    | inr e ↦ elim (Bool-cases (any_incomplete j ms)) [
      | inl k ↦ rw (e, k) (inl (sym (append-nil w.log), refl))
      | inr k ↦ rw (e, k) (inr (ms, _, refl, refl))
    ]
  ]

  -- The second attempt sends nothing, or one batch under its snapshot's epoch.
  abbrev pub Last : Snapshot → World S → World S → Type 0
  Last s w w' =
      Sends w w' []
      ⊎ ((b : Batch) × (r : Reply) × Sends w w' ((post b, r) ∷ []) × (b.epoch ≡ s.epoch))

  Mutated-Last :
      (s : Snapshot) (w : World S) (o : Result Code (List Outcome) × World S)
      → Mutated s.epoch w o
      → Last s w o.1
  Mutated-Last s w (o, w') (inl (h, e)) = inl h
  Mutated-Last s w (o, w') (inr (ms, r, h, e)) =
      inr (batch_of serve j client_id s.epoch ms, r, h, refl)

  after_mutate-Last :
      (s : Snapshot) (w : World S) (o : Result Code (List Outcome) × World S)
      (next : Snapshot → World S → Answer × World S)
      → Mutated s.epoch w o
      → Last s w (after_mutate serve j client_id build 1 s o next).1
  after_mutate-Last s w (ok results, w') next h = Mutated-Last s w (ok results, w') h
  after_mutate-Last s w (err e, w') next h =
      rw (or_true (not (is_mismatch e))) (Mutated-Last s w (err e, w') h)

  after_build-Last :
      (s : Snapshot) (w : World S) (o : Result Code (List Mutation))
      (next : Snapshot → World S → Answer × World S)
      → Last s w (after_build serve j client_id build 1 s o w next).1
  after_build-Last s w (err e) next = inl (sym (append-nil w.log))
  after_build-Last s w (ok ms) next =
      after_mutate-Last s w (mutate serve j client_id s.epoch ms w) next
        (mutate-Mutated s.epoch ms w)

  pub retry_from-Last :
      (s : Snapshot) (w : World S) → Last s w (retry_from serve j client_id build 1 1 s w).1
  unfolding retry_from
  retry_from-Last s w =
      after_build-Last s w (build 1 s) λ s' w'. retry_from serve j client_id build 0 2 s' w'
