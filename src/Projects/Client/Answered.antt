-- ===== src/Projects/Client/Answered.antt =====
-- What a Mutate of fulcrumprojects/client.go that returns results has checked.
use packages_go.Prelude.{
  ◌≡◌, ◌≤◌, refl, inl, inr, true, false, ◌||◌, ◌==◌, List, [], ◌∷◌, ◌++◌, map, Bytes, ltb, length,
  is_empty, bytes_eq, bytes_eq_iff, and_split, neither, ==_iff, Bool-cases, ℤ, arith,
}
use packages_go.Errors.{ok, ◌>>=◌, bind-ok}
use packages_go.Projects.Client.{
  Mutation, Outcome, Request, post, Reply, World, Json, payload_of, decoded, same_ids,
  checked_results, results_in, any_incomplete, call, batch_of, mutate,
}

abbrev pub result_id : Outcome → Bytes
result_id r = r.mutation_id

abbrev pub mutation_id : Mutation → Bytes
mutation_id m = m.mutation_id

same_ids-map :
    (rs : List Outcome) (ms : List Mutation)
    → length rs ≡ length ms
    → same_ids rs ms ≡ true
    → map result_id rs ≡ map mutation_id ms
unfolding same_ids
same_ids-map [] [] l h = refl
same_ids-map [] (m ∷ ms) l h = absurd (omega (arith, l))
same_ids-map (r ∷ rs) [] l h = absurd (omega (arith, l))
same_ids-map (r ∷ rs) (m ∷ ms) l h =
    let (e, k) = and_split (bytes_eq r.mutation_id m.mutation_id) (same_ids rs ms) h in
    rw ((bytes_eq_iff r.mutation_id m.mutation_id).0 e, same_ids-map rs ms (omega (arith, l)) k)

checked_results-ids :
    (ms : List Mutation) (rs results : List Outcome)
    → checked_results ms rs ≡ ok results
    → map result_id results ≡ map mutation_id ms
unfolding checked_results
checked_results-ids ms rs results h = elim (Bool-cases (length rs == length ms)) [
  | inr e ↦ absurd (cc (h, e))
  | inl e ↦ elim (Bool-cases (same_ids rs ms)) [
    | inr k ↦ absurd (cc (h, e, k))
    | inl k ↦
        let same : ok rs ≡ ok results = rw (e, k) at h in
        let it : rs ≡ results = cc in
        rw (← it) (same_ids-map rs ms ((==_iff (length rs) (length ms)).0 e) k)
  ]
]

results_in-ids :
    (j : Json) (ms : List Mutation) (reply : Reply) (results : List Outcome)
    → results_in j ms reply ≡ ok results
    → map result_id results ≡ map mutation_id ms
unfolding results_in
results_in-ids j ms reply results h =
    let (rs, e, k) =
      bind-ok (payload_of j reply >>= λ payload. decoded (j.results_of payload))
        (checked_results ms) results h in
    checked_results-ids ms rs results k

nonempty : (ms : List Mutation) → is_empty ms ≡ false → 1 ≤ length ms
nonempty [] h = cc
nonempty (m ∷ ms) h = omega arith

module _ {S : Type 0} (serve : Request → S → Reply × S) (j : Json) (client_id : Bytes) where
  -- A Mutate that returns results was given 1 to 32 mutations, all complete, has sent one batch of
  -- them, and its results answer the mutations in order: the IDs are the same lists.
  pub mutate-answered :
      (epoch : ℤ) (ms : List Mutation) (w : World S) (results : List Outcome)
      → (mutate serve j client_id epoch ms w).0 ≡ ok results
      → (r : Reply) × ((mutate serve j client_id epoch ms w).1.log
          ≡ w.log ++ (post (batch_of serve j client_id epoch ms), r) ∷ [])
        × (1 ≤ length ms)
        × (length ms ≤ 32)
        × (any_incomplete j ms ≡ false)
        × (map result_id results ≡ map mutation_id ms)
  unfolding mutate call
  mutate-answered epoch ms w results h = elim (Bool-cases (is_empty ms || ltb 32 (length ms))) [
    | inl e ↦ absurd (cc (h, e))
    | inr e ↦ elim (Bool-cases (any_incomplete j ms)) [
      | inl k ↦ absurd (cc (h, e, k))
      | inr k ↦
          let r : Reply = (serve (post (batch_of serve j client_id epoch ms)) w.endpoint).0 in
          let read : results_in j ms r ≡ ok results = rw (e, k) at h in
          let (full, small) = neither (is_empty ms) (ltb 32 (length ms)) e in
          (r, rw (e, k) refl, nonempty ms full, ground arith, k, results_in-ids j ms r results read)
    ]
  ]
