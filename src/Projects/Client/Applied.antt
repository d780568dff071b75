-- ===== src/Projects/Client/Applied.antt =====
-- Results.Applied of fulcrumprojects/client.go.
use packages_go.Prelude.{
  ◌≡◌, ◌≢◌, refl, ap, ◌⊎◌, inl, inr, ◌||◌, List, [], ◌∷◌, ◌++◌, Option, none, some, Bytes, codes,
  bytes_eq, bytes_eq_iff, All, if◌then◌else◌, Bool-cases, or_split,
}
use packages_go.Errors.{Result, ok, fail}
use packages_go.Projects.Codes.{
  Code, conflict, transport_unavailable, invalid_request, unexpected_response,
}
use packages_go.Projects.Client.{Outcome, Original}

-- The case of a duplicate.
unfoldable pub original_entity : Option Original → Result Code Bytes
original_entity none = fail conflict
original_entity (some o) =
    if bytes_eq o.status (codes "applied") then ok o.entity else fail conflict

-- The switch on the status.
unfoldable pub entity_of : Outcome → Result Code Bytes
entity_of r =
    if bytes_eq r.status (codes "applied") || bytes_eq r.status (codes "answered")
    then ok r.entity
    else if bytes_eq r.status (codes "duplicate")
    then original_entity r.original
    else if bytes_eq r.status (codes "conflict")
    then fail conflict
    else if bytes_eq r.status (codes "retryable")
    then fail transport_unavailable
    else fail invalid_request

unfoldable pub applied : List Outcome → Bytes → Result Code Bytes
applied [] id = fail unexpected_response
applied (r ∷ rs) id =
    let rest = applied rs id in if bytes_eq r.mutation_id id then entity_of r else rest

-- The entity of a result that was applied or answered, or of the applied result that it is a
-- duplicate of.
abbrev pub Entity : Outcome → Bytes → Type 0
Entity r e =
    (((r.status ≡ codes "applied") ⊎ (r.status ≡ codes "answered")) × (r.entity ≡ e))
    ⊎ ((o : Original) × (r.status ≡ codes "duplicate")
        × (r.original ≡ some o)
        × (o.status ≡ codes "applied")
        × (o.entity ≡ e))

original_entity-ok :
    (o : Option Original) (e : Bytes)
    → original_entity o ≡ ok e
    → (p : Original) × (o ≡ some p) × (p.status ≡ codes "applied") × (p.entity ≡ e)
unfolding original_entity
original_entity-ok none e h = cc
original_entity-ok (some o) e h = elim (Bool-cases (bytes_eq o.status (codes "applied"))) [
  | inr k ↦ absurd (cc (h, k))
  | inl k ↦
      let same : ok o.entity ≡ ok e = rw k at h in
      (o, refl, (bytes_eq_iff o.status (codes "applied")).0 k, cc)
]

entity_of-Entity : (r : Outcome) (e : Bytes) → entity_of r ≡ ok e → Entity r e
unfolding entity_of
entity_of-Entity r e h =
    elim (Bool-cases
      (bytes_eq r.status (codes "applied") || bytes_eq r.status (codes "answered"))) [
        | inl k ↦
            let same : ok r.entity ≡ ok e = rw k at h in
            elim (or_split (bytes_eq r.status (codes "applied"))
              (bytes_eq r.status (codes "answered")) k) [
                | inl a ↦ inl (inl ((bytes_eq_iff r.status (codes "applied")).0 a), cc)
                | inr a ↦ inl (inr ((bytes_eq_iff r.status (codes "answered")).0 a), cc)
              ]
        | inr k ↦ elim (Bool-cases (bytes_eq r.status (codes "duplicate"))) [
          | inl d ↦
              let (o, a, b, c) = original_entity-ok r.original e (rw (k, d) at h) in
              inr (o, (bytes_eq_iff r.status (codes "duplicate")).0 d, a, b, c)
          | inr d ↦ elim (Bool-cases (bytes_eq r.status (codes "conflict"))) [
            | inl f ↦ absurd (cc (h, k, d, f))
            | inr f ↦ elim (Bool-cases (bytes_eq r.status (codes "retryable"))) [
              | inl g ↦ absurd (cc (h, k, d, f, g))
              | inr g ↦ absurd (cc (h, k, d, f, g))
            ]
          ]
        ]
      ]

-- An entity is returned only from the first result with the ID asked for, which was applied or
-- answered, or is the duplicate of a result that was applied; and it is that result's entity.
pub applied-Entity :
    (results : List Outcome) (id e : Bytes)
    → applied results id ≡ ok e
    → (front : List Outcome) × (r : Outcome) × (back : List Outcome) × (results ≡ front ++ r ∷ back)
      × All (λ (q : Outcome). q.mutation_id ≢ id) front
      × (r.mutation_id ≡ id)
      × Entity r e
unfolding applied
applied-Entity [] id e h = cc
applied-Entity (r ∷ rs) id e h = elim (Bool-cases (bytes_eq r.mutation_id id)) [
  | inl k ↦
      ([], r, rs, refl, tt, (bytes_eq_iff r.mutation_id id).0 k, entity_of-Entity r e (rw k at h))
  | inr k ↦
      let (front, q, back, same, others, mine, found) = applied-Entity rs id e (rw k at h) in
      let ne : r.mutation_id ≢ id = λ t. let u = (bytes_eq_iff r.mutation_id id).1 t in cc in
      let all_others : All (λ (q : Outcome). q.mutation_id ≢ id) (r ∷ front) = (ne, others) in
      (r ∷ front, q, back, ap (◌∷◌ r) same, all_others, mine, found)
]
