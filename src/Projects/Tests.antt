-- ===== src/Projects/Tests.antt =====
-- Runs of the client of Fulcrum Projects against an endpoint that refuses the first batch.
use packages_go.Prelude.{
  All, ◌≢◌, none, ℕ, ◌+◌, ◌≡◌, ◌≤◌, refl, true, false, List, [], ◌∷◌, ◌++◌, map, length, some,
  codes, pos, ◌==◌, if◌then◌else◌, bytes_eq,
}
use packages_go.Errors.{Result, ok, is_code}
use packages_go.Projects.Codes.{Code, same_code, code_of, api_error}
use packages_go.Projects.Client.{
  Outcome, Snapshot, Mutation, Request, read_snapshot, read_changes, read_me, post, Reply, answered,
  World, Json, payload_of, snapshot_in, incomplete, any_incomplete, same_ids, checked_results,
  results_in, call, snapshot, batch_of, mutate,
}
use packages_go.Projects.Client.Answered.{result_id, mutation_id, mutate-answered}
use packages_go.Projects.Client.Applied.{applied, entity_of, Entity, applied-Entity}
use packages_go.Projects.Retry.{is_mismatch, retry_from, retry}
use packages_go.Projects.Retry.Attempt.{Entry}
use packages_go.Projects.Retry.Posts.{IsRun, retry-IsRun}

-- The state is the number of batches posted.
abbrev endpoint : Request → ℕ → Reply × ℕ
endpoint (read_snapshot date) n = (answered 200 (codes "snapshot") true, n)
endpoint (read_changes since epoch) n = (answered 404 (codes "none") true, n)
endpoint read_me n = (answered 404 (codes "none") true, n)
endpoint (post b) n = (
  if n == 0 then answered 409 (codes "moved") true else answered 200 (codes "results") true,
  n + 1,
)

abbrev todo : Mutation
todo = record {
  mutation_id = codes "m1";
  kind = codes "todo.create";
  target = codes "todo-item:1";
  base_version = pos 0;
  payload = codes "{}";
}

abbrev json : Json
json = record {
  error_of = λ payload. codes "sync_epoch_mismatch";
  snapshot_of =
      λ payload. some (record { epoch = pos 7; cursor = pos 1; date = []; collections = [] });
  results_of = λ payload. some (
      record { mutation_id = codes "m1"; status = codes "applied"; entity = []; original = none }
      ∷ []);
  is_valid = λ payload. true;
  changes_of = λ payload. none;
  member_of = λ payload. none;
}

abbrev start : World ℕ
start = record { endpoint = 0; log = [] }

abbrev later : World ℕ
later = record { endpoint = 1; log = [] }

abbrev build : ℕ → Snapshot → Result Code (List Mutation)
build attempt s = ok (todo ∷ [])

four_requests : length (retry endpoint json (codes "golem") build start).1.log ≡ 4
unfolding retry retry_from is_mismatch is_code same_code snapshot mutate call snapshot_in results_in
    payload_of api_error code_of any_incomplete incomplete checked_results same_ids bytes_eq
four_requests = refl

retry-IsRun_example :
    (es : List Entry) × ((retry endpoint json (codes "golem") build start).1.log ≡ start.log ++ es)
    × IsRun json es
retry-IsRun_example = retry-IsRun endpoint json (codes "golem") build start

answers :
    (mutate endpoint json (codes "golem") (pos 7) (todo ∷ []) later).0
    ≡ ok (
        record { mutation_id = codes "m1"; status = codes "applied"; entity = []; original = none }
        ∷ [])
unfolding mutate call results_in payload_of any_incomplete incomplete checked_results same_ids
    bytes_eq
answers = refl

mutate-answered_example :
    (r : Reply) × ((mutate endpoint json (codes "golem") (pos 7) (todo ∷ []) later).1.log
      ≡ later.log ++ (post (batch_of endpoint json (codes "golem") (pos 7) (todo ∷ [])), r) ∷ [])
    × (1 ≤ length (todo ∷ []))
    × (length (todo ∷ []) ≤ 32)
    × (any_incomplete json (todo ∷ []) ≡ false)
    × (map result_id (
          record {
            mutation_id = codes "m1";
            status = codes "applied";
            entity = [];
            original = none;
          }
          ∷ [])
        ≡ map mutation_id (todo ∷ []))
mutate-answered_example =
    mutate-answered endpoint json (codes "golem") (pos 7) (todo ∷ []) later
      (record { mutation_id = codes "m1"; status = codes "applied"; entity = []; original = none }
        ∷ [])
      answers

abbrev outcomes : List Outcome
outcomes =
    record { mutation_id = codes "m1"; status = codes "conflict"; entity = []; original = none }
    ∷ record {
      mutation_id = codes "m2";
      status = codes "applied";
      entity = codes "{}";
      original = none;
    }
    ∷ []

second_applied : applied outcomes (codes "m2") ≡ ok (codes "{}")
unfolding applied entity_of bytes_eq
second_applied = refl

applied-Entity_example :
    (front : List Outcome) × (r : Outcome) × (back : List Outcome) × (outcomes ≡ front ++ r ∷ back)
    × All (λ (q : Outcome). q.mutation_id ≢ codes "m2") front
    × (r.mutation_id ≡ codes "m2")
    × Entity r (codes "{}")
applied-Entity_example = applied-Entity outcomes (codes "m2") (codes "{}") second_applied
