-- ===== src/Projects/Builders/Tests.antt =====
-- Concrete mutations of fulcrumprojects/mutations.go, and the theorem on them at one.
use packages_go.Prelude.{
  ℕ, zero, suc, ◌≡◌, refl, true, false, [], ◌∷◌, ◌++◌, none, some, Bytes, codes, bytes_eq, pos,
}
use packages_go.Errors.{ok, fail}
use packages_go.Encoding.Hex.{hex_encode, hex_digit}
use packages_go.Projects.Codes.{invalid_request}
use packages_go.Projects.Client.{Mutation, Json, incomplete}
use packages_go.Projects.Formats.{
  matches_slug, slug_from, matches_date, one_of, admits_status, set_at, new_mutation_id,
}
use packages_go.Projects.Builders.{
  Payload, mutation, project_task_update, todo_create, delegation_create,
}
use packages_go.Projects.Builders.Built.{of_todo_create, IsBuilt-incomplete}

bytes : ℕ → Bytes
bytes zero = []
bytes (suc n) = 255 ∷ bytes n

uuid_test : new_mutation_id (bytes 16) ≡ codes "ffffffff-ffff-4fff-bfff-ffffffffffff"
unfolding new_mutation_id set_at hex_encode hex_digit bytes
uuid_test = refl

slug_test :
    (matches_slug (codes "a-b2") ≡ true)
    × (matches_slug (codes "a--b") ≡ false)
    × (matches_slug (codes "-a") ≡ false)
    × (matches_slug (codes "a-") ≡ false)
    × (matches_slug [] ≡ false)
unfolding matches_slug slug_from
slug_test = (refl, refl, refl, refl, refl)

test_marshal : Payload → Bytes
test_marshal payload = codes "{}"

refused_test :
    (project_task_update test_marshal (bytes 16) (codes "t") (pos 1) none none none none
      ≡ fail invalid_request)
    × (project_task_update test_marshal
          (bytes 16)
          (codes "t")
          (pos 0)
          (some (codes "x"))
          none
          none
          none
        ≡ fail invalid_request)
    × (project_task_update test_marshal
          (bytes 16)
          (codes "t")
          (pos 1)
          none
          none
          (some (codes "Done"))
          none
        ≡ fail invalid_request)
    × (delegation_create test_marshal
          (bytes 16)
          (bytes 16)
          (pos 1)
          (codes "x")
          []
          (codes "2026-1-1")
          []
          true
        ≡ fail invalid_request)
unfolding project_task_update delegation_create admits_status one_of bytes_eq matches_date
refused_test = (refl, refl, refl, refl)

test_todo : Mutation
test_todo = record {
  mutation_id = new_mutation_id (bytes 16);
  kind = codes "todo.create";
  target = codes "todo-item:" ++ new_mutation_id (bytes 16);
  base_version = pos 0;
  payload = codes "{}";
}

todo_test :
    todo_create test_marshal
      (bytes 16)
      (bytes 16)
      (codes "personal")
      (codes "call")
      (codes "2026-01-31")
    ≡ ok test_todo
unfolding todo_create matches_date bytes_eq mutation test_todo test_marshal
todo_test = refl

test_json : Json
test_json = record {
  error_of = λ s. s;
  snapshot_of = λ s. none;
  results_of = λ s. none;
  is_valid = λ s. true;
  changes_of = λ s. none;
  member_of = λ s. none;
}

IsBuilt-incomplete_example : incomplete test_json test_todo ≡ false
unfolding test_marshal test_json bytes
IsBuilt-incomplete_example =
    IsBuilt-incomplete test_marshal test_json (λ payload. refl) (λ payload. refl) test_todo
      (of_todo_create (bytes 16) (bytes 16) (codes "personal") (codes "call") (codes "2026-01-31")
        test_todo refl refl todo_test)
