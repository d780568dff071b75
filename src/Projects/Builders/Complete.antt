-- ===== src/Projects/Builders/Complete.antt =====
-- Mutate of fulcrumprojects/client.go takes what the builders of fulcrumprojects/mutations.go make.
use Prim.Native.String.{String}
use packages_go.Prelude.{
  ◌≡◌, ◌≤◌, ◌<◌, refl, sym, ◌∙◌, ap, Bool, true, false, not, ◌||◌, ◌&&◌, [], ◌∷◌, ◌++◌, Option,
  Bytes, codes, length, length-append, is_empty, ltb, ltb_ℤ, ℤ, pos, neither, if◌then◌else◌, arith,
  bytes_eq,
}
use packages_go.Errors.{Result, ok, fail}
use packages_go.Projects.Codes.{Code, invalid_request}
use packages_go.Projects.Client.{Mutation, Json, incomplete, bad_length}
use packages_go.Projects.Formats.{
  matches_slug, matches_date, one_of, admits_status, new_mutation_id,
}
use packages_go.Projects.Formats.Ids.{length-new_mutation_id}
use packages_go.Projects.Builders.{
  Payload, mutation, project_task_create, project_task_update, task_complete, todo_create,
  delegation_create, delegation_complete, daily_link_schedule, query, bad_title, no_target,
  is_given, refused_status, is_dated, or_normal, priorities, delegation_priorities,
}

guarded :
    (t : Bool) (rest : Result Code Mutation) (m : Mutation)
    → (if t then fail invalid_request else rest) ≡ ok m
    → (t ≡ false) × (rest ≡ ok m)
guarded true rest m h = cc
guarded false rest m h = (refl, h)

abbrev ok_of : Mutation → Result Code Mutation
ok_of m = ok m

-- A text of 1 to 240 bytes.
abbrev pub IsShort : Bytes → Type 0
IsShort s = (0 < length s) × (length s ≤ 240)

IsShort-bad_length : (s : Bytes) → IsShort s → bad_length s ≡ false
IsShort-bad_length [] (h, k) = absurd (ground arith)
IsShort-bad_length (c ∷ s) (h, k) = ground arith

filled : (s : Bytes) → is_empty s ≡ false → 0 < length s
filled [] h = cc
filled (c ∷ s) h = omega arith

module _ (marshal : Payload → Bytes) (j : Json) where
  module _ (marshal_filled : (payload : Payload) → is_empty (marshal payload) ≡ false)
      (marshal_valid : (payload : Payload) → j.is_valid (marshal payload) ≡ true) where
    complete_of :
        (m : Mutation) (payload : Payload)
        → m.payload ≡ marshal payload
        → IsShort m.mutation_id
        → IsShort m.kind
        → IsShort m.target
        → ltb_ℤ m.base_version (pos 0) ≡ false
        → incomplete j m ≡ false
    unfolding incomplete
    complete_of m payload made id kind target version =
        rw
          (
            IsShort-bad_length m.mutation_id id,
            IsShort-bad_length m.kind kind,
            IsShort-bad_length m.target target,
            version,
            made,
            marshal_filled payload,
            marshal_valid payload,
          )
          refl

    mutation_complete :
        (raw target : Bytes) (kind : String) (version : ℤ) (payload : Payload)
        → length raw ≡ 16
        → IsShort (codes kind)
        → IsShort target
        → ltb_ℤ version (pos 0) ≡ false
        → incomplete j (mutation marshal raw kind target version payload) ≡ false
    unfolding mutation
    mutation_complete raw target kind version payload size k t v =
        let id : IsShort (new_mutation_id raw) = (
          omega (arith, length-new_mutation_id raw size),
          omega (arith, length-new_mutation_id raw size),
        ) in
        complete_of (mutation marshal raw kind target version payload) payload refl id k t v

    -- A target that is minted by the builder.
    IsShort-minted :
        (prefix raw : Bytes)
        → length prefix ≤ 100
        → length raw ≡ 16
        → IsShort (prefix ++ new_mutation_id raw)
    IsShort-minted prefix raw small size =
        let whole = length-append prefix (new_mutation_id raw) in
        let id = length-new_mutation_id raw size in
        (omega (arith, whole, id), omega (arith, whole, id))

    -- What the checks on a given target leave.
    targeted :
        (id : Bytes) (version : ℤ)
        → no_target id version ≡ false
        → (0 < length id) × (ltb_ℤ version (pos 0) ≡ false)
    targeted id version h =
        let (e, v) = neither (is_empty id) (ltb_ℤ version (pos 1)) h in (filled id e, ground arith)

    returned :
        (m m' : Mutation) → ok_of m' ≡ ok m → incomplete j m' ≡ false → incomplete j m ≡ false
    returned m m' made whole = let same : m' ≡ m = cc in ap (incomplete j) (sym same) ∙ whole

    pub task_complete_complete :
        (raw id : Bytes) (version : ℤ) (m : Mutation)
        → length raw ≡ 16
        → length id ≤ 240
        → task_complete marshal raw id version ≡ ok m
        → incomplete j m ≡ false
    unfolding task_complete
    task_complete_complete raw id version m size bound h =
        let (checked, made) = guarded (no_target id version) _ m h in
        let (f, v) = targeted id version checked in
        returned m _ made (
          mutation_complete raw id "task.complete" version _ size (omega arith, omega arith)
            (f, bound) v)

    pub project_task_create_complete :
        (raw slug title priority status : Bytes) (assignee parent : Option ℤ) (m : Mutation)
        → length raw ≡ 16
        → length slug ≤ 232
        → project_task_create marshal raw slug title priority status assignee parent ≡ ok m
        → incomplete j m ≡ false
    unfolding project_task_create
    project_task_create_complete raw slug title priority status assignee parent m size bound h =
        let (_, h1) = guarded (not (matches_slug slug) || bad_title title) _ m h in
        let (_, h2) = guarded (not (one_of priority priorities)) _ m h1 in
        let (_, made) = guarded (not (admits_status status)) _ m h2 in
        returned m _ made (
          mutation_complete raw (codes "project:" ++ slug) "project-task.create" (pos 0) _ size
            (omega arith, omega arith) (omega arith, omega arith) refl)

    pub project_task_update_complete :
        (raw id : Bytes) (version : ℤ) (title priority status : Option Bytes) (assignee : Option ℤ)
        (m : Mutation)
        → length raw ≡ 16
        → length id ≤ 240
        → project_task_update marshal raw id version title priority status assignee ≡ ok m
        → incomplete j m ≡ false
    unfolding project_task_update
    project_task_update_complete raw id version title priority status assignee m size bound h =
        let none_given =
          not (is_given title || (is_given priority || (is_given status || is_given assignee))) in
        let (checked, h1) = guarded (no_target id version || none_given) _ m h in
        let (_, made) = guarded (refused_status status) _ m h1 in
        let (target_ok, _) = neither (no_target id version) none_given checked in
        let (f, v) = targeted id version target_ok in
        returned m _ made (
          mutation_complete raw id "project-task.update" version _ size (omega arith, omega arith)
            (f, bound) v)

    pub todo_create_complete :
        (raw target_raw section title date : Bytes) (m : Mutation)
        → length raw ≡ 16
        → length target_raw ≡ 16
        → todo_create marshal raw target_raw section title date ≡ ok m
        → incomplete j m ≡ false
    unfolding todo_create
    todo_create_complete raw target_raw section title date m size target_size h =
        let (_, h1) = guarded (bad_title title) _ m h in
        let (_, h2) =
          guarded
            (not (bytes_eq section (codes "inbox"))
              && (not (bytes_eq section (codes "tasks")) && not (is_dated marshal section)))
            _ m h1 in
        let (_, made) = guarded (is_dated marshal section && not (matches_date date)) _ m h2 in
        returned m _ made (
          mutation_complete raw (codes "todo-item:" ++ new_mutation_id target_raw) "todo.create"
            (pos 0) _ size (omega arith, omega arith)
            (IsShort-minted (codes "todo-item:") target_raw (omega arith) target_size) refl)

    pub delegation_create_complete :
        (raw target_raw : Bytes) (assignee : ℤ) (title details due_date priority : Bytes)
        (summary : Bool) (m : Mutation)
        → length raw ≡ 16
        → length target_raw ≡ 16
        → delegation_create marshal raw target_raw assignee title details due_date priority summary
          ≡ ok m
        → incomplete j m ≡ false
    unfolding delegation_create
    delegation_create_complete raw target_raw assignee title details due_date priority summary m
          size target_size h =
        let (_, h1) =
          guarded (ltb_ℤ assignee (pos 1) || (bad_title title || ltb 4000 (length details))) _ m
            h in
        let (_, h2) = guarded (not (is_empty due_date) && not (matches_date due_date)) _ m h1 in
        let (_, made) =
          guarded (not (one_of (or_normal marshal priority) delegation_priorities)) _ m h2 in
        returned m _ made (
          mutation_complete raw (codes "assignment:" ++ new_mutation_id target_raw)
            "delegation.create" (pos 0) _ size (omega arith, omega arith)
            (IsShort-minted (codes "assignment:") target_raw (omega arith) target_size) refl)

    pub delegation_complete_complete :
        (raw id : Bytes) (version : ℤ) (summary : Bytes) (m : Mutation)
        → length raw ≡ 16
        → length id ≤ 240
        → delegation_complete marshal raw id version summary ≡ ok m
        → incomplete j m ≡ false
    unfolding delegation_complete
    delegation_complete_complete raw id version summary m size bound h =
        let (checked, made) = guarded (no_target id version) _ m h in
        let (f, v) = targeted id version checked in
        returned m _ made (
          mutation_complete raw id "delegation.complete" version _ size (omega arith, omega arith)
            (f, bound) v)

    pub daily_link_schedule_complete :
        (raw id date : Bytes) (m : Mutation)
        → length raw ≡ 16
        → length id ≤ 240
        → daily_link_schedule marshal raw id date ≡ ok m
        → incomplete j m ≡ false
    unfolding daily_link_schedule
    daily_link_schedule_complete raw id date m size bound h =
        let (checked, made) = guarded (is_empty id || not (matches_date date)) _ m h in
        let (f, _) = neither (is_empty id) (not (matches_date date)) checked in
        returned m _ made (
          mutation_complete raw id "daily-link.schedule" (pos 0) _ size (omega arith, omega arith)
            (filled id f, bound) refl)

    pub query_complete :
        (raw target_raw kind : Bytes) (payload : Option Payload)
        → length raw ≡ 16
        → length target_raw ≡ 16
        → IsShort kind
        → incomplete j (query marshal raw target_raw kind payload) ≡ false
    unfolding query
    query_complete raw target_raw kind payload size target_size short =
        let id : IsShort (new_mutation_id raw) = (
          omega (arith, length-new_mutation_id raw size),
          omega (arith, length-new_mutation_id raw size),
        ) in
        complete_of (query marshal raw target_raw kind payload) _ refl id short
          (IsShort-minted (codes "query:") target_raw (omega arith) target_size) refl
