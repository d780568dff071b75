-- ===== src/Projects/Builders.antt =====
-- The builders of fulcrumprojects/mutations.go. A payload is the map that is given to json.Marshal,
-- and `marshal` is what it makes of it.
pub mod Complete
pub mod Built
pub mod Tests
use Prim.Native.String.{String}
use packages_go.Prelude.{
  ℕ, zero, suc, ◌+◌, ◌%◌, Bool, true, false, not, ◌||◌, ◌&&◌, ◌==◌, ltb, leb, List, [], ◌∷◌, ◌++◌,
  Option, none, some, Bytes, codes, bytes_eq, is_empty, length, take, drop, ltb_ℤ, ℤ, pos,
  decimal_ℤ, is_digit, if◌then◌else◌,
}
use packages_go.Projects.Formats.{
  matches_slug, matches_date, one_of, admits_status, new_mutation_id,
}
use packages_go.Errors.{Result, ok, fail}
use packages_go.Projects.Codes.{Code, invalid_request}
use packages_go.Projects.Client.{Mutation}

pub data Field : Type 0 where
  text : Bytes → Field
  number : ℤ → Field
  flag : Bool → Field

abbrev pub Payload : Type 0
Payload = List (Bytes × Field)

-- A member of a payload that is sent only when it is given.
abbrev when_given {ℓ} : {A : Type ℓ} → String → (A → Field) → Option A → Payload → Payload
when_given name make none rest = rest
when_given name make (some a) rest = (codes name, make a) ∷ rest

abbrev when_filled : String → Bytes → Payload → Payload
when_filled name value rest = if is_empty value then rest else (codes name, text value) ∷ rest

abbrev bad_title : Bytes → Bool
bad_title title = is_empty title || ltb 240 (length title)

-- taskID == "" || version < 1
abbrev no_target : Bytes → ℤ → Bool
no_target id version = is_empty id || ltb_ℤ version (pos 1)

abbrev refused_status : Option Bytes → Bool
refused_status none = false
refused_status (some status) = not (admits_status status)

abbrev is_given {ℓ} : {A : Type ℓ} → Option A → Bool
is_given none = false
is_given (some a) = true

abbrev pub priorities : List Bytes
priorities = codes "Critical" ∷ codes "High" ∷ codes "Medium" ∷ []

abbrev pub delegation_priorities : List Bytes
delegation_priorities = codes "normal" ∷ codes "high" ∷ codes "urgent" ∷ []

module _ (marshal : Payload → Bytes) where
  unfoldable pub mutation : Bytes → String → Bytes → ℤ → Payload → Mutation
  unfolding new_mutation_id
  mutation raw kind target version payload = record {
    mutation_id = new_mutation_id raw;
    kind = codes kind;
    target = target;
    base_version = version;
    payload = marshal payload;
  }

  unfoldable pub project_task_create :
      Bytes → Bytes → Bytes → Bytes → Bytes → Option ℤ → Option ℤ → Result Code Mutation
  unfolding mutation matches_slug one_of admits_status
  project_task_create raw slug title priority status assignee parent =
      if not (matches_slug slug) || bad_title title
      then fail invalid_request
      else if not (one_of priority priorities)
      then fail invalid_request
      else if not (admits_status status)
      then fail invalid_request
      else ok (
          mutation raw "project-task.create" (codes "project:" ++ slug) (pos 0) (
            (codes "title", text title)
            ∷ (codes "priority", text priority)
            ∷ (codes "status", text status)
            ∷ when_given "assigneeMemberId" number assignee
                (when_given "parentTaskId" number parent [])))

  unfoldable pub project_task_update :
      Bytes
      → Bytes
      → ℤ
      → Option Bytes
      → Option Bytes
      → Option Bytes
      → Option ℤ
      → Result Code Mutation
  unfolding mutation admits_status
  project_task_update raw id version title priority status assignee =
      if no_target id version
        || not (is_given title || (is_given priority || (is_given status || is_given assignee)))
      then fail invalid_request
      else if refused_status status
      then fail invalid_request
      else ok (
          mutation raw "project-task.update" id version (
            when_given "title" text title (
              when_given "priority" text priority (
                when_given "status" text status
                  (when_given "assigneeMemberId" number assignee [])))))

  unfoldable pub task_complete : Bytes → Bytes → ℤ → Result Code Mutation
  unfolding mutation
  task_complete raw id version =
      if no_target id version
      then fail invalid_request
      else ok (mutation raw "task.complete" id version [])

  abbrev is_dated : Bytes → Bool
  is_dated section = bytes_eq section (codes "personal") || bytes_eq section (codes "health")

  unfoldable pub todo_create : Bytes → Bytes → Bytes → Bytes → Bytes → Result Code Mutation
  unfolding mutation new_mutation_id bytes_eq matches_date
  todo_create raw target_raw section title date =
      if bad_title title
      then fail invalid_request
      else if not (bytes_eq section (codes "inbox"))
          && (not (bytes_eq section (codes "tasks")) && not (is_dated section))
      then fail invalid_request
      else if is_dated section && not (matches_date date)
      then fail invalid_request
      else ok (
          mutation raw "todo.create" (codes "todo-item:" ++ new_mutation_id target_raw) (pos 0) (
            (codes "title", text title)
            ∷ (codes "section", text section)
            ∷ (if is_dated section then (codes "date", text date) ∷ [] else [])))

  abbrev or_normal : Bytes → Bytes
  or_normal priority = if is_empty priority then codes "normal" else priority

  unfoldable pub delegation_create :
      Bytes → Bytes → ℤ → Bytes → Bytes → Bytes → Bytes → Bool → Result Code Mutation
  unfolding mutation new_mutation_id matches_date one_of decimal_ℤ
  delegation_create raw target_raw assignee title details due_date priority requires_summary =
      if ltb_ℤ assignee (pos 1) || (bad_title title || ltb 4000 (length details))
      then fail invalid_request
      else if not (is_empty due_date) && not (matches_date due_date)
      then fail invalid_request
      else if not (one_of (or_normal priority) delegation_priorities)
      then fail invalid_request
      else ok (
          mutation raw "delegation.create" (codes "assignment:" ++ new_mutation_id target_raw)
            (pos 0)
            ((codes "title", text title)
              ∷ (codes "assignee", text (decimal_ℤ assignee))
              ∷ (codes "priority", text (or_normal priority))
              ∷ (codes "requiresSummary", flag requires_summary)
              ∷ when_filled "details" details (when_filled "dueDate" due_date [])))

  unfoldable pub delegation_complete : Bytes → Bytes → ℤ → Bytes → Result Code Mutation
  unfolding mutation
  delegation_complete raw id version summary =
      if no_target id version
      then fail invalid_request
      else ok (
          mutation raw "delegation.complete" id version
            ((codes "status", text (codes "done")) ∷ when_filled "summary" summary []))

  unfoldable pub daily_link_schedule : Bytes → Bytes → Bytes → Result Code Mutation
  unfolding mutation matches_date
  daily_link_schedule raw id date =
      if is_empty id || not (matches_date date)
      then fail invalid_request
      else ok (mutation raw "daily-link.schedule" id (pos 0) ((codes "date", text date) ∷ []))

  -- The payload, `none` for nil, is given as the caller's map.
  unfoldable pub query : Bytes → Bytes → Bytes → Option Payload → Mutation
  unfolding new_mutation_id
  query raw target_raw kind payload = record {
    mutation_id = new_mutation_id raw;
    kind = kind;
    target = codes "query:" ++ new_mutation_id target_raw;
    base_version = pos 0;
    payload = marshal (elim payload [ none ↦ [] | some given ↦ given ]);
  }
