-- ===== src/Projects/Builders/Built.antt =====
-- All the builders of fulcrumprojects/mutations.go together, and Mutate's check of one mutation.
use packages_go.Prelude.{◌≡◌, ◌≤◌, Bool, true, false, Option, Bytes, length, is_empty, ℤ}
use packages_go.Errors.{ok}
use packages_go.Projects.Client.{Mutation, Json, incomplete}
use packages_go.Projects.Builders.{
  Payload, project_task_create, project_task_update, task_complete, todo_create, delegation_create,
  delegation_complete, daily_link_schedule, query,
}
use packages_go.Projects.Builders.Complete.{
  IsShort, task_complete_complete, project_task_create_complete, project_task_update_complete,
  todo_create_complete, delegation_create_complete, delegation_complete_complete,
  daily_link_schedule_complete, query_complete,
}

-- What comes out of a call of a builder that does not fail, with a given target of at most 240 bytes,
-- a slug of at most 232, a kind of query of 1 to 240, and IDs of 16 random bytes.
pub data IsBuilt (marshal : Payload → Bytes) : Mutation → Type 0 where
  of_task_create :
      (raw slug title priority status : Bytes) (assignee parent : Option ℤ) (m : Mutation)
      → length raw ≡ 16
      → length slug ≤ 232
      → project_task_create marshal raw slug title priority status assignee parent ≡ ok m
      → IsBuilt marshal m
  of_task_update :
      (raw id : Bytes) (version : ℤ) (title priority status : Option Bytes) (assignee : Option ℤ)
      (m : Mutation)
      → length raw ≡ 16
      → length id ≤ 240
      → project_task_update marshal raw id version title priority status assignee ≡ ok m
      → IsBuilt marshal m
  of_task_complete :
      (raw id : Bytes) (version : ℤ) (m : Mutation)
      → length raw ≡ 16
      → length id ≤ 240
      → task_complete marshal raw id version ≡ ok m
      → IsBuilt marshal m
  of_todo_create :
      (raw target_raw section title date : Bytes) (m : Mutation)
      → length raw ≡ 16
      → length target_raw ≡ 16
      → todo_create marshal raw target_raw section title date ≡ ok m
      → IsBuilt marshal m
  of_delegation_create :
      (raw target_raw : Bytes) (assignee : ℤ) (title details due_date priority : Bytes)
      (summary : Bool) (m : Mutation)
      → length raw ≡ 16
      → length target_raw ≡ 16
      → delegation_create marshal raw target_raw assignee title details due_date priority summary
        ≡ ok m
      → IsBuilt marshal m
  of_delegation_complete :
      (raw id : Bytes) (version : ℤ) (summary : Bytes) (m : Mutation)
      → length raw ≡ 16
      → length id ≤ 240
      → delegation_complete marshal raw id version summary ≡ ok m
      → IsBuilt marshal m
  of_daily_link :
      (raw id date : Bytes) (m : Mutation)
      → length raw ≡ 16
      → length id ≤ 240
      → daily_link_schedule marshal raw id date ≡ ok m
      → IsBuilt marshal m
  of_query :
      (raw target_raw kind : Bytes) (payload : Option Payload)
      → length raw ≡ 16
      → length target_raw ≡ 16
      → IsShort kind
      → IsBuilt marshal (query marshal raw target_raw kind payload)

-- Whatever a builder makes, from a given target of at most 240 bytes, a slug of at most 232 and a
-- kind of query of 1 to 240, passes the check that Mutate makes of each mutation before it sends
-- anything. json.Marshal is taken to give a text that is not empty and is valid JSON.
pub IsBuilt-incomplete :
    (marshal : Payload → Bytes) (j : Json)
    → ((payload : Payload) → is_empty (marshal payload) ≡ false)
    → ((payload : Payload) → j.is_valid (marshal payload) ≡ true)
    → (m : Mutation) → IsBuilt marshal m
    → incomplete j m ≡ false
IsBuilt-incomplete marshal j f v m
      (of_task_create raw slug title priority status assignee parent _ size bound h) =
    project_task_create_complete marshal j f v raw slug title priority status assignee parent m size
      bound h
IsBuilt-incomplete marshal j f v m
      (of_task_update raw id version title priority status assignee _ size bound h) =
    project_task_update_complete marshal j f v raw id version title priority status assignee m size
      bound h
IsBuilt-incomplete marshal j f v m (of_task_complete raw id version _ size bound h) =
    task_complete_complete marshal j f v raw id version m size bound h
IsBuilt-incomplete marshal j f v m
      (of_todo_create raw target_raw section title date _ size target_size h) =
    todo_create_complete marshal j f v raw target_raw section title date m size target_size h
IsBuilt-incomplete marshal j f v m
      (of_delegation_create raw target_raw assignee title details due_date priority summary _ size
        target_size h) =
    delegation_create_complete marshal j f v raw target_raw assignee title details due_date priority
      summary m size target_size h
IsBuilt-incomplete marshal j f v m (of_delegation_complete raw id version summary _ size bound h) =
    delegation_complete_complete marshal j f v raw id version summary m size bound h
IsBuilt-incomplete marshal j f v m (of_daily_link raw id date _ size bound h) =
    daily_link_schedule_complete marshal j f v raw id date m size bound h
IsBuilt-incomplete marshal j f v m (of_query raw target_raw kind payload size target_size short) =
    query_complete marshal j f v raw target_raw kind payload size target_size short
