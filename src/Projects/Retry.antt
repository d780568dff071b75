-- ===== src/Projects/Retry.antt =====
-- Retry of fulcrumprojects/client.go.
pub mod Attempt
pub mod Posts
use packages_go.Prelude.{
  [], ℕ, zero, suc, ◌+◌, Bool, true, false, not, ◌||◌, ◌==◌, List, Option, none, some,
  if◌then◌else◌, ℤ, Bytes,
}
use packages_go.Errors.{GoError, Result, ok, err, fail, is_code}
use packages_go.Projects.Codes.{Code, epoch_mismatch, same_code}
use packages_go.Projects.Client.{
  Snapshot, Mutation, Outcome, Request, Reply, World, Json, snapshot, mutate,
}

-- IsCode(err, CodeEpochMismatch)
unfoldable pub is_mismatch : GoError Code → Bool
is_mismatch e = is_code same_code e epoch_mismatch

-- What Retry returns: the snapshot, `none` for an empty one, and the results or the error.
abbrev pub Answer : Type 0
Answer = Option Snapshot × Result Code (List Outcome)

-- build: the mutations of one attempt, with fresh IDs in each.
module _ {S : Type 0} (serve : Request → S → Reply × S) (j : Json) (client_id : Bytes)
    (build : ℕ → Snapshot → Result Code (List Mutation)) where
  abbrev pub after_snapshot :
      Result Code Snapshot × World S → (Snapshot → World S → Answer × World S) → Answer × World S
  after_snapshot (err e, w) next = ((none, err e), w)
  after_snapshot (ok s, w) next = next s w

  -- Another attempt, or the error.
  abbrev pub again :
      Bool
      → Snapshot
      → GoError Code
      → World S
      → (Snapshot → World S → Answer × World S)
      → Answer × World S
  again false s e w next = ((some s, err e), w)
  again true s e w next = after_snapshot (snapshot serve j client_id [] w) next

  abbrev pub after_mutate :
      ℕ
      → Snapshot
      → Result Code (List Outcome) × World S
      → (Snapshot → World S → Answer × World S)
      → Answer × World S
  after_mutate attempt s (ok results, w) next = ((some s, ok results), w)
  after_mutate attempt s (err e, w) next =
      again (not (not (is_mismatch e) || (attempt == 1))) s e w next

  abbrev pub after_build :
      ℕ
      → Snapshot
      → Result Code (List Mutation)
      → World S
      → (Snapshot → World S → Answer × World S)
      → Answer × World S
  after_build attempt s (err e) w next = ((some s, err e), w)
  after_build attempt s (ok ms) w next =
      after_mutate attempt s (mutate serve j client_id s.epoch ms w) next

  -- The loop, with the attempts that are left.
  unfoldable pub retry_from : ℕ → ℕ → Snapshot → World S → Answer × World S
  retry_from zero attempt s w = ((some s, fail epoch_mismatch), w)
  retry_from (suc left) attempt s w =
      after_build attempt s (build attempt s) w λ s' w'. retry_from left (attempt + 1) s' w'

  unfoldable pub retry : World S → Answer × World S
  retry w = after_snapshot (snapshot serve j client_id [] w) λ s w'. retry_from 2 0 s w'
