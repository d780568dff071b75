-- ===== src/Projects/Client.antt =====
-- Snapshot, Mutate and do of fulcrumprojects/client.go, with the shapes of envelope.go they use.
pub mod Answered
pub mod Applied
use packages_go.Prelude.{
  ℕ, Bool, true, false, not, ◌||◌, ◌&&◌, ◌==◌, ltb, List, [], ◌∷◌, ◌++◌, Option, none, some, Bytes,
  bytes_eq, is_empty, length, ltb_ℤ, ℤ, pos, if◌then◌else◌, ◌*◌,
}
use packages_go.Errors.{GoError, Result, ok, err, fail, ◌>>=◌}
use packages_go.Projects.Codes.{
  Code, invalid_request, transport_unavailable, unexpected_response, api_error,
}

pub record Snapshot : Type 0 where
  pub epoch : ℤ
  pub cursor : ℤ
  pub date : Bytes
  pub collections : Bytes

pub record Mutation : Type 0 where
  pub mutation_id : Bytes
  pub kind : Bytes
  pub target : Bytes
  pub base_version : ℤ
  pub payload : Bytes

pub record Batch : Type 0 where
  pub epoch : ℤ
  pub client_id : Bytes
  pub mutations : List Mutation

-- The original result of a duplicate, and a result of the answer: the fields that the client reads.
pub record Original : Type 0 where
  pub status : Bytes
  pub entity : Bytes

pub record Outcome : Type 0 where
  pub mutation_id : Bytes
  pub status : Bytes
  pub entity : Bytes
  pub original : Option Original

-- The rows of a page of changes stay as a text.
pub record Changes : Type 0 where
  pub epoch : ℤ
  pub cursor : ℤ
  pub rows : Bytes

pub data Request : Type 0 where
  -- GET /api/v2/snapshot, with a date or ""
  read_snapshot : Bytes → Request
  -- GET /api/v2/changes, with since and epoch, and GET /api/v2/me
  read_changes : ℤ → ℤ → Request
  read_me : Request
  -- POST /api/v2/mutations
  post : Batch → Request

pub data Reply : Type 0 where
  -- an error of http.Client.Do
  broken : Reply
  -- the status, the bytes read, and whether reading them ended without an error
  answered : ℕ → Bytes → Bool → Reply

pub record World (S : Type 0) : Type 0 where
  pub endpoint : S
  pub log : List (Request × Reply)

abbrev max_response_bytes : ℕ
max_response_bytes = 64 * 1048576

abbrev max_batch_mutations : ℕ
max_batch_mutations = 32

-- The texts of the answers: the "error" field, and the readings as a snapshot, results, changes and
-- a member.
pub record Json : Type 0 where
  pub error_of : Bytes → Bytes
  pub snapshot_of : Bytes → Option Snapshot
  pub results_of : Bytes → Option (List Outcome)
  pub is_valid : Bytes → Bool
  pub changes_of : Bytes → Option Changes
  pub member_of : Bytes → Option Bytes

-- What do makes of a reply: the payload of a 200.
unfoldable pub payload_of : Json → Reply → Result Code Bytes
payload_of j broken = fail transport_unavailable
payload_of j (answered status payload whole) =
    if not whole || ltb max_response_bytes (length payload)
    then fail transport_unavailable
    else if not (status == 200)
    then err (api_error j.error_of status payload)
    else ok payload

abbrev decoded {ℓ} : {A : Type ℓ} → Option A → Result Code A
decoded none = fail unexpected_response
decoded (some a) = ok a

unfoldable pub snapshot_in : Json → Reply → Result Code Snapshot
snapshot_in j reply = payload_of j reply >>= λ payload. decoded (j.snapshot_of payload)

abbrev pub bad_length : Bytes → Bool
bad_length s = is_empty s || ltb 240 (length s)

-- The test of one mutation in Mutate.
unfoldable pub incomplete : Json → Mutation → Bool
incomplete j m =
    bad_length m.mutation_id
    || (bad_length m.kind
        || (bad_length m.target
            || (ltb_ℤ m.base_version (pos 0)
                || (is_empty m.payload || not (j.is_valid m.payload)))))

unfoldable pub any_incomplete : Json → List Mutation → Bool
any_incomplete j [] = false
any_incomplete j (m ∷ ms) = incomplete j m || any_incomplete j ms

-- The loop that compares the IDs; the lists are of one length.
unfoldable pub same_ids : List Outcome → List Mutation → Bool
same_ids [] ms = true
same_ids (r ∷ rs) [] = true
same_ids (r ∷ rs) (m ∷ ms) = bytes_eq r.mutation_id m.mutation_id && same_ids rs ms

unfoldable pub checked_results : List Mutation → List Outcome → Result Code (List Outcome)
checked_results ms rs =
    if not (length rs == length ms)
    then fail unexpected_response
    else if same_ids rs ms
    then ok rs
    else fail unexpected_response

unfoldable pub results_in : Json → List Mutation → Reply → Result Code (List Outcome)
results_in j ms reply =
    payload_of j reply >>= (λ payload. decoded (j.results_of payload)) >>= checked_results ms

module _ {S : Type 0} (serve : Request → S → Reply × S) (j : Json) (client_id : Bytes) where
  unfoldable pub call : Request → World S → Reply × World S
  call q w =
      let (reply, s) = serve q w.endpoint in
      (reply, record { endpoint = s; log = w.log ++ (q, reply) ∷ [] })

  unfoldable pub snapshot : Bytes → World S → Result Code Snapshot × World S
  snapshot date w = let (reply, w') = call (read_snapshot date) w in (snapshot_in j reply, w')

  unfoldable pub changes : ℤ → ℤ → World S → Result Code Changes × World S
  changes since epoch w =
      if ltb_ℤ since (pos 0) || ltb_ℤ epoch (pos 0)
      then (fail invalid_request, w)
      else (let (reply, w') = call (read_changes since epoch) w in
          (payload_of j reply >>= (λ payload. decoded (j.changes_of payload)), w'))

  unfoldable pub me : World S → Result Code Bytes × World S
  me w =
      let (reply, w') = call read_me w in
      (payload_of j reply >>= (λ payload. decoded (j.member_of payload)), w')

  abbrev pub batch_of : ℤ → List Mutation → Batch
  batch_of epoch ms = record { epoch = epoch; client_id = client_id; mutations = ms }

  unfoldable pub mutate : ℤ → List Mutation → World S → Result Code (List Outcome) × World S
  mutate epoch ms w =
      if is_empty ms || ltb max_batch_mutations (length ms)
      then (fail invalid_request, w)
      else if any_incomplete j ms
      then (fail invalid_request, w)
      else (let (reply, w') = call (post (batch_of epoch ms)) w in (results_in j ms reply, w'))
