-- ===== src/Packaging/Manifest.antt =====
-- The manifest of packaging/manifest.go, the state of one directory, and writePrivateFile.
use packages_go.Prelude.{
  ℕ, Bool, false, ◌||◌, List, [], ◌∷◌, Bytes, codes, bytes_eq, if◌then◌else◌, Option, none, some, ℤ,
  take,
}
use packages_go.Packaging.Files.{File, regular, Visit, WalkError, manifest_name, signature_name}

abbrev pub manifest_schema : Bytes
manifest_schema = codes "packages-go.artifact.v1"

pub record MainProof : Type 0 where
  pub main : Bytes
  pub target : Bytes
  pub status : Bytes

pub record Manifest : Type 0 where
  pub schema : Bytes
  pub version : Bytes
  pub revision : Bytes
  pub created_at : Bytes
  pub files : List File
  pub main_proof : Option MainProof
  pub ci_run_id : ℤ
  pub tooling_sha256 : Bytes

pub record Metadata : Type 0 where
  pub version : Bytes
  pub revision : Bytes
  pub created_at : ℕ
  pub main_proof : Option MainProof
  pub ci_run_id : ℤ
  pub tooling_sha256 : Bytes

pub record Artifact : Type 0 where
  pub manifest_sha256 : Bytes
  pub signature : Bytes

-- The directory: what a walk visits, and what ReadFile gives for the two files of the manifest, which
-- follows links; `none` when it fails.
pub record Directory : Type 0 where
  pub visits : List Visit
  pub manifest : Option Bytes
  pub signature : Option Bytes

-- How far writing a file comes: a failed write has written its first bytes.
pub data Writing : Type 0 where
  create_failed chmod_failed close_failed written : Writing
  write_failed : ℕ → Writing

pub data PackError : Type 0 where
  walk : WalkError → PackError
  marshal_failed write_error no_keys no_manifest no_signature bad_base64 not_authenticated :
      PackError
  bad_json trailing_json bad_schema mismatch : PackError

-- `panic`: crypto/ed25519 panics on a key of another size.
pub data Outcome {ℓ} (A : Type ℓ) : Type ℓ where
  ok : A → Outcome A
  err : PackError → Outcome A
  panic : Outcome A

-- What a second Decode of the decoder gives.
pub data Trailing : Type 0 where
  eof value broken : Trailing

-- What this code takes from outside: SHA-256, Ed25519, RFC3339Nano in UTC, and encoding/json of a
-- Manifest without unknown fields, with what its decoder has not read.
pub record Primitives : Type 0 where
  pub sha256 : Bytes → Bytes
  pub ed25519_sign : Bytes → Bytes → Bytes
  pub ed25519_verify : Bytes → Bytes → Bytes → Bool
  pub format_time : ℕ → Bytes
  pub marshal : Manifest → Option Bytes
  pub decode_manifest : Bytes → Option (Manifest × Bytes)
  pub decode_any : Bytes → Trailing

-- What is in the file after the write, where it was `old`.
unfoldable pub content_after : Writing → Bytes → Option Bytes → Option Bytes
content_after create_failed content old = old
content_after chmod_failed content old = some []
content_after (write_failed n) content old = some (take n content)
content_after close_failed content old = some content
content_after written content old = some content

unfoldable pub write_private_file : Writing → Option PackError
write_private_file written = none
write_private_file _ = some write_error

unfoldable pub has_visit : Bytes → List Visit → Bool
unfolding bytes_eq
has_visit path [] = false
has_visit path (v ∷ vs) = bytes_eq v.path path || has_visit path vs

-- A file that was not there is visited by later walks.
unfoldable pub visits_after : Bytes → Option Bytes → List Visit → List Visit
unfolding has_visit
visits_after path none visits = visits
visits_after path (some content) visits =
    if has_visit path visits
    then visits
    else record { path = path; is_done = false; node = regular content } ∷ visits

unfoldable pub put_manifest : Writing → Bytes → Directory → Directory
unfolding content_after visits_after
put_manifest create_failed content d = d
put_manifest w content d =
    let now : Option Bytes = content_after w content d.manifest in
    record {
      visits = visits_after manifest_name now d.visits;
      manifest = now;
      signature = d.signature;
    }

unfoldable pub put_signature : Writing → Bytes → Directory → Directory
unfolding content_after visits_after
put_signature create_failed content d = d
put_signature w content d =
    let now : Option Bytes = content_after w content d.signature in
    record {
      visits = visits_after signature_name now d.visits;
      manifest = d.manifest;
      signature = now;
    }
