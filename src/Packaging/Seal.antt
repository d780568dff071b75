-- ===== src/Packaging/Seal.antt =====
-- Seal of packaging/manifest.go.
pub mod Done
use packages_go.Prelude.{ℕ, not, List, Bytes, length, ◌==◌, if◌then◌else◌, Option, none, some}
use packages_go.Encoding.Hex.{hex_encode}
use packages_go.Encoding.Base64.{encode, std}
use packages_go.Packaging.Files.{
  File, Node, regular, Visit, WalkError, Walked, collect_files, equal_files, manifest_name,
  signature_name,
}
use packages_go.Packaging.Files
use packages_go.Packaging.Manifest.{
  manifest_schema, Manifest, Metadata, Artifact, Directory, Writing, PackError, walk,
  marshal_failed, Outcome, ok, err, panic, Primitives, write_private_file, put_manifest,
  put_signature,
}

-- ed25519.PrivateKeySize
abbrev pub private_key_size : ℕ
private_key_size = 64

module _ (prims : Primitives) where
  unfoldable pub manifest_of : Metadata → List File → Manifest
  manifest_of metadata files = record {
    schema = manifest_schema;
    version = metadata.version;
    revision = metadata.revision;
    created_at = prims.format_time metadata.created_at;
    files = files;
    main_proof = metadata.main_proof;
    ci_run_id = metadata.ci_run_id;
    tooling_sha256 = metadata.tooling_sha256;
  }

  abbrev pub after_signature : Bytes → Bytes → Option PackError → Outcome Artifact
  after_signature text signature (some e) = err e
  after_signature text signature none =
      ok (record { manifest_sha256 = hex_encode (prims.sha256 text); signature = signature })

  abbrev pub after_manifest :
      Bytes → Bytes → Writing → Directory → Option PackError → Outcome Artifact × Directory
  after_manifest text signature second d (some e) = (err e, d)
  after_manifest text signature second d none =
      (after_signature text signature (write_private_file second), put_signature second signature d)

  abbrev pub sign_and_write :
      Bytes → Writing → Writing → Directory → Option Bytes → Outcome Artifact × Directory
  sign_and_write key first second d none = (err marshal_failed, d)
  sign_and_write key first second d (some text) =
      if not (length key == private_key_size)
      then (panic, d)
      else after_manifest text (encode std (prims.ed25519_sign key text)) second
          (put_manifest first text d) (write_private_file first)

  abbrev pub after_collect :
      Metadata
      → Bytes
      → Writing
      → Writing
      → Directory
      → Walked (List File)
      → Outcome Artifact × Directory
  after_collect metadata key first second d (Files.err e) = (err (walk e), d)
  after_collect metadata key first second d (Files.ok files) =
      sign_and_write key first second d (prims.marshal (manifest_of metadata files))

  -- `first` and `second` are how far the two writes come.
  unfoldable pub seal :
      Metadata → Bytes → Writing → Writing → Directory → Outcome Artifact × Directory
  unfolding collect_files manifest_of put_manifest put_signature write_private_file
  seal metadata key first second d =
      after_collect metadata key first second d (collect_files prims.sha256 d.visits)
