-- ===== src/Packaging/Verify.antt =====
-- Verify, VerifyAny and ensureJSONEOF of packaging/manifest.go.
pub mod Trusted
pub mod Authentic
pub mod Sealed
use packages_go.Prelude.{
  ℕ, Bool, true, false, not, List, [], ◌∷◌, Bytes, bytes_eq, length, ◌==◌, if◌then◌else◌, Option,
  none, some, is_empty,
}
use packages_go.Encoding.Base64.{decode, std}
use packages_go.Packaging.Files.{
  File, Node, regular, Visit, WalkError, Walked, collect_files, equal_files, manifest_name,
  signature_name,
}
use packages_go.Packaging.Files
use packages_go.Packaging.Manifest.{
  manifest_schema, Manifest, Directory, PackError, walk, no_keys, no_manifest, no_signature,
  bad_base64, not_authenticated, bad_json, trailing_json, bad_schema, mismatch, Outcome, ok, err,
  panic, Trailing, eof, Primitives,
}

-- ed25519.PublicKeySize
abbrev pub public_key_size : ℕ
public_key_size = 32

unfoldable pub ensure_json_eof : Trailing → Option PackError
ensure_json_eof eof = none
ensure_json_eof _ = some trailing_json

module _ (prims : Primitives) where
  abbrev pub try_key : Bytes → Bytes → Bytes → Outcome Bool → Outcome Bool
  try_key key text signature rest =
      if not (length key == public_key_size)
      then panic
      else if prims.ed25519_verify key text signature
      then ok true
      else rest

  -- The loop over the trusted keys; the first that authenticates ends it.
  unfoldable pub authenticated : List Bytes → Bytes → Bytes → Outcome Bool
  authenticated [] text signature = ok false
  authenticated (key ∷ keys) text signature =
      try_key key text signature (authenticated keys text signature)

  abbrev pub compare_files : Manifest → Walked (List File) → Outcome Manifest
  compare_files m (Files.err e) = err (walk e)
  compare_files m (Files.ok actual) =
      if not (equal_files m.files actual) then err mismatch else ok m

  abbrev pub after_eof : Manifest → List Visit → Option PackError → Outcome Manifest
  after_eof m visits (some e) = err e
  after_eof m visits none =
      if not (bytes_eq m.schema manifest_schema)
      then err bad_schema
      else compare_files m (collect_files prims.sha256 visits)

  abbrev pub after_decode : List Visit → Option (Manifest × Bytes) → Outcome Manifest
  after_decode visits none = err bad_json
  after_decode visits (some (m, rest)) =
      after_eof m visits (ensure_json_eof (prims.decode_any rest))

  abbrev pub after_keys : Bytes → List Visit → Outcome Bool → Outcome Manifest
  after_keys text visits panic = panic
  after_keys text visits (err e) = err e
  after_keys text visits (ok false) = err not_authenticated
  after_keys text visits (ok true) = after_decode visits (prims.decode_manifest text)

  abbrev pub after_base64 : List Bytes → Bytes → List Visit → Option Bytes → Outcome Manifest
  after_base64 keys text visits none = err bad_base64
  after_base64 keys text visits (some signature) =
      after_keys text visits (authenticated keys text signature)

  abbrev pub after_reads : List Bytes → List Visit → Option Bytes → Option Bytes → Outcome Manifest
  after_reads keys visits none signature = err no_manifest
  after_reads keys visits (some text) none = err no_signature
  after_reads keys visits (some text) (some signature_text) =
      after_base64 keys text visits (decode std signature_text)

  unfoldable pub verify_any : Directory → List Bytes → Outcome Manifest
  unfolding authenticated ensure_json_eof collect_files equal_files bytes_eq decode
  verify_any d keys =
      if is_empty keys then err no_keys else after_reads keys d.visits d.manifest d.signature

  unfoldable pub verify : Directory → Bytes → Outcome Manifest
  unfolding verify_any
  verify d key = verify_any d (key ∷ [])
