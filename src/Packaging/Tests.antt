-- ===== src/Packaging/Tests.antt =====
-- Concrete runs of packaging/, and the theorems at concrete inputs.
use packages_go.Prelude.{
  ℕ, zero, suc, ◌≡◌, refl, ap, ◌∙◌, sym, ◌↔◌, ◌⊎◌, true, false, List, [], ◌∷◌, Bytes, codes,
  bytes_eq, arith, none, some, pos, has_prefix,
}
use packages_go.Encoding.Base64.{
  encode, decode, decode_groups, char_of, value_of, without_newlines, std,
}
use packages_go.Encoding.Hex.{hex_encode, hex_digit}
use packages_go.Sorting.{before, insert, sort}
use packages_go.Slashes.{dot, clean, split_slash, clean_pieces, reversed, join_slash}
use packages_go.Packaging.Paths.{safe_relative_path, stays}
use packages_go.Packaging.Paths.Safe.{safe_relative_path_iff}
use packages_go.Slashes.Clean.{IsBelow}
use packages_go.Packaging.Files.{
  File, folder, symlink, regular, Visit, Walked, has_symlink, see, walk, collect_files, hash_file,
  same_file, equal_from, equal_files,
}
use packages_go.Packaging.Files
use packages_go.Packaging.Manifest.{
  manifest_schema, Manifest, Metadata, Directory, written, mismatch, not_authenticated, ok, err,
  panic, eof, Primitives, write_private_file, put_manifest, put_signature, content_after,
  visits_after, has_visit,
}
use packages_go.Packaging.Seal.{manifest_of, seal}
use packages_go.Packaging.Verify.{verify_any, verify, authenticated, ensure_json_eof}
use packages_go.Packaging.Verify.Authentic.{IsAuthentic, verify_any_iff}
use packages_go.Packaging.Verify.Sealed.{seal-verify_any}

zeros : ℕ → Bytes
zeros zero = []
zeros (suc n) = 0 ∷ zeros n

-- Hashes are the text, signatures one byte, and the one manifest is read back from any text.
test_files : List File
test_files =
    record { path = codes "a"; bytes = 1; sha256 = codes "78" }
    ∷ record { path = codes "b/c"; bytes = 0; sha256 = [] }
    ∷ []

test_manifest : Manifest
test_manifest = record {
  schema = manifest_schema;
  version = codes "1";
  revision = codes "r";
  created_at = codes "t";
  files = test_files;
  main_proof = none;
  ci_run_id = pos 0;
  tooling_sha256 = [];
}

test_prims : Primitives
test_prims = record {
  sha256 = λ s. s;
  ed25519_sign = λ k text. 7 ∷ [];
  ed25519_verify = λ k text s. bytes_eq s (7 ∷ []);
  format_time = λ t. codes "t";
  marshal = λ m. some (codes "m");
  decode_manifest = λ s. some (test_manifest, []);
  decode_any = λ s. eof;
}

test_metadata : Metadata
test_metadata = record {
  version = codes "1";
  revision = codes "r";
  created_at = 5;
  main_proof = none;
  ci_run_id = pos 0;
  tooling_sha256 = [];
}

test_visits : List Visit
test_visits =
    record { path = codes "."; is_done = false; node = folder }
    ∷ record { path = codes "b"; is_done = false; node = folder }
    ∷ record { path = codes "b/c"; is_done = false; node = regular [] }
    ∷ record { path = codes "manifest.json"; is_done = false; node = symlink }
    ∷ record { path = codes "a"; is_done = false; node = regular (codes "x") }
    ∷ []

test_directory : Directory
test_directory = record { visits = test_visits; manifest = none; signature = none }

collect_test : collect_files test_prims.sha256 test_visits ≡ Files.ok test_files
unfolding collect_files walk see sort insert before hash_file bytes_eq test_prims test_visits
    test_files hex_encode hex_digit
collect_test = refl

symlink_test :
    collect_files test_prims.sha256
      (record { path = codes "l"; is_done = false; node = symlink } ∷ test_visits)
    ≡ Files.err (has_symlink (codes "l"))
unfolding collect_files walk see bytes_eq
symlink_test = refl

sealed_directory : Directory
sealed_directory =
    put_signature written (encode std (7 ∷ [])) (put_manifest written (codes "m") test_directory)

seal_test :
    seal test_prims test_metadata (zeros 64) written written test_directory
    ≡ (ok (record { manifest_sha256 = codes "6d"; signature = codes "Bw==" }), sealed_directory)
unfolding seal collect_files walk see sort insert before hash_file bytes_eq test_prims test_visits
    hex_encode hex_digit zeros write_private_file put_manifest put_signature encode char_of
    test_directory sealed_directory
seal_test = refl

-- A file that is changed after sealing, and a key that signed nothing.
tampered_test :
    (verify test_prims
        (record {
          visits =
              record { path = codes "new"; is_done = false; node = regular [] }
              ∷ sealed_directory.visits;
          manifest = sealed_directory.manifest;
          signature = sealed_directory.signature;
        })
        (zeros 32)
      ≡ err mismatch)
    × (verify test_prims
          (record {
            visits = test_visits;
            manifest = some (codes "m");
            signature = some (codes "Bg==");
          })
          (zeros 32)
        ≡ err not_authenticated)
    × (verify test_prims sealed_directory (zeros 31) ≡ panic)
unfolding verify verify_any authenticated ensure_json_eof decode decode_groups value_of
    without_newlines collect_files walk see sort insert before hash_file bytes_eq equal_files
    equal_from same_file test_prims test_visits hex_encode hex_digit zeros put_manifest
    put_signature content_after visits_after has_visit encode char_of test_directory
    sealed_directory test_manifest test_files
tampered_test = (refl, refl, refl)

paths_test :
    (safe_relative_path (codes "a/b.txt") ≡ true)
    × (safe_relative_path (codes "a//b") ≡ false)
    × (safe_relative_path (codes "../a") ≡ false)
    × (safe_relative_path (codes "a/../b") ≡ false)
unfolding safe_relative_path stays clean split_slash clean_pieces reversed join_slash bytes_eq
    has_prefix
paths_test = (refl, refl, refl, refl)

safe_relative_path_iff_example :
    (safe_relative_path (codes "a/..") ≡ true) ↔ ((codes "a/.." ≡ dot) ⊎ IsBelow (codes "a/.."))
safe_relative_path_iff_example = safe_relative_path_iff (codes "a/..")

verify_any_iff_example :
    (verify_any test_prims sealed_directory (zeros 32 ∷ []) ≡ ok test_manifest)
    ↔ IsAuthentic test_prims sealed_directory (zeros 32 ∷ []) test_manifest
verify_any_iff_example = verify_any_iff test_prims sealed_directory (zeros 32 ∷ []) test_manifest

test_reads_back :
    (files : List File) (text : Bytes)
    → collect_files test_prims.sha256 test_visits ≡ Files.ok files
    → test_prims.marshal (manifest_of test_prims test_metadata files) ≡ some text
    → test_prims.decode_manifest text ≡ some (manifest_of test_prims test_metadata files, [])
unfolding test_prims manifest_of test_metadata test_manifest
test_reads_back files text found made =
    let both : Files.ok test_files ≡ Files.ok files = sym collect_test ∙ found in
    let same : test_files ≡ files = cc in
    ap (λ (fs : List File). some (manifest_of test_prims test_metadata fs, [])) same

seal-verify_any_example :
    (files : List File) × (collect_files test_prims.sha256 test_directory.visits ≡ Files.ok files)
    × (verify_any test_prims sealed_directory (zeros 32 ∷ zeros 32 ∷ [])
        ≡ ok (manifest_of test_prims test_metadata files))
unfolding test_prims test_directory test_visits zeros bytes_eq safe_relative_path stays clean
    split_slash clean_pieces reversed join_slash has_prefix
seal-verify_any_example =
    seal-verify_any test_prims test_metadata (zeros 64) (zeros 32) (zeros 32 ∷ []) [] test_directory
      sealed_directory (record { manifest_sha256 = codes "6d"; signature = codes "Bw==" }) written
      written (λ text. refl) (λ text. omega arith) test_reads_back refl refl (refl, tt)
      (refl, (refl, (refl, (refl, (refl, tt))))) seal_test
