-- ===== src/Packaging/Verify/Sealed.antt =====
-- What Seal of packaging/manifest.go seals, VerifyAny accepts.
use mathlib.Core.Path.{subst}
use packages_go.Prelude.{
  ◌≡◌, refl, ap, ◌∙◌, inl, inr, true, List, [], ◌∷◌, ◌++◌, Bytes, bytes_eq, length, Bool-cases, All,
  Option, none, some,
}
use packages_go.Encoding.Base64.{encode, std}
use packages_go.Encoding.Base64.RoundTrip.{IsByte, decode-encode, std-IsSound}
use packages_go.Packaging.Files.{
  File, Node, folder, symlink, irregular, walk_error, info_error, unreadable, regular, Visit,
  WalkError, Walked, Seen, skipped, collected, refused, see, see_node, add_seen, walk, sorted,
  collect_files, hash_file, manifest_name, signature_name,
}
use packages_go.Packaging.Files
use packages_go.Packaging.Files.Walks.{HasSafePath, collect_files-IsSafe}
use packages_go.Packaging.Manifest.{
  Metadata, Artifact, Directory, Writing, written, ok, eof, Primitives, put_manifest, put_signature,
  visits_after, has_visit,
}
use packages_go.Packaging.Seal.{manifest_of, seal}
use packages_go.Packaging.Verify.{public_key_size, verify_any}
use packages_go.Packaging.Seal.Done.{seal-IsSealed}
use packages_go.Packaging.Verify.Trusted.{IsTrusted}
use packages_go.Packaging.Verify.Authentic.{IsAuthentic, IsAuthentic-verify_any}

-- The two files of the manifest are no payload.
walk-visits_after_manifest :
    (sha256 : Bytes → Bytes) (now : Option Bytes) (visits : List Visit)
    → walk sha256 (visits_after manifest_name now visits) ≡ walk sha256 visits
unfolding walk see visits_after bytes_eq
walk-visits_after_manifest sha256 none visits = refl
walk-visits_after_manifest sha256 (some content) visits =
    elim (Bool-cases (has_visit manifest_name visits)) [ inl e ↦ rw e refl | inr e ↦ rw e refl ]

walk-visits_after_signature :
    (sha256 : Bytes → Bytes) (now : Option Bytes) (visits : List Visit)
    → walk sha256 (visits_after signature_name now visits) ≡ walk sha256 visits
unfolding walk see visits_after bytes_eq
walk-visits_after_signature sha256 none visits = refl
walk-visits_after_signature sha256 (some content) visits =
    elim (Bool-cases (has_visit signature_name visits)) [ inl e ↦ rw e refl | inr e ↦ rw e refl ]

IsTrusted-append :
    (prims : Primitives) (before after : List Bytes) (public text signature : Bytes)
    → All (λ k. length k ≡ public_key_size) before
    → length public ≡ public_key_size
    → prims.ed25519_verify public text signature ≡ true
    → IsTrusted prims (before ++ (public ∷ after)) text signature
IsTrusted-append prims [] after public text signature h size v = (size, inl v)
IsTrusted-append prims (k ∷ before) after public text signature (h, l) size v =
    (h, inr (IsTrusted-append prims before after public text signature l size v))

collect_files-sealed :
    (prims : Primitives) (d : Directory) (text signature : Bytes)
    → collect_files prims.sha256
        (put_signature written signature (put_manifest written text d)).visits
      ≡ collect_files prims.sha256 d.visits
unfolding collect_files put_signature put_manifest
collect_files-sealed prims d text signature = ap (sorted prims.sha256) (
    walk-visits_after_signature prims.sha256 (some signature)
      (visits_after manifest_name (some text) d.visits)
    ∙ walk-visits_after_manifest prims.sha256 (some text) d.visits)

module _ (prims : Primitives) (metadata : Metadata) (key public : Bytes)
    (before after : List Bytes) where
  -- After a Seal that returns nil, with the paths of the walk relative and clean, VerifyAny accepts
  -- the directory under any list of keys that has the public key of the signing key, the keys before
  -- it being of the size of a key, and returns the manifest that was sealed, with the files that the
  -- walk found. Ed25519 is taken to accept its own signatures, which are bytes, and encoding/json to
  -- read this manifest back and then to be at the end.
  pub seal-verify_any :
      (d d' : Directory) (a : Artifact) (first second : Writing)
      → ((text : Bytes) → prims.ed25519_verify public text (prims.ed25519_sign key text) ≡ true)
      → ((text : Bytes) → All IsByte (prims.ed25519_sign key text))
      → ((files : List File) (text : Bytes)
          → collect_files prims.sha256 d.visits ≡ Files.ok files
          → prims.marshal (manifest_of prims metadata files) ≡ some text
          → prims.decode_manifest text ≡ some (manifest_of prims metadata files, []))
      → prims.decode_any [] ≡ eof
      → length public ≡ public_key_size
      → All (λ k. length k ≡ public_key_size) before
      → All HasSafePath d.visits
      → seal prims metadata key first second d ≡ (ok a, d')
      → (files : List File) × (collect_files prims.sha256 d.visits ≡ Files.ok files)
        × (verify_any prims d' (before ++ (public ∷ after)) ≡ ok (manifest_of prims metadata files))
  unfolding put_signature put_manifest manifest_of
  seal-verify_any d d' a first second verifies bytes reads_back at_end size sizes paths h =
      let s = seal-IsSealed prims metadata key first second d a d' h in
      let signature = prims.ed25519_sign key s.text in
      let m = manifest_of prims metadata s.files in
      let sealed_d = put_signature written (encode std signature) (put_manifest written s.text d) in
      let authentic : IsAuthentic prims sealed_d (before ++ (public ∷ after)) m = record {
        text = s.text;
        signature_text = encode std signature;
        signature = signature;
        rest = [];
        manifest_read = refl;
        signature_read = refl;
        decoded = decode-encode std std-IsSound signature (bytes s.text);
        trusted =
            IsTrusted-append prims before after public s.text signature sizes size
              (verifies s.text);
        parsed = reads_back s.files s.text s.collected_files s.marshalled;
        ended = at_end;
        schema = refl;
        payload = collect_files-sealed prims d s.text (encode std signature) ∙ s.collected_files;
        safe = collect_files-IsSafe prims.sha256 d.visits s.files paths s.collected_files;
      } in
      let accepted =
        IsAuthentic-verify_any prims sealed_d (before ++ (public ∷ after)) m authentic in
      (
        s.files,
        s.collected_files,
        subst (λ e. verify_any prims e (before ++ (public ∷ after)) ≡ ok m) s.directory accepted,
      )
