-- ===== src/Packaging/Seal/Done.antt =====
-- What a Seal of packaging/manifest.go that returns nil has done.
use mathlib.Core.Path.{subst}
use packages_go.Prelude.{
  ◌≡◌, refl, ap, inl, inr, List, Bytes, length, ◌==◌, Bool-cases, Option, none, some,
}
use packages_go.Encoding.Base64.{encode, std}
use packages_go.Packaging.Files.{
  File, Node, folder, symlink, irregular, walk_error, info_error, unreadable, regular, Visit,
  WalkError, Walked, Seen, skipped, collected, refused, see, see_node, add_seen, walk, sorted,
  collect_files, hash_file, manifest_name, signature_name,
}
use packages_go.Packaging.Files
use packages_go.Packaging.Manifest.{
  Metadata, Artifact, Directory, Writing, written, create_failed, chmod_failed, write_failed,
  close_failed, PackError, Outcome, ok, err, panic, Primitives, write_private_file, put_manifest,
  put_signature, marshal_failed,
}
use packages_go.Packaging.Seal.{
  private_key_size, manifest_of, seal, after_signature, after_manifest, sign_and_write,
  after_collect,
}

module _ (prims : Primitives) (metadata : Metadata) (key : Bytes) (first second : Writing) where
  write_private_file-none : (w : Writing) → write_private_file w ≡ none → w ≡ written
  unfolding write_private_file
  write_private_file-none written h = refl
  write_private_file-none create_failed h = cc
  write_private_file-none chmod_failed h = cc
  write_private_file-none close_failed h = cc
  write_private_file-none (write_failed n) h = cc

  -- What a successful Seal has done.
  pub record IsSealed (d d' : Directory) : Type 0 where
    pub files : List File
    pub text : Bytes
    pub collected_files : collect_files prims.sha256 d.visits ≡ Files.ok files
    pub marshalled : prims.marshal (manifest_of prims metadata files) ≡ some text
    pub directory :
        put_signature written
          (encode std (prims.ed25519_sign key text))
          (put_manifest written text d)
        ≡ d'

  after_signature-ok :
      (text signature : Bytes) (wrote : Option PackError) (a : Artifact)
      → after_signature prims text signature wrote ≡ ok a
      → wrote ≡ none
  after_signature-ok text signature none a h = refl
  after_signature-ok text signature (some e) a h = cc

  after_manifest-ok :
      (text signature : Bytes) (d : Directory) (wrote : Option PackError) (a : Artifact)
      (d' : Directory)
      → after_manifest prims text signature second d wrote ≡ (ok a, d')
      → (wrote ≡ none) × (put_signature written signature d ≡ d')
  after_manifest-ok text signature d (some e) a d' h =
      let failed : err e ≡ ok a = ap (λ (q : Outcome Artifact × Directory). q.0) h in cc
  after_manifest-ok text signature d none a d' h =
      let made = ap (λ (q : Outcome Artifact × Directory). q.0) h in
      let full =
        write_private_file-none second
          (after_signature-ok text signature (write_private_file second) a made) in
      (
        refl,
        subst (λ w. put_signature w signature d ≡ d') full
            (ap (λ (q : Outcome Artifact × Directory). q.1) h),
      )

  sign_and_write-ok :
      (d : Directory) (marshalled : Option Bytes) (a : Artifact) (d' : Directory)
      → sign_and_write prims key first second d marshalled ≡ (ok a, d')
      → (text : Bytes) × (marshalled ≡ some text)
        × (put_signature written
              (encode std (prims.ed25519_sign key text))
              (put_manifest written text d)
            ≡ d')
  sign_and_write-ok d none a d' h =
      let failed : err marshal_failed ≡ ok a = ap (λ (q : Outcome Artifact × Directory). q.0) h in
      cc
  sign_and_write-ok d (some text) a d' h = elim (Bool-cases (length key == private_key_size)) [
    | inr e ↦
        let failed : panic ≡ ok a = ap (λ (q : Outcome Artifact × Directory). q.0) (rw e at h) in cc
    | inl e ↦
        let signature = encode std (prims.ed25519_sign key text) in
        let (wrote, second_done) =
          after_manifest-ok text signature (put_manifest first text d) (write_private_file first) a
            d' (rw e at h) in
        let full = write_private_file-none first wrote in
        (
          text,
          refl,
          subst (λ w. put_signature written signature (put_manifest w text d) ≡ d') full
              second_done,
        )
  ]

  after_collect-ok :
      (d : Directory) (w : Walked (List File)) (a : Artifact) (d' : Directory)
      → after_collect prims metadata key first second d w ≡ (ok a, d')
      → (files : List File) × (w ≡ Files.ok files)
        × (sign_and_write prims key first second d
              (prims.marshal (manifest_of prims metadata files))
            ≡ (ok a, d'))
  after_collect-ok d (Files.err e) a d' h =
      let failed : err (PackError.walk e) ≡ ok a =
        ap (λ (q : Outcome Artifact × Directory). q.0) h in
      cc
  after_collect-ok d (Files.ok files) a d' h = (files, refl, h)

  pub seal-IsSealed :
      (d : Directory) (a : Artifact) (d' : Directory)
      → seal prims metadata key first second d ≡ (ok a, d')
      → IsSealed d d'
  unfolding seal
  seal-IsSealed d a d' h =
      let (files, found, signed) =
        after_collect-ok d (collect_files prims.sha256 d.visits) a d' h in
      let (text, marshalled, directory) =
        sign_and_write-ok d (prims.marshal (manifest_of prims metadata files)) a d' signed in
      record {
        files = files;
        text = text;
        collected_files = found;
        marshalled = marshalled;
        directory = directory;
      }
