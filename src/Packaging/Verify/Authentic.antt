-- ===== src/Packaging/Verify/Authentic.antt =====
-- What VerifyAny of packaging/manifest.go promises, and that it keeps it.
use mathlib.Core.Path.{subst}
use packages_go.Prelude.{
  ◌≡◌, refl, ◌↔◌, inl, inr, Bool, true, false, List, [], ◌∷◌, Bytes, bytes_eq, bytes_eq_iff,
  Bool-cases, All, Option, none, some, ◌∙◌,
}
use packages_go.Encoding.Base64.{decode, std}
use packages_go.Packaging.Files.{File, Visit, WalkError, Walked, collect_files, equal_files}
use packages_go.Packaging.Files
use packages_go.Packaging.Files.Equal.{IsSafe, equal_files_iff, equal_files_refl}
use packages_go.Packaging.Manifest.{
  manifest_schema, Manifest, Directory, PackError, Outcome, ok, err, panic, Trailing, eof,
  Primitives,
}
use packages_go.Packaging.Verify.Trusted.{
  IsTrusted, authenticated-IsTrusted, IsTrusted-authenticated,
}
use packages_go.Packaging.Verify.{
  ensure_json_eof, authenticated, verify_any, compare_files, after_eof, after_decode, after_keys,
  after_base64, after_reads,
}

module _ (prims : Primitives) where
  -- The directory carries this manifest: one of the keys signed its text, the text is one JSON value
  -- of the schema, and the payload is exactly the files that it lists, all of safe paths.
  pub record IsAuthentic (d : Directory) (keys : List Bytes) (m : Manifest) : Type 0 where
    pub text : Bytes
    pub signature_text : Bytes
    pub signature : Bytes
    pub rest : Bytes
    pub manifest_read : d.manifest ≡ some text
    pub signature_read : d.signature ≡ some signature_text
    pub decoded : decode std signature_text ≡ some signature
    pub trusted : IsTrusted prims keys text signature
    pub parsed : prims.decode_manifest text ≡ some (m, rest)
    pub ended : prims.decode_any rest ≡ eof
    pub schema : m.schema ≡ manifest_schema
    pub payload : collect_files prims.sha256 d.visits ≡ Files.ok m.files
    pub safe : All IsSafe m.files

  compare_files-ok :
      (m m' : Manifest) (actual : Walked (List File))
      → compare_files prims m actual ≡ ok m'
      → (m ≡ m') × (actual ≡ Files.ok m.files) × All IsSafe m.files
  compare_files-ok m m' (Files.err e) h = cc
  compare_files-ok m m' (Files.ok actual) h = elim (Bool-cases (equal_files m.files actual)) [
    | inr e ↦ absurd (cc (h, e))
    | inl e ↦
        let (same, safe) = (equal_files_iff m.files actual).0 e in
        let made : Outcome.ok m ≡ ok m' = rw e at h in (cc, cc, safe)
  ]

  -- What the manifest itself must be, once its text is trusted.
  record IsMatch (visits : List Visit) (m : Manifest) : Type 0 where
    schema : m.schema ≡ manifest_schema
    payload : collect_files prims.sha256 visits ≡ Files.ok m.files
    safe : All IsSafe m.files

  after_eof-ok :
      (m m' : Manifest) (visits : List Visit) (ended : Option PackError)
      → after_eof prims m visits ended ≡ ok m'
      → (ended ≡ none) × (m ≡ m') × IsMatch visits m
  after_eof-ok m m' visits (some e) h = cc
  after_eof-ok m m' visits none h = elim (Bool-cases (bytes_eq m.schema manifest_schema)) [
    | inr e ↦ absurd (cc (h, e))
    | inl e ↦
        let (same, payload, safe) =
          compare_files-ok m m' (collect_files prims.sha256 visits) (rw e at h) in
        let matched : IsMatch visits m = record {
          schema = (bytes_eq_iff m.schema manifest_schema).0 e;
          payload = payload;
          safe = safe;
        } in
        (refl, same, matched)
  ]

  ensure_json_eof-none : (t : Trailing) → ensure_json_eof t ≡ none → t ≡ eof
  unfolding ensure_json_eof
  ensure_json_eof-none eof h = refl
  ensure_json_eof-none Trailing.value h = cc
  ensure_json_eof-none Trailing.broken h = cc

  after_decode-ok :
      (visits : List Visit) (o : Option (Manifest × Bytes)) (m : Manifest)
      → after_decode prims visits o ≡ ok m
      → (rest : Bytes) × (o ≡ some (m, rest)) × (prims.decode_any rest ≡ eof) × IsMatch visits m
  after_decode-ok visits none m h = cc
  after_decode-ok visits (some (m', rest)) m h =
      let (ended, same, matched) =
        after_eof-ok m' m visits (ensure_json_eof (prims.decode_any rest)) h in
      (
        rest,
        cc,
        ensure_json_eof-none (prims.decode_any rest) ended,
        subst (IsMatch visits) same matched,
      )

  after_keys-ok :
      (text : Bytes) (visits : List Visit) (o : Outcome Bool) (m : Manifest)
      → after_keys prims text visits o ≡ ok m
      → (o ≡ ok true) × (after_decode prims visits (prims.decode_manifest text) ≡ ok m)
  after_keys-ok text visits panic m h = cc
  after_keys-ok text visits (err e) m h = cc
  after_keys-ok text visits (ok false) m h = cc
  after_keys-ok text visits (ok true) m h = (refl, h)

  after_base64-ok :
      (keys : List Bytes) (text : Bytes) (visits : List Visit) (o : Option Bytes) (m : Manifest)
      → after_base64 prims keys text visits o ≡ ok m
      → (signature : Bytes) × (o ≡ some signature)
        × (after_keys prims text visits (authenticated prims keys text signature) ≡ ok m)
  after_base64-ok keys text visits none m h = cc
  after_base64-ok keys text visits (some signature) m h = (signature, refl, h)

  after_reads-ok :
      (keys : List Bytes) (visits : List Visit) (first second : Option Bytes) (m : Manifest)
      → after_reads prims keys visits first second ≡ ok m
      → (text : Bytes) × (signature_text : Bytes) × (first ≡ some text)
        × (second ≡ some signature_text)
        × (after_base64 prims keys text visits (decode std signature_text) ≡ ok m)
  after_reads-ok keys visits none second m h = cc
  after_reads-ok keys visits (some text) none m h = cc
  after_reads-ok keys visits (some text) (some signature_text) m h =
      (text, signature_text, refl, refl, h)

  verify_any-reads :
      (d : Directory) (keys : List Bytes) (m : Manifest)
      → verify_any prims d keys ≡ ok m
      → after_reads prims keys d.visits d.manifest d.signature ≡ ok m
  unfolding verify_any
  verify_any-reads d [] m h = cc
  verify_any-reads d (key ∷ keys) m h = h

  verify_any-ok :
      (d : Directory) (keys : List Bytes) (m : Manifest)
      → verify_any prims d keys ≡ ok m
      → IsAuthentic d keys m
  verify_any-ok d keys m h =
      let (text, signature_text, first, second, passed) =
        after_reads-ok keys d.visits d.manifest d.signature m (verify_any-reads d keys m h) in
      let (signature, decoded, keyed) =
        after_base64-ok keys text d.visits (decode std signature_text) m passed in
      let (trusted, read) =
        after_keys-ok text d.visits (authenticated prims keys text signature) m keyed in
      let (rest, parsed, ended, matched) =
        after_decode-ok d.visits (prims.decode_manifest text) m read in
      record {
        text = text;
        signature_text = signature_text;
        signature = signature;
        rest = rest;
        manifest_read = first;
        signature_read = second;
        decoded = decoded;
        trusted = authenticated-IsTrusted prims keys text signature trusted;
        parsed = parsed;
        ended = ended;
        schema = matched.schema;
        payload = matched.payload;
        safe = matched.safe;
      }

  verify_any-nonempty :
      (d : Directory) (keys : List Bytes) (text signature : Bytes)
      → IsTrusted prims keys text signature
      → verify_any prims d keys ≡ after_reads prims keys d.visits d.manifest d.signature
  unfolding verify_any
  verify_any-nonempty d [] text signature h = absurd h
  verify_any-nonempty d (key ∷ keys) text signature h = refl

  compare_files-passes :
      (m : Manifest) → All IsSafe m.files → compare_files prims m (Files.ok m.files) ≡ ok m
  compare_files-passes m safe = rw (equal_files_refl m.files safe) refl

  after_decode-passes :
      (visits : List Visit) (m : Manifest) (rest : Bytes)
      → prims.decode_any rest ≡ eof
      → m.schema ≡ manifest_schema
      → collect_files prims.sha256 visits ≡ Files.ok m.files
      → All IsSafe m.files
      → after_decode prims visits (some (m, rest)) ≡ ok m
  unfolding ensure_json_eof
  after_decode-passes visits m rest ended schema payload safe =
      let e : bytes_eq m.schema manifest_schema ≡ true =
        (bytes_eq_iff m.schema manifest_schema).1 schema in
      rw (ended, e, payload) (compare_files-passes m safe)

  pub IsAuthentic-verify_any :
      (d : Directory) (keys : List Bytes) (m : Manifest)
      → IsAuthentic d keys m
      → verify_any prims d keys ≡ ok m
  IsAuthentic-verify_any d keys m a =
      let keyed = IsTrusted-authenticated prims keys a.text a.signature a.trusted in
      verify_any-nonempty d keys a.text a.signature a.trusted
      ∙ (rw (a.manifest_read, a.signature_read, a.decoded, keyed, a.parsed)
          (after_decode-passes d.visits m a.rest a.ended a.schema a.payload a.safe))

  -- VerifyAny returns a manifest exactly when the directory carries it: the manifest's text and the
  -- signature are there, one of the trusted keys authenticates the text, the keys before it being of
  -- the size of a key, the text is one JSON value of the schema, and the payload on disk is exactly
  -- the files that the manifest lists, in its order, all of them of safe paths.
  pub verify_any_iff :
      (d : Directory) (keys : List Bytes) (m : Manifest)
      → (verify_any prims d keys ≡ ok m) ↔ IsAuthentic d keys m
  verify_any_iff d keys m = (verify_any-ok d keys m, IsAuthentic-verify_any d keys m)
