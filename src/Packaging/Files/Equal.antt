-- ===== src/Packaging/Files/Equal.antt =====
-- When equalFiles of packaging/manifest.go holds.
use packages_go.Prelude.{
  ◌≡◌, refl, ◌↔◌, Bool, true, false, not, ◌&&◌, ◌||◌, List, [], ◌∷◌, bytes_eq, bytes_eq_iff,
  bytes_eq_refl, length, ◌==◌, Bool-cases, inl, inr, ==_iff, and_split, neither, All, arith,
}
use packages_go.Packaging.Files.{File, same_file, equal_from, equal_files}
use packages_go.Packaging.Paths.{safe_relative_path}

abbrev pub IsSafe : File → Type 0
IsSafe f = safe_relative_path f.path ≡ true

same_file-eq : (f g : File) → same_file f g ≡ true → f ≡ g
unfolding same_file
same_file-eq f g h =
    let (path, rest) =
      and_split (bytes_eq f.path g.path) ((f.bytes == g.bytes) && bytes_eq f.sha256 g.sha256) h in
    let (size, hash) = and_split (f.bytes == g.bytes) (bytes_eq f.sha256 g.sha256) rest in
    let p : f.path ≡ g.path = (bytes_eq_iff f.path g.path).0 path in
    let n : f.bytes ≡ g.bytes = (==_iff f.bytes g.bytes).0 size in
    let d : f.sha256 ≡ g.sha256 = (bytes_eq_iff f.sha256 g.sha256).0 hash in
    λ i. record { path = p i; bytes = n i; sha256 = d i }

same_file_refl : (f : File) → same_file f f ≡ true
unfolding same_file
same_file_refl f =
    let same : (f.bytes == f.bytes) ≡ true = (==_iff f.bytes f.bytes).1 refl in
    rw (bytes_eq_refl f.path, same, bytes_eq_refl f.sha256) refl

negated_false : (b : Bool) → not b ≡ false → b ≡ true
negated_false true h = refl
negated_false false h = cc

equal_from-eq :
    (left right : List File)
    → length left ≡ length right
    → equal_from left right ≡ true
    → (left ≡ right) × All IsSafe left
unfolding equal_from
equal_from-eq [] [] n h = (refl, tt)
equal_from-eq [] (g ∷ right) n h = absurd (ground arith)
equal_from-eq (f ∷ left) [] n h = cc
equal_from-eq (f ∷ left) (g ∷ right) n h =
    elim (Bool-cases (not (same_file f g) || not (safe_relative_path f.path))) [
      | inl e ↦ absurd (cc (h, e))
      | inr e ↦
          let (same, safe) = neither (not (same_file f g)) (not (safe_relative_path f.path)) e in
          let (rest, all) = equal_from-eq left right (omega arith) (rw e at h) in
          let first : f ≡ g = same_file-eq f g (negated_false (same_file f g) same) in
          (cc, (negated_false (safe_relative_path f.path) safe, all))
    ]

equal_from_refl : (files : List File) → All IsSafe files → equal_from files files ≡ true
unfolding equal_from
equal_from_refl [] h = refl
equal_from_refl (f ∷ files) (h, k) = rw (same_file_refl f, h) (equal_from_refl files k)

equal_files-eq :
    (left right : List File) → equal_files left right ≡ true → (left ≡ right) × All IsSafe left
unfolding equal_files
equal_files-eq left right h = elim (Bool-cases (length left == length right)) [
  | inl e ↦ equal_from-eq left right ((==_iff (length left) (length right)).0 e) (rw e at h)
  | inr e ↦ absurd (cc (h, e))
]

pub equal_files_refl : (files : List File) → All IsSafe files → equal_files files files ≡ true
unfolding equal_files
equal_files_refl files h =
    let same : (length files == length files) ≡ true =
      (==_iff (length files) (length files)).1 refl in
    rw same (equal_from_refl files h)

pub equal_files_iff :
    (left right : List File) → (equal_files left right ≡ true) ↔ ((left ≡ right) × All IsSafe left)
equal_files_iff left right =
    (equal_files-eq left right, λ h. rw (← h.0) (equal_files_refl left h.1))
