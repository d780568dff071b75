-- ===== src/Packaging/Files/Walks.antt =====
-- The paths of what collectFiles of packaging/manifest.go collects.
use mathlib.Core.Path.{subst}
use packages_go.Sorting.Order.{All-sort}
use packages_go.Prelude.{◌≡◌, refl, ◌⊎◌, inl, inr, true, List, [], ◌∷◌, Bytes, All, arith}
use packages_go.Sorting.{sort}
use packages_go.Packaging.Paths.{safe_relative_path}
use packages_go.Packaging.Files.{
  File, Node, folder, symlink, irregular, walk_error, info_error, unreadable, regular, Visit,
  WalkError, Walked, Seen, skipped, collected, refused, see, see_node, add_seen, walk, sorted,
  collect_files, hash_file, manifest_name, signature_name,
}
use packages_go.Packaging.Files
use packages_go.Packaging.Files.Equal.{IsSafe}

-- The path of a visit is relative and clean, as filepath.Rel makes it.
abbrev pub HasSafePath : Visit → Type 0
HasSafePath v = safe_relative_path v.path ≡ true

sorted-ok :
    (sha256 : Bytes → Bytes) (w : Walked (List File)) (fs : List File)
    → sorted sha256 w ≡ Files.ok fs
    → (found : List File) × (w ≡ Files.ok found) × (sort (λ g. g.path) found ≡ fs)
sorted-ok sha256 (Files.err e) fs h = cc
sorted-ok sha256 (Files.ok found) fs h = (found, refl, cc)

see_node-path :
    (sha256 : Bytes → Bytes) (v : Visit) (node : Node) (f : File)
    → see_node sha256 v node ≡ collected f
    → v.path ≡ f.path
unfolding hash_file
see_node-path sha256 v walk_error f h = cc
see_node-path sha256 v folder f h = absurd (ground arith)
see_node-path sha256 v symlink f h = absurd (ground arith)
see_node-path sha256 v irregular f h = absurd (ground arith)
see_node-path sha256 v info_error f h = absurd (ground arith)
see_node-path sha256 v unreadable f h = absurd (ground arith)
see_node-path sha256 v (regular content) f h = ground arith

add_seen-ok :
    (sha256 : Bytes → Bytes) (s : Seen) (rest : Walked (List File)) (fs : List File)
    → add_seen sha256 s rest ≡ Files.ok fs
    → (rest ≡ Files.ok fs)
      ⊎ ((f : File) × (gs : List File) × (s ≡ collected f) × (rest ≡ Files.ok gs) × (f ∷ gs ≡ fs))
add_seen-ok sha256 skipped rest fs h = inl h
add_seen-ok sha256 (refused e) rest fs h = cc
add_seen-ok sha256 (collected f) (Files.err e) fs h = cc
add_seen-ok sha256 (collected f) (Files.ok gs) fs h = inr (f, gs, refl, refl, cc)

walk-IsSafe :
    (sha256 : Bytes → Bytes) (visits : List Visit) (fs : List File)
    → All HasSafePath visits
    → walk sha256 visits ≡ Files.ok fs
    → All IsSafe fs
unfolding walk see
walk-IsSafe sha256 [] fs h e =
    let made : Walked.ok [] ≡ Files.ok fs = e in
    let same : [] ≡ fs = cc in subst (All IsSafe) same tt
walk-IsSafe sha256 (v ∷ visits) fs (h, k) e =
    elim (add_seen-ok sha256 (see_node sha256 v v.node) (walk sha256 visits) fs e) [
      | inl later ↦ walk-IsSafe sha256 visits fs k later
      | inr (f, gs, seen, later, same) ↦
          let path = see_node-path sha256 v v.node f seen in
          let safe : IsSafe f = subst (λ q. safe_relative_path q ≡ true) path h in
          let all : All IsSafe (f ∷ gs) = (safe, walk-IsSafe sha256 visits gs k later) in
          subst (All IsSafe) same all
    ]

-- Of a walk whose paths are safe, the files collected have safe paths.
pub collect_files-IsSafe :
    (sha256 : Bytes → Bytes) (visits : List Visit) (fs : List File)
    → All HasSafePath visits
    → collect_files sha256 visits ≡ Files.ok fs
    → All IsSafe fs
unfolding collect_files
collect_files-IsSafe sha256 visits fs h e =
    let (found, walked, same) = sorted-ok sha256 (walk sha256 visits) fs e in
    subst (All IsSafe) same
      (All-sort (λ g. g.path) IsSafe found (walk-IsSafe sha256 visits found h walked))
