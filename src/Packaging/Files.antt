-- ===== src/Packaging/Files.antt =====
-- collectFiles, hashFile and equalFiles of packaging/manifest.go, on the visits of a walk of the
-- directory.
pub mod Equal
pub mod Walks
use packages_go.Prelude.{
  ℕ, Bool, true, false, not, ◌&&◌, ◌||◌, List, [], ◌∷◌, Bytes, codes, bytes_eq, length, ◌==◌,
  if◌then◌else◌,
}
use packages_go.Encoding.Hex.{hex_encode}
use packages_go.Sorting.{sort}
use packages_go.Packaging.Paths.{safe_relative_path}

abbrev pub manifest_name : Bytes
manifest_name = codes "manifest.json"

abbrev pub signature_name : Bytes
signature_name = codes "manifest.ed25519"

pub record File : Type 0 where
  pub path : Bytes
  pub bytes : ℕ
  pub sha256 : Bytes

-- What the walk finds at a path: an error of the walk, a directory, a symbolic link, another file
-- that is not regular, a file whose Info fails, one that cannot be read to its end, or a regular
-- file with its content.
pub data Node : Type 0 where
  walk_error folder symlink irregular info_error unreadable : Node
  regular : Bytes → Node

-- One call of the function that is given to WalkDir: the path relative to the directory, whether the
-- context is done by then, and what is there.
pub record Visit : Type 0 where
  pub path : Bytes
  pub is_done : Bool
  pub node : Node

pub data WalkError : Type 0 where
  walk_failed context_done info_failed hash_failed : WalkError
  has_symlink not_regular : Bytes → WalkError

pub data Walked (A : Type 0) : Type 0 where
  ok : A → Walked A
  err : WalkError → Walked A

pub data Seen : Type 0 where
  skipped : Seen
  collected : File → Seen
  refused : WalkError → Seen

module _ (sha256 : Bytes → Bytes) where
  unfoldable pub hash_file : Bytes → Bytes → File
  hash_file path content = record {
    path = path;
    bytes = length content;
    sha256 = hex_encode (sha256 content);
  }

  abbrev pub is_own : Bytes → Bool
  is_own path = bytes_eq path manifest_name || bytes_eq path signature_name

  -- The root itself is a folder. The two files of the manifest are left out before anything is asked
  -- of them.
  abbrev pub payload_node : Bytes → Node → Seen
  payload_node path walk_error = refused walk_failed
  payload_node path folder = skipped
  payload_node path symlink = refused (has_symlink path)
  payload_node path irregular = refused (not_regular path)
  payload_node path info_error = refused info_failed
  payload_node path unreadable = refused hash_failed
  payload_node path (regular content) = collected (hash_file path content)

  abbrev pub after_context : Bytes → Node → Seen
  after_context path folder = skipped
  after_context path node = if is_own path then skipped else payload_node path node

  abbrev pub see_node : Visit → Node → Seen
  see_node v walk_error = refused walk_failed
  see_node v node = if v.is_done then refused context_done else after_context v.path node

  unfoldable pub see : Visit → Seen
  unfolding bytes_eq hash_file
  see v = see_node v v.node

  abbrev pub add_seen : Seen → Walked (List File) → Walked (List File)
  add_seen skipped rest = rest
  add_seen (refused e) rest = err e
  add_seen (collected f) (ok fs) = ok (f ∷ fs)
  add_seen (collected f) (err e) = err e

  -- The files in the order of the walk, or the first error.
  unfoldable pub walk : List Visit → Walked (List File)
  unfolding see
  walk [] = ok []
  walk (v ∷ vs) = add_seen (see v) (walk vs)

  abbrev pub sorted : Walked (List File) → Walked (List File)
  sorted (ok fs) = ok (sort (λ f. f.path) fs)
  sorted (err e) = err e

  unfoldable pub collect_files : List Visit → Walked (List File)
  unfolding walk sort
  collect_files visits = sorted (walk visits)

-- left[index] == right[index]
unfoldable pub same_file : File → File → Bool
same_file a b = bytes_eq a.path b.path && ((a.bytes == b.bytes) && bytes_eq a.sha256 b.sha256)

unfoldable pub equal_from : List File → List File → Bool
unfolding same_file safe_relative_path
equal_from [] right = true
equal_from (f ∷ left) [] = false
equal_from (f ∷ left) (g ∷ right) =
    if not (same_file f g) || not (safe_relative_path f.path) then false else equal_from left right

unfoldable pub equal_files : List File → List File → Bool
unfolding equal_from
equal_files left right = if not (length left == length right) then false else equal_from left right
