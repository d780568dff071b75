-- ===== src/Packaging/Paths.antt =====
-- safeRelativePath of packaging/manifest.go, on Unix, where FromSlash and ToSlash change nothing.
pub mod Safe
use packages_go.Prelude.{
  ℕ, Bool, true, false, not, ◌&&◌, [], ◌∷◌, Bytes, bytes_eq, is_empty, has_prefix, ◌==◌,
  if◌then◌else◌,
}
use packages_go.Slashes.{clean, dots}

-- filepath.IsAbs
abbrev pub is_abs : Bytes → Bool
is_abs [] = false
is_abs (c ∷ s) = c == b'/'

abbrev pub up_slash : Bytes
up_slash = b'.' ∷ b'.' ∷ b'/' ∷ []

-- What is asked of the cleaned path.
unfoldable pub stays : Bytes → Bytes → Bool
unfolding bytes_eq has_prefix
stays path cleaned =
    bytes_eq cleaned path && (not (bytes_eq cleaned dots) && not (has_prefix cleaned up_slash))

unfoldable pub safe_relative_path : Bytes → Bool
unfolding clean stays
safe_relative_path path =
    if is_empty path then false else if is_abs path then false else stays path (clean path)
