-- ===== src/Slashes.antt =====
-- Paths with slashes: strings.Split and strings.Join with "/", and path.Clean, which is also
-- filepath.Clean on Unix.
pub mod Pieces
pub mod Clean
use packages_go.Prelude.{
  ℕ, Bool, true, false, ◌||◌, List, [], ◌∷◌, ◌++◌, Bytes, bytes_eq, is_empty, ◌==◌, if◌then◌else◌,
}

-- The byte c in front of the first piece.
abbrev pub onto_first : ℕ → List Bytes → List Bytes
onto_first c [] = (c ∷ []) ∷ []
onto_first c (s ∷ l) = (c ∷ s) ∷ l

-- strings.Split(s, "/")
unfoldable pub split_slash : Bytes → List Bytes
split_slash [] = [] ∷ []
split_slash (c ∷ s) = let l = split_slash s in if c == b'/' then [] ∷ l else onto_first c l

-- strings.Join(pieces, "/")
unfoldable pub join_slash : List Bytes → Bytes
join_slash [] = []
join_slash (p ∷ []) = p
join_slash (p ∷ q ∷ ps) = p ++ (b'/' ∷ join_slash (q ∷ ps))

abbrev pub dot : Bytes
dot = b'.' ∷ []

abbrev pub dots : Bytes
dots = b'.' ∷ b'.' ∷ []

-- What ".." does to the pieces kept so far, the last one first: it takes one back, or stays where
-- nothing but ".." is kept; at a root it goes.
abbrev back : Bool → List Bytes → List Bytes
back rooted [] = if rooted then [] else dots ∷ []
back rooted (p ∷ kept) = if bytes_eq p dots then dots ∷ p ∷ kept else kept

abbrev clean_step : Bool → Bytes → List Bytes → List Bytes
clean_step rooted p kept =
    if is_empty p || bytes_eq p dot
    then kept
    else if bytes_eq p dots
    then back rooted kept
    else p ∷ kept

unfoldable pub clean_pieces : Bool → List Bytes → List Bytes → List Bytes
unfolding bytes_eq
clean_pieces rooted kept [] = kept
clean_pieces rooted kept (p ∷ ps) = clean_pieces rooted (clean_step rooted p kept) ps

abbrev pub or_dot : Bytes → Bytes
or_dot [] = dot
or_dot (c ∷ s) = c ∷ s

unfoldable pub reversed : List Bytes → List Bytes → List Bytes
reversed [] tail = tail
reversed (p ∷ ps) tail = reversed ps (p ∷ tail)

-- path.Clean: repeated slashes, "." and inner ".." go.
unfoldable pub clean : Bytes → Bytes
unfolding split_slash clean_pieces reversed join_slash
clean [] = dot
clean (c ∷ s) =
    let kept = clean_pieces (c == b'/') [] (split_slash (c ∷ s)) in
    if c == b'/'
    then b'/' ∷ join_slash (reversed kept [])
    else or_dot (join_slash (reversed kept []))
