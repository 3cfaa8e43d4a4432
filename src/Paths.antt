-- ===== src/Paths.antt =====
-- Lexical paths: what backend/lib/dirlock/dirlock.go uses of Go's path/filepath, and its test
-- `PathsOverlap`. A path is a sequence of bytes.
pub mod Overlap
mod Examples
use mathlib.Core.List.{reverse}
use asgard.Prelude.{
  ℕ, Bool, true, false, ◌||◌, List, [], ◌∷◌, ◌++◌, foldl, Text, bytes, text_eq, has_prefix, ◌==◌,
  if◌then◌else◌,
}

abbrev pub slash : ℕ
slash = b'/'

-- `strings.Split(p, "/")`, with the component that is being read in front.
unfoldable pub split_slash : Text → List Text
split_slash [] = [] ∷ []
split_slash (c ∷ p) = elim (split_slash p) [
  | [] ↦ [] ∷ []
  | w ∷ ws ↦ if c == slash then [] ∷ w ∷ ws else (c ∷ w) ∷ ws
]

unfoldable pub join_slash : List Text → Text
join_slash [] = []
join_slash (c ∷ []) = c
join_slash (c ∷ d ∷ cs) = c ++ (slash ∷ join_slash (d ∷ cs))

-- `..` in `filepath.Clean`; the kept components stand last first.
unfoldable pub clean_back : Bool → List Text → List Text
clean_back rooted [] = if rooted then [] else bytes ".." ∷ []
clean_back rooted (d ∷ ds) = if text_eq d (bytes "..") then bytes ".." ∷ d ∷ ds else ds

-- One component of `filepath.Clean`.
unfoldable pub clean_step : Bool → List Text → Text → List Text
unfolding clean_back
clean_step rooted kept c =
    if text_eq c [] || text_eq c (bytes ".")
    then kept
    else if text_eq c (bytes "..")
    then clean_back rooted kept
    else c ∷ kept

unfoldable pub is_rooted : Text → Bool
is_rooted [] = false
is_rooted (c ∷ p) = c == slash

unfoldable pub components : Text → List Text
unfolding split_slash clean_step is_rooted
components p = reverse (foldl (clean_step (is_rooted p)) [] (split_slash p))

-- The path of the kept components.
unfoldable pub render : Bool → List Text → Text
unfolding join_slash
render true cs = slash ∷ join_slash cs
render false [] = bytes "."
render false (c ∷ cs) = join_slash (c ∷ cs)

-- `filepath.Clean`.
unfoldable pub clean : Text → Text
unfolding render components is_rooted
clean p = render (is_rooted p) (components p)

-- `filepath.Join(dir, name)`: empty elements are left out.
unfoldable pub join_path : Text → Text → Text
unfolding clean
join_path [] [] = []
join_path [] (c ∷ name) = clean (c ∷ name)
join_path (c ∷ dir) [] = clean (c ∷ dir)
join_path (c ∷ dir) (d ∷ name) = clean ((c ∷ dir) ++ (slash ∷ d ∷ name))

-- `PathsOverlap`.
unfoldable pub paths_overlap : Text → Text → Bool
paths_overlap a b =
    let clean_a = clean a in
    let clean_b = clean b in
    if text_eq clean_a clean_b
    then true
    else if text_eq clean_a (slash ∷ []) || has_prefix clean_b (clean_a ++ slash ∷ [])
    then true
    else if text_eq clean_b (slash ∷ []) || has_prefix clean_a (clean_b ++ slash ∷ [])
    then true
    else false
