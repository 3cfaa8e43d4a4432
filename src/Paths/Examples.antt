-- ===== src/Paths/Examples.antt =====
-- Paths on small inputs, and an instance of the theorem about them.
use asgard.Prelude.{◌≡◌, refl, ◌↔◌, ◌⊎◌, true, false, [], ◌∷◌, bytes, text_eq, has_prefix, arith}
use asgard.Paths.{
  split_slash, join_slash, clean, components, render, clean_step, clean_back, is_rooted,
  paths_overlap,
}
use asgard.Paths.Overlap.{IsName, path_of, Within, paths_overlap_iff}

cleaned : clean (bytes "/a//b/./../c/") ≡ bytes "/a/c"
unfolding clean components render clean_step clean_back split_slash join_slash is_rooted text_eq
cleaned = refl

siblings : paths_overlap (bytes "/w/ab") (bytes "/w/a") ≡ false
unfolding paths_overlap clean components render clean_step clean_back split_slash join_slash
    is_rooted text_eq has_prefix
siblings = refl

w-IsName : IsName (bytes "w")
w-IsName = record {
  some_byte = λ e. cc;
  no_slash = ((λ e. omega arith), tt);
  not_dot = λ e. ground arith;
  not_dots = λ e. ground arith;
}

p-IsName : IsName (bytes "p")
p-IsName = record {
  some_byte = λ e. cc;
  no_slash = ((λ e. omega arith), tt);
  not_dot = λ e. ground arith;
  not_dots = λ e. ground arith;
}

paths_overlap_iff_example :
    (paths_overlap (path_of (bytes "w" ∷ [])) (path_of (bytes "w" ∷ bytes "p" ∷ [])) ≡ true) ↔ (
      Within (bytes "w" ∷ []) (bytes "w" ∷ bytes "p" ∷ [])
      ⊎ Within (bytes "w" ∷ bytes "p" ∷ []) (bytes "w" ∷ []))
paths_overlap_iff_example =
    paths_overlap_iff (bytes "w" ∷ []) (bytes "w" ∷ bytes "p" ∷ []) (w-IsName, tt)
      (w-IsName, (p-IsName, tt))
