-- ===== src/Paths/Overlap.antt =====
-- What `PathsOverlap` of backend/lib/dirlock/dirlock.go decides: on absolute paths, whether one is an ancestor
-- of the other, or the same.
use mathlib.Core.List.{reverse, reverse-cons, cons≢nil}
use asgard.Prelude.{
  subst, ℕ, ◌≡◌, refl, sym, ◌∙◌, ap, ◌≢◌, ◌↔◌, ◌⊎◌, inl, inr, Bool, true, List, [], ◌∷◌, ◌++◌,
  foldl, Text, bytes, text_eq, text_eq_iff, text_eq_complete, text_eq_sound, has_prefix, All, arith,
  Bool-cases, ◌||◌, ||_split, append_assoc, append-nil, ◌==◌,
}
use asgard.Paths.{slash, split_slash, join_slash, clean_step, components, clean, paths_overlap}

text_eq_symm : (s t : Text) → text_eq s t ≡ text_eq t s
text_eq_symm s t = ground (arith, text_eq_iff s t, text_eq_iff t s)

pub paths_overlap_symm : (a b : Text) → paths_overlap a b ≡ paths_overlap b a
unfolding paths_overlap
paths_overlap_symm a b = ground (arith, text_eq_symm (clean a) (clean b))

-- The name of a directory.
pub record IsName (c : Text) : Type 0 where
  pub some_byte : c ≢ []
  pub no_slash : All (λ (b : ℕ). b ≢ slash) c
  pub not_dot : c ≢ bytes "."
  pub not_dots : c ≢ bytes ".."

abbrev pub AreNames : List Text → Type 0
AreNames cs = All IsName cs

-- The absolute path of a list of names.
abbrev pub path_of : List Text → Text
path_of cs = slash ∷ join_slash cs

-- `q` is `p`, or lies below it.
abbrev pub Within : List Text → List Text → Type 0
Within p q = (r : List Text) × (q ≡ p ++ r)

split-ne : (p : Text) → (w : Text) × (ws : List Text) × (split_slash p ≡ w ∷ ws)
unfolding split_slash
split-ne [] = ([], [], refl)
split-ne (c ∷ p) =
    let (w, ws, e) = split-ne p in
    elim (Bool-cases (c == slash)) [
      | inl s ↦ ([], w ∷ ws, rw (e, split_slash, s))
      | inr n ↦ (c ∷ w, ws, rw (e, split_slash, n))
    ]

split-slash : (p : Text) → split_slash (slash ∷ p) ≡ [] ∷ split_slash p
unfolding split_slash
split-slash p = let (w, ws, e) = split-ne p in rw (e, split_slash)

-- A name in front of a slash is the first component.
split-append :
    (c p : Text) → All (λ (b : ℕ). b ≢ slash) c → split_slash (c ++ slash ∷ p) ≡ c ∷ split_slash p
unfolding split_slash
split-append [] p all = split-slash p
split-append (b ∷ c) p (n, all) = let e = split-append c p all in ground arith

split-name : (c : Text) → All (λ (b : ℕ). b ≢ slash) c → split_slash c ≡ c ∷ []
unfolding split_slash
split-name [] all = refl
split-name (b ∷ c) (n, all) = let e = split-name c all in ground arith

-- The components of a path of names, with more behind a slash.
split-join_append :
    (c : Text) (cs : List Text) (r : Text)
    → AreNames (c ∷ cs)
    → split_slash (join_slash (c ∷ cs) ++ slash ∷ r) ≡ (c ∷ cs) ++ split_slash r
unfolding join_slash
split-join_append c [] r (n, _) = split-append c r n.no_slash
split-join_append c (d ∷ cs) r (n, all) =
    rw (append_assoc c (slash ∷ join_slash (d ∷ cs)) (slash ∷ r)) (
      split-append c (join_slash (d ∷ cs) ++ slash ∷ r) n.no_slash
      ∙ ap (λ (l : List Text). c ∷ l) (split-join_append d cs r all))

split-join :
    (c : Text) (cs : List Text) → AreNames (c ∷ cs) → split_slash (join_slash (c ∷ cs)) ≡ c ∷ cs
unfolding join_slash
split-join c [] (n, _) = split-name c n.no_slash
split-join c (d ∷ cs) (n, all) =
    split-append c (join_slash (d ∷ cs)) n.no_slash
    ∙ ap (λ (l : List Text). c ∷ l) (split-join d cs all)

step-name : (kept : List Text) (c : Text) → IsName c → clean_step true kept c ≡ c ∷ kept
unfolding clean_step
step-name kept c n = ground (
  arith,
  text_eq_sound c [],
  text_eq_sound c (bytes "."),
  text_eq_sound c (bytes ".."),
  n.some_byte,
  n.not_dot,
  n.not_dots,
)

steps-names :
    (kept cs : List Text)
    → AreNames cs
    → reverse (foldl (clean_step true) kept cs) ≡ reverse kept ++ cs
steps-names kept [] all = sym (append-nil (reverse kept))
steps-names kept (c ∷ cs) (n, all) = rw (step-name kept c n) (
    steps-names (c ∷ kept) cs all
    ∙ rw (reverse-cons c kept) (append_assoc (reverse kept) (c ∷ []) cs))

-- The components of a path of names are the names.
components-path_of : (cs : List Text) → AreNames cs → components (path_of cs) ≡ cs
unfolding components clean_step text_eq join_slash
components-path_of [] all = refl
components-path_of (c ∷ cs) all =
    rw (split-slash (join_slash (c ∷ cs))) (rw (split-join c cs all) (steps-names [] (c ∷ cs) all))

-- `Clean` leaves a path of names as it is.
pub clean-path_of : (cs : List Text) → AreNames cs → clean (path_of cs) ≡ path_of cs
unfolding clean
clean-path_of cs all = rw (components-path_of cs all)

path_of-injective : (p q : List Text) → AreNames p → AreNames q → path_of p ≡ path_of q → p ≡ q
path_of-injective p q np nq e =
    sym (components-path_of p np) ∙ (ap components e ∙ components-path_of q nq)

has_prefix_sound : (s t : Text) → has_prefix s t ≡ true → (r : Text) × (s ≡ t ++ r)
unfolding has_prefix
has_prefix_sound s [] h = (s, refl)
has_prefix_sound [] (b ∷ t) h = cc
has_prefix_sound (a ∷ s) (b ∷ t) h =
    let (r, e) = has_prefix_sound s t (ground arith) in (r, ground arith)

has_prefix-append : (t r : Text) → has_prefix (t ++ r) t ≡ true
unfolding has_prefix
has_prefix-append [] [] = refl
has_prefix-append [] (c ∷ r) = refl
has_prefix-append (b ∷ t) r = ground (arith, has_prefix-append t r)

-- The test of one direction.
abbrev within_test : Text → Text → Bool
within_test a b = text_eq a b || (text_eq a (slash ∷ []) || has_prefix b (a ++ slash ∷ []))

join-append :
    (c : Text) (cs : List Text) (d : Text) (ds : List Text)
    → join_slash ((c ∷ cs) ++ d ∷ ds) ≡ join_slash (c ∷ cs) ++ slash ∷ join_slash (d ∷ ds)
unfolding join_slash
join-append c [] d ds = refl
join-append c (e ∷ cs) d ds =
    rw (append_assoc c (slash ∷ join_slash (e ∷ cs)) (slash ∷ join_slash (d ∷ ds)))
      (ap (λ (l : Text). c ++ slash ∷ l) (join-append e cs d ds))

within_root : (q : Text) → within_test (path_of []) q ≡ true
unfolding join_slash
within_root q = let e = text_eq_complete (slash ∷ []) (slash ∷ []) refl in ground arith

within_prefix : (p q : Text) → has_prefix q (p ++ slash ∷ []) ≡ true → within_test p q ≡ true
within_prefix p q h = ground arith

within_test_complete : (p q : List Text) → Within p q → within_test (path_of p) (path_of q) ≡ true
within_test_complete p q ([], e) =
    let same = text_eq_complete (path_of p) (path_of q) (ap path_of (sym (e ∙ append-nil p))) in
    rw same
within_test_complete [] q (d ∷ ds, e) = within_root (path_of q)
within_test_complete (c ∷ cs) q (d ∷ ds, e) = within_prefix (path_of (c ∷ cs)) (path_of q) (
    subst (λ (t : Text). has_prefix (slash ∷ t) (path_of (c ∷ cs) ++ slash ∷ []) ≡ true)
      (sym (
        ap join_slash e
        ∙ join-append c cs d ds
        ∙ sym (append_assoc (join_slash (c ∷ cs)) (slash ∷ []) _)))
      (has_prefix-append (path_of (c ∷ cs) ++ slash ∷ []) (join_slash (d ∷ ds))))

below :
    (c : Text) (cs q : List Text) (r : Text)
    → AreNames (c ∷ cs)
    → AreNames q
    → join_slash q ≡ join_slash (c ∷ cs) ++ slash ∷ r
    → Within (c ∷ cs) q
unfolding split_slash join_slash
below c cs [] r (n, np) nq e =
    let f = ap split_slash e ∙ split-join_append c cs r (n, np) in absurd (n.some_byte (cc))
below c cs (d ∷ q) r np nq e =
    (split_slash r, sym (split-join d q nq) ∙ (ap split_slash e ∙ split-join_append c cs r np))

root_path : path_of [] ≡ slash ∷ []
unfolding join_slash
root_path = refl

tail_of : {b c : ℕ} {s t : Text} → b ∷ s ≡ c ∷ t → s ≡ t
tail_of e = cc

or_right : (a b : Bool) → b ≡ true → (a || b) ≡ true
or_right a b h = ground arith

within_test_sound :
    (p q : List Text)
    → AreNames p
    → AreNames q
    → within_test (path_of p) (path_of q) ≡ true
    → Within p q
within_test_sound [] q np nq h = (q, refl)
within_test_sound (c ∷ cs) q np nq h = elim (||_split _ _ h) [
  | inl same ↦
      ([], sym (append-nil (c ∷ cs) ∙ path_of-injective (c ∷ cs) q np nq (text_eq_sound _ _ same)))
  | inr rest ↦ elim (||_split _ _ rest) [
    | inl root ↦ (
      [],
      absurd
          (cons≢nil (path_of-injective (c ∷ cs) [] np tt (text_eq_sound _ _ root ∙ sym root_path))),
    )
    | inr prefix ↦
        let (r, e) = has_prefix_sound (path_of q) (path_of (c ∷ cs) ++ slash ∷ []) prefix in
        below c cs q r np nq (tail_of e ∙ append_assoc (join_slash (c ∷ cs)) (slash ∷ []) r)
  ]
]

overlap-tests :
    (a b : Text)
    → paths_overlap a b ≡ (within_test (clean a) (clean b) || within_test (clean b) (clean a))
unfolding paths_overlap
overlap-tests a b = ground (arith, text_eq_symm (clean a) (clean b))

-- On absolute paths of names, `PathsOverlap` is true exactly where one path is the other or an ancestor of it.
pub paths_overlap_iff :
    (p q : List Text)
    → AreNames p
    → AreNames q
    → (paths_overlap (path_of p) (path_of q) ≡ true) ↔ (Within p q ⊎ Within q p)
paths_overlap_iff p q np nq = (sound, complete)
  where
    tests :
        paths_overlap (path_of p) (path_of q)
        ≡ (within_test (path_of p) (path_of q) || within_test (path_of q) (path_of p))
    tests =
        subst
          (λ (a : Text).
            paths_overlap (path_of p) (path_of q)
            ≡ (within_test a (path_of q) || within_test (path_of q) a))
          (clean-path_of p np)
          (subst
            (λ (b : Text).
              paths_overlap (path_of p) (path_of q)
              ≡ (within_test (clean (path_of p)) b || within_test b (clean (path_of p))))
            (clean-path_of q nq) (overlap-tests (path_of p) (path_of q)))

    sound : paths_overlap (path_of p) (path_of q) ≡ true → Within p q ⊎ Within q p
    sound h = elim (||_split _ _ (sym tests ∙ h)) [
      | inl a ↦ inl (within_test_sound p q np nq a)
      | inr b ↦ inr (within_test_sound q p nq np b)
    ]

    complete : Within p q ⊎ Within q p → paths_overlap (path_of p) (path_of q) ≡ true
    complete (inl a) = tests ∙ rw (within_test_complete p q a)
    complete (inr b) = let e = within_test_complete q p b in tests ∙ or_right _ _ e
