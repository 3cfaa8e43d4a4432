-- ===== src/Workflow/Expr/Placeholders.antt =====
-- What `Interpolate` of pkg/workflowspec/expr.go does to a text with a placeholder, and to one without.
use asgard.Prelude.{
  ℕ, zero, suc, ◌≤◌, ◌<◌, ◌≡◌, refl, sym, ap, ◌∙◌, inl, inr, false, [], ◌∷◌, ◌++◌, All, Text, bytes,
  Option, none, some, length, length-append, ◌==◌, cut_prefix, append_assoc, arith, Bool-cases,
  Option-cases,
}
use asgard.Workflow.Expr.{cut_brace, interpolate_from, interpolate}

abbrev pub Lacks : ℕ → Text → Type 0
Lacks c s = All (λ b. (b == c) ≡ false) s

-- What a placeholder becomes: its value, or itself when the key is unknown.
unfoldable pub expansion : (Text → Option Text) → Text → Text
expansion resolve key = elim (resolve key) [ some v ↦ v | none ↦ bytes "${" ++ key ++ 125 ∷ [] ]

length-cut_prefix : (p s rest : Text) → cut_prefix p s ≡ some rest → length rest ≤ length s
unfolding cut_prefix
length-cut_prefix [] s rest e = let same : s ≡ rest = cc in rw same (omega arith)
length-cut_prefix (a ∷ p) [] rest e = cc
length-cut_prefix (a ∷ p) (b ∷ s) rest e = elim (Bool-cases (a == b)) [
  | inl t ↦ let h = length-cut_prefix p s rest (rw (t, cut_prefix) at e) in omega (arith, h)
  | inr f ↦ (let e' = rw (f, cut_prefix) at e in cc)
]

same_rest : (p q : Text × Text) → some p ≡ some q → p.1 ≡ q.1
same_rest p q e = let same : p ≡ q = cc in ap (λ (r : Text × Text). r.1) same

length-cut_brace : (s key after : Text) → cut_brace s ≡ some (key, after) → length after < length s
unfolding cut_brace
length-cut_brace [] key after e = cc
length-cut_brace (b ∷ s) key after e = elim (Bool-cases (b == 125)) [
  | inl t ↦
      let same = same_rest ([], s) (key, after) (rw (t, cut_brace) at e) in
      rw (sym same) (omega arith)
  | inr f ↦ elim (Option-cases (cut_brace s)) [
    | inl n ↦ (let e' = rw (f, n, cut_brace) at e in cc)
    | inr (pair, h) ↦
        let same = same_rest (b ∷ pair.0, pair.1) (key, after) (rw (f, h, cut_brace) at e) in
        let shorter = length-cut_brace s pair.0 pair.1 h in rw (sym same) (omega (arith, shorter))
  ]
]

cut_brace-append :
    (key rest : Text) → Lacks 125 key → cut_brace (key ++ 125 ∷ rest) ≡ some (key, rest)
unfolding cut_brace
cut_brace-append [] rest h = refl
cut_brace-append (b ∷ key) rest (f, h) =
    let e = cut_brace-append key rest h in rw (f, e, cut_brace) refl

module _ (resolve : Text → Option Text) where
  -- Enough fuel is as good as any.
  interpolate_from-enough :
      (f g : ℕ) (text : Text)
      → length text ≤ f
      → length text ≤ g
      → interpolate_from resolve f text ≡ interpolate_from resolve g text
  unfolding interpolate_from
  interpolate_from-enough zero zero text h k = refl
  interpolate_from-enough zero (suc g) [] h k = refl
  interpolate_from-enough zero (suc g) (b ∷ text) h k =
      let none_left : ⊥ = omega (arith, h) in elim none_left [ ]
  interpolate_from-enough (suc f) zero [] h k = refl
  interpolate_from-enough (suc f) zero (b ∷ text) h k =
      let none_left : ⊥ = omega (arith, k) in elim none_left [ ]
  interpolate_from-enough (suc f) (suc g) [] h k = refl
  interpolate_from-enough (suc f) (suc g) (b ∷ text) h k =
      elim (Option-cases (cut_prefix (bytes "${") (b ∷ text))) [
        | inl n ↦
            let same = interpolate_from-enough f g text (omega (arith, h)) (omega (arith, k)) in
            rw (n, interpolate_from) (ap (λ t. b ∷ t) same)
        | inr (rest, e) ↦ elim (Option-cases (cut_brace rest)) [
          | inl n ↦ rw (e, n, interpolate_from) refl
          | inr (pair, c) ↦
              let shorter = length-cut_brace rest pair.0 pair.1 c in
              let short = length-cut_prefix (bytes "${") (b ∷ text) rest e in
              let same =
                interpolate_from-enough f g pair.1 (omega (arith, h, shorter, short))
                  (omega (arith, k, shorter, short)) in
              elim (Option-cases (resolve pair.0)) [
                | inl u ↦
                    rw (e, c, u, interpolate_from) (ap (λ t. bytes "${" ++ pair.0 ++ 125 ∷ t) same)
                | inr (v, u) ↦ rw (e, c, u, interpolate_from) (ap (λ t. v ++ t) same)
              ]
        ]
      ]

  at_placeholder :
      (fuel : ℕ) (key rest : Text)
      → Lacks 125 key
      → length (bytes "${" ++ key ++ 125 ∷ rest) ≤ fuel
      → interpolate_from resolve fuel (bytes "${" ++ key ++ 125 ∷ rest)
        ≡ expansion resolve key ++ interpolate rest resolve
  unfolding interpolate_from interpolate expansion cut_prefix
  at_placeholder zero key rest l h = let none_left : ⊥ = omega (arith, h) in elim none_left [ ]
  at_placeholder (suc fuel) key rest l h =
      let c = cut_brace-append key rest l in
      let n = length-append key (125 ∷ rest) in
      let same =
        interpolate_from-enough fuel (length rest) rest (omega (arith, h, n)) (omega arith) in
      elim (Option-cases (resolve key)) [
        | inr (v, u) ↦ rw (c, u, interpolate_from, expansion) (ap (λ t. v ++ t) same)
        | inl u ↦
            rw (c, u, interpolate_from, expansion)
              (ap (λ t. bytes "${" ++ key ++ 125 ∷ t) same
                ∙ ap (λ t. bytes "${" ++ t)
                    (sym (append_assoc key (125 ∷ []) (interpolate rest resolve))))
      ]

  no_prefix : (b : ℕ) (text : Text) → (b == 36) ≡ false → cut_prefix (bytes "${") (b ∷ text) ≡ none
  unfolding cut_prefix
  no_prefix b text f = elim (Bool-cases (36 == b)) [
    | inl t ↦ (let absurd : ⊥ = ground (arith, t, f) in elim absurd [ ])
    | inr g ↦ rw (g, cut_prefix) refl
  ]

  past_plain :
      (fuel : ℕ) (plain text : Text)
      → Lacks 36 plain
      → length (plain ++ text) ≤ fuel
      → interpolate_from resolve fuel (plain ++ text) ≡ plain ++ interpolate text resolve
  unfolding interpolate_from interpolate
  past_plain fuel [] text l h = interpolate_from-enough fuel (length text) text h (omega arith)
  past_plain zero (b ∷ plain) text l h = let none_left : ⊥ = omega (arith, h) in elim none_left [ ]
  past_plain (suc fuel) (b ∷ plain) text (f, l) h =
      let n = no_prefix b (plain ++ text) f in
      let same = past_plain fuel plain text l (omega (arith, h)) in
      rw (n, interpolate_from) (ap (λ t. b ∷ t) same)

  -- A text without a `$` up to the first placeholder is kept up to there; the placeholder becomes its value, or
  -- stays as it is when its key, which has no `}`, is unknown; and the rest is interpolated by itself.
  pub interpolate-append :
      (plain key rest : Text)
      → Lacks 36 plain
      → Lacks 125 key
      → interpolate (plain ++ (bytes "${" ++ key ++ 125 ∷ rest)) resolve
        ≡ plain ++ (expansion resolve key ++ interpolate rest resolve)
  unfolding interpolate
  interpolate-append plain key rest l m =
      let text = bytes "${" ++ key ++ 125 ∷ rest in
      past_plain (length (plain ++ text)) plain text l (omega arith)
      ∙ ap (λ t. plain ++ t) (at_placeholder (length text) key rest m (omega arith))
