-- ===== src/DirLock/Exemptions/Exempt.antt =====
-- The directories that `IsExemptDir` of backend/lib/dirlock/dirlock.go exempts.
use asgard.Prelude.{
  ◌≡◌, ◌≢◌, refl, sym, ◌∙◌, ap, ◌⊎◌, inl, inr, Bool, true, false, ◌||◌, List, [], ◌∷◌, ◌++◌, Memᴰ,
  Text, bytes, text_eq, text_eq_sound, text_eq_complete, has_prefix, exists, exists-mem, mem-exists,
  ||_split, &&_split, if◌then◌else◌, ◌==◌, arith, Bool-cases,
}
use asgard.Paths.{clean}
use asgard.DirLock.Exemptions.{
  is_under, tmp_dir, sessions_dir, session_tmp_dir, session_dir, is_exempt_dir,
}

-- A path that is a root or lies below it.
abbrev pub IsUnder : Text → Text → Type 0
IsUnder root path = (path ≡ root) ⊎ ((rest : Text) × (path ≡ (root ++ bytes "/") ++ rest))

prefix-rest : (s p : Text) → has_prefix s p ≡ true → (rest : Text) × (s ≡ p ++ rest)
unfolding has_prefix
prefix-rest s [] e = (s, refl)
prefix-rest [] (b ∷ p) e = cc
prefix-rest (a ∷ s) (b ∷ p) e =
    let (here, later) = &&_split (a == b) (has_prefix s p) e in
    let (rest, f) = prefix-rest s p later in
    let same : a ≡ b = ground arith in
    (rest, ap (λ (c : _). c ∷ s) same ∙ ap (λ (x : Text). b ∷ x) f)

rest-prefix : (p rest : Text) → has_prefix (p ++ rest) p ≡ true
unfolding has_prefix
rest-prefix [] rest = refl
rest-prefix (b ∷ p) rest = ground (arith, rest-prefix p rest)

is_under_sound : (root path : Text) → is_under root path ≡ true → IsUnder root path
unfolding is_under
is_under_sound root path e =
    elim (||_split (text_eq path root) (has_prefix path (root ++ bytes "/")) e) [
      | inl t ↦ inl (text_eq_sound path root t)
      | inr t ↦ inr (prefix-rest path (root ++ bytes "/") t)
    ]

is_under_complete : (root path : Text) → IsUnder root path → is_under root path ≡ true
unfolding is_under
is_under_complete root path (inl e) = let t = text_eq_complete path root e in ground arith
is_under_complete root path (inr (rest, e)) =
    let t : has_prefix path (root ++ bytes "/") ≡ true =
      rw e (rest-prefix (root ++ bytes "/") rest) in
    ground arith

-- The tests of the code in the order of the roots.
regroup :
    (blank dot tmp in_tmp session in_session a b c d e f rest : Bool)
    → (if blank
        then true
        else if dot || tmp || session
        then true
        else if in_tmp || in_session
        then true
        else if a
        then true
        else if b
        then true
        else if c
        then true
        else if d
        then true
        else if e
        then true
        else if f
        then true
        else rest)
      ≡ (blank
          || (dot
              || ((if tmp || in_tmp
                    then true
                    else if session || in_session
                    then true
                    else if a
                    then true
                    else if b
                    then true
                    else if c
                    then true
                    else if d
                    then true
                    else if e
                    then true
                    else if f
                    then true
                    else false)
                  || rest)))
regroup true dot tmp in_tmp session in_session a b c d e f rest = refl
regroup false true tmp in_tmp session in_session a b c d e f rest = refl
regroup false false true in_tmp session in_session a b c d e f rest = refl
regroup false false false true true in_session a b c d e f rest = refl
regroup false false false true false in_session a b c d e f rest = refl
regroup false false false false true in_session a b c d e f rest = refl
regroup false false false false false true a b c d e f rest = refl
regroup false false false false false false true b c d e f rest = refl
regroup false false false false false false false true c d e f rest = refl
regroup false false false false false false false false true d e f rest = refl
regroup false false false false false false false false false true e f rest = refl
regroup false false false false false false false false false false true f rest = refl
regroup false false false false false false false false false false false true rest = refl
regroup false false false false false false false false false false false false rest = refl

regroup_chat :
    (blank a b : Bool)
    → (if blank then false else if a then true else b)
      ≡ (if blank then false else if a then true else if b then true else false)
regroup_chat true a b = refl
regroup_chat false true b = refl
regroup_chat false false true = refl
regroup_chat false false false = refl

module _ (data_dir : Text) where
  -- The directories for temporary files and for sessions.
  abbrev pub shared_roots : List Text
  shared_roots =
      bytes "/tmp"
      ∷ bytes "/session"
      ∷ bytes "/session-data/tmp"
      ∷ bytes "/session-data/sessions"
      ∷ bytes "/asgard/data/tmp"
      ∷ bytes "/asgard/data/sessions"
      ∷ clean (tmp_dir data_dir)
      ∷ clean (sessions_dir data_dir)
      ∷ []

  abbrev pub chat_roots : Text → List Text
  chat_roots chat = clean (session_tmp_dir data_dir chat) ∷ clean (session_dir data_dir chat) ∷ []

  abbrev pub IsBelow : List Text → Text → Type 0
  IsBelow roots path = (root : Text) × Memᴰ root roots × IsUnder root path

  -- No directory, the current one, or one that is a root or below it; with a chat, its own roots count too.
  abbrev pub IsExempt : Text → Text → Type 0
  IsExempt chat dir =
      (dir ≡ [])
      ⊎ (clean dir ≡ bytes ".")
      ⊎ IsBelow shared_roots (clean dir)
      ⊎ ((chat ≢ []) × IsBelow (chat_roots chat) (clean dir))

  of_chat : Text → Text → Bool
  of_chat chat path =
      if text_eq chat [] then false else exists (λ root. is_under root path) (chat_roots chat)

  exempt-flat :
      (chat dir : Text)
      → is_exempt_dir data_dir chat dir ≡ (
          text_eq dir []
          || (text_eq (clean dir) (bytes ".")
              || (exists (λ root. is_under root (clean dir)) shared_roots
                  || of_chat chat (clean dir))))
  unfolding is_exempt_dir of_chat exists is_under
  exempt-flat chat dir =
      let path = clean dir in
      let rest = of_chat chat path in
      let in_chat =
        regroup_chat (text_eq chat []) (is_under (clean (session_tmp_dir data_dir chat)) path)
          (is_under (clean (session_dir data_dir chat)) path) in
      let all =
        regroup (text_eq dir []) (text_eq path (bytes ".")) (text_eq path (bytes "/tmp"))
          (has_prefix path (bytes "/tmp/")) (text_eq path (bytes "/session"))
          (has_prefix path (bytes "/session/")) (is_under (bytes "/session-data/tmp") path)
          (is_under (bytes "/session-data/sessions") path)
          (is_under (bytes "/asgard/data/tmp") path) (is_under (bytes "/asgard/data/sessions") path)
          (is_under (clean (tmp_dir data_dir)) path) (is_under (clean (sessions_dir data_dir)) path)
          rest in
      rw in_chat all

  IsBelow-sound :
      (roots : List Text) (path : Text)
      → exists (λ root. is_under root path) roots ≡ true
      → IsBelow roots path
  IsBelow-sound roots path e =
      let (root, i, h) = exists-mem (λ root. is_under root path) roots e in
      (root, i, is_under_sound root path h)

  IsBelow-complete :
      (roots : List Text) (path : Text)
      → IsBelow roots path
      → exists (λ root. is_under root path) roots ≡ true
  IsBelow-complete roots path (root, i, u) =
      mem-exists (λ root. is_under root path) roots i (is_under_complete root path u)

  of_chat_sound :
      (chat path : Text) → of_chat chat path ≡ true → (chat ≢ []) × IsBelow (chat_roots chat) path
  unfolding of_chat
  of_chat_sound chat path e = elim (Bool-cases (text_eq chat [])) [
    | inl blank ↦ (let e' = rw (blank, of_chat) at e in cc)
    | inr named ↦ (
      λ z. (let t = text_eq_complete chat [] z in cc),
      IsBelow-sound (chat_roots chat) path (rw (named, of_chat) at e),
    )
  ]

  of_chat_complete :
      (chat path : Text) → chat ≢ [] → IsBelow (chat_roots chat) path → of_chat chat path ≡ true
  unfolding of_chat
  of_chat_complete chat path full below = elim (Bool-cases (text_eq chat [])) [
    | inl blank ↦ absurd (full (text_eq_sound chat [] blank))
    | inr named ↦ rw (named, of_chat) (IsBelow-complete (chat_roots chat) path below)
  ]

  IsExempt-sound : (chat dir : Text) → is_exempt_dir data_dir chat dir ≡ true → IsExempt chat dir
  IsExempt-sound chat dir e =
      let path = clean dir in
      let shared = exists (λ root. is_under root path) shared_roots in
      let rest = shared || of_chat chat path in
      elim (||_split (text_eq dir []) (text_eq path (bytes ".") || rest)
        (sym (exempt-flat chat dir) ∙ e)) [
          | inl a ↦ inl (text_eq_sound dir [] a)
          | inr e1 ↦ elim (||_split (text_eq path (bytes ".")) rest e1) [
            | inl a ↦ inr (inl (text_eq_sound path (bytes ".") a))
            | inr e2 ↦ elim (||_split shared (of_chat chat path) e2) [
              | inl a ↦ inr (inr (inl (IsBelow-sound shared_roots path a)))
              | inr a ↦ inr (inr (inr (of_chat_sound chat path a)))
            ]
          ]
        ]

  IsExempt-complete : (chat dir : Text) → IsExempt chat dir → is_exempt_dir data_dir chat dir ≡ true
  IsExempt-complete chat dir (inl e) =
      let t = text_eq_complete dir [] e in exempt-flat chat dir ∙ ground arith
  IsExempt-complete chat dir (inr (inl e)) =
      let t = text_eq_complete (clean dir) (bytes ".") e in exempt-flat chat dir ∙ ground arith
  IsExempt-complete chat dir (inr (inr (inl b))) =
      let t = IsBelow-complete shared_roots (clean dir) b in exempt-flat chat dir ∙ ground arith
  IsExempt-complete chat dir (inr (inr (inr (full, b)))) =
      let t = of_chat_complete chat (clean dir) full b in exempt-flat chat dir ∙ ground arith

  pub not-IsExempt :
      (chat dir : Text) → is_exempt_dir data_dir chat dir ≡ false → ¬ IsExempt chat dir
  not-IsExempt chat dir n x = let e = IsExempt-complete chat dir x in cc

  pub is_exempt_dir-false :
      (chat dir : Text) → ¬ IsExempt chat dir → is_exempt_dir data_dir chat dir ≡ false
  is_exempt_dir-false chat dir n = elim (Bool-cases (is_exempt_dir data_dir chat dir)) [
    | inl e ↦ absurd (n (IsExempt-sound chat dir e))
    | inr e ↦ e
  ]
