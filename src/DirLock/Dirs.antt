-- ===== src/DirLock/Dirs.antt =====
-- Lists of directories: `slices.Sort`, `slices.Compact`, `slices.Contains`, and the loops over them in
-- backend/lib/dirlock/dirlock.go.
use asgard.Prelude.Memᴰ
use asgard.Prelude.{
  ◌≡◌, ◌∙◌, sym, Bool, true, List, [], ◌∷◌, ◌++◌, map, Memᴰ, Text, text_eq, text_lt, text_eq_sound,
  if◌then◌else◌, exists, exists-mem, keep_if, not, Bool-cases, inl, inr, ◌⊎◌,
}
use asgard.Paths.{clean}

unfoldable pub insert_sorted : Text → List Text → List Text
insert_sorted d [] = d ∷ []
insert_sorted d (e ∷ ds) = if text_lt e d then e ∷ insert_sorted d ds else d ∷ e ∷ ds

-- `slices.Sort`
unfoldable pub sort : List Text → List Text
unfolding insert_sorted
sort [] = []
sort (d ∷ ds) = insert_sorted d (sort ds)

unfoldable pub compact_from : Text → List Text → List Text
compact_from d [] = d ∷ []
compact_from d (e ∷ ds) = if text_eq d e then compact_from d ds else d ∷ compact_from e ds

-- `slices.Compact`: one of each run of equal strings.
unfoldable pub compact : List Text → List Text
unfolding compact_from
compact [] = []
compact (d ∷ ds) = compact_from d ds

-- `slices.Contains`
unfoldable pub contains : List Text → Text → Bool
contains ds d = exists (λ e. text_eq e d) ds

-- The loop that appends the directories that are missing.
unfoldable pub add_missing : List Text → List Text → List Text
add_missing held [] = held
add_missing held (d ∷ ds) = add_missing (if contains held d then held else held ++ d ∷ []) ds

-- The first loop of `Acquire`, with the sort behind it.
unfoldable pub clean_dirs : List Text → List Text
unfolding sort compact
clean_dirs ds = compact (sort (map clean (keep_if (λ d. not (text_eq d [])) ds)))

module _ {a : Text} where
  mem-insert_sorted : (d : Text) (ds : List Text) → Memᴰ a (insert_sorted d ds) → Memᴰ a (d ∷ ds)
  unfolding insert_sorted
  mem-insert_sorted d [] i = i
  mem-insert_sorted d (e ∷ ds) i = elim (Bool-cases (text_lt e d)) [
    | inl less ↦ elim (Memᴰ.cases_cons (rw (less, insert_sorted) at i)) [
      | inl here ↦ Memᴰ.tail (Memᴰ.head here)
      | inr there ↦ elim (Memᴰ.cases_cons (mem-insert_sorted d ds there)) [
        | inl new ↦ Memᴰ.head new
        | inr old ↦ Memᴰ.tail (Memᴰ.tail old)
      ]
    ]
    | inr more ↦ rw (more, insert_sorted) at i
  ]

  insert_sorted-mem : (d : Text) (ds : List Text) → Memᴰ a (d ∷ ds) → Memᴰ a (insert_sorted d ds)
  unfolding insert_sorted
  insert_sorted-mem d [] i = i
  insert_sorted-mem d (e ∷ ds) i = elim (Bool-cases (text_lt e d)) [
    | inl less ↦
        rw (less, insert_sorted)
          (elim (Memᴰ.cases_cons i) [
            | inl new ↦ Memᴰ.tail (insert_sorted-mem d ds (Memᴰ.head new))
            | inr old ↦ elim (Memᴰ.cases_cons old) [
              | inl here ↦ Memᴰ.head here
              | inr there ↦ Memᴰ.tail (insert_sorted-mem d ds (Memᴰ.tail there))
            ]
          ])
    | inr more ↦ rw (more, insert_sorted) i
  ]

  pub mem-sort : (ds : List Text) → Memᴰ a (sort ds) → Memᴰ a ds
  unfolding sort
  mem-sort [] i = i
  mem-sort (d ∷ ds) i = elim (Memᴰ.cases_cons (mem-insert_sorted d (sort ds) i)) [
    | inl here ↦ Memᴰ.head here
    | inr there ↦ Memᴰ.tail (mem-sort ds there)
  ]

  pub sort-mem : (ds : List Text) → Memᴰ a ds → Memᴰ a (sort ds)
  unfolding sort
  sort-mem [] i = i
  sort-mem (d ∷ ds) i = insert_sorted-mem d (sort ds) (elim (Memᴰ.cases_cons i) [
    | inl here ↦ Memᴰ.head here
    | inr there ↦ Memᴰ.tail (sort-mem ds there)
  ])

  mem-compact_from : (d : Text) (ds : List Text) → Memᴰ a (compact_from d ds) → Memᴰ a (d ∷ ds)
  unfolding compact_from
  mem-compact_from d [] i = i
  mem-compact_from d (e ∷ ds) i = elim (Bool-cases (text_eq d e)) [
    | inl same ↦ elim (Memᴰ.cases_cons (mem-compact_from d ds (rw (same, compact_from) at i))) [
      | inl here ↦ Memᴰ.head here
      | inr there ↦ Memᴰ.tail (Memᴰ.tail there)
    ]
    | inr differs ↦ elim (Memᴰ.cases_cons (rw (differs, compact_from) at i)) [
      | inl here ↦ Memᴰ.head here
      | inr there ↦ Memᴰ.tail (mem-compact_from e ds there)
    ]
  ]

  compact_from-mem : (d : Text) (ds : List Text) → Memᴰ a (d ∷ ds) → Memᴰ a (compact_from d ds)
  unfolding compact_from
  compact_from-mem d [] i = i
  compact_from-mem d (e ∷ ds) i = elim (Bool-cases (text_eq d e)) [
    | inl same ↦
        rw (same, compact_from)
          (compact_from-mem d ds (elim (Memᴰ.cases_cons i) [
            | inl here ↦ Memᴰ.head here
            | inr later ↦ elim (Memᴰ.cases_cons later) [
              | inl second ↦ Memᴰ.head (second ∙ sym (text_eq_sound d e same))
              | inr there ↦ Memᴰ.tail there
            ]
          ]))
    | inr differs ↦
        rw (differs, compact_from)
          (elim (Memᴰ.cases_cons i) [
            | inl here ↦ Memᴰ.head here
            | inr later ↦ Memᴰ.tail (compact_from-mem e ds later)
          ])
  ]

  pub mem-compact : (ds : List Text) → Memᴰ a (compact ds) → Memᴰ a ds
  unfolding compact
  mem-compact [] i = i
  mem-compact (d ∷ ds) i = mem-compact_from d ds i

  pub compact-mem : (ds : List Text) → Memᴰ a ds → Memᴰ a (compact ds)
  unfolding compact
  compact-mem [] i = i
  compact-mem (d ∷ ds) i = compact_from-mem d ds i

  -- What the loop leaves was held or is asked for.
  pub mem-add_missing :
      (held ds : List Text) → Memᴰ a (add_missing held ds) → Memᴰ a held ⊎ Memᴰ a ds
  unfolding add_missing
  mem-add_missing held [] i = inl i
  mem-add_missing held (d ∷ ds) i = elim (Bool-cases (contains held d)) [
    | inl old ↦ elim (mem-add_missing held ds (rw (old, add_missing) at i)) [
      | inl l ↦ inl l
      | inr r ↦ inr (Memᴰ.tail r)
    ]
    | inr new ↦ elim (mem-add_missing (held ++ d ∷ []) ds (rw (new, add_missing) at i)) [
      | inl l ↦ elim (Memᴰ.append_cases held l) [
        | inl l' ↦ inl l'
        | inr r' ↦ inr (Memᴰ.head (Memᴰ.eq_of_singleton r'))
      ]
      | inr r ↦ inr (Memᴰ.tail r)
    ]
  ]

  -- What was held stays.
  pub add_missing-mem : (held ds : List Text) → Memᴰ a held → Memᴰ a (add_missing held ds)
  unfolding add_missing
  add_missing-mem held [] i = i
  add_missing-mem held (d ∷ ds) i = elim (Bool-cases (contains held d)) [
    | inl old ↦ rw (old, add_missing) (add_missing-mem held ds i)
    | inr new ↦
        rw (new, add_missing) (add_missing-mem (held ++ d ∷ []) ds (Memᴰ.append_left (d ∷ []) i))
  ]

  contains-mem : (ds : List Text) (d : Text) → contains ds d ≡ true → a ≡ d → Memᴰ a ds
  unfolding contains
  contains-mem ds d h e =
      let (f, i, q) = exists-mem (λ f. text_eq f d) ds h in
      Memᴰ.cast (e ∙ sym (text_eq_sound f d q)) i

  placed :
      (held : List Text) (d : Text)
      → a ≡ d
      → Memᴰ a (if contains held d then held else held ++ d ∷ [])
  placed held d e = elim (Bool-cases (contains held d)) [
    | inl old ↦ rw old (contains-mem held d old e)
    | inr new ↦ rw new (Memᴰ.append_right held (Memᴰ.head e))
  ]

  -- What is asked for is there.
  pub add_missing-mem_new : (held ds : List Text) → Memᴰ a ds → Memᴰ a (add_missing held ds)
  unfolding add_missing
  add_missing-mem_new held [] i = elim i [ ]
  add_missing-mem_new held (d ∷ ds) i = elim (Memᴰ.cases_cons i) [
    | inl e ↦
        add_missing-mem (if contains held d then held else held ++ d ∷ []) ds (placed held d e)
    | inr j ↦ add_missing-mem_new (if contains held d then held else held ++ d ∷ []) ds j
  ]
