-- ===== src/DirLock/Exemptions/Origins.antt =====
-- Which directories `ComputeLockedDirs` of backend/lib/dirlock/dirlock.go returns.
use asgard.Prelude.Memᴰ
use asgard.Prelude.{
  ◌≡◌, refl, ◌∙◌, ap, sym, ◌⊎◌, ◌↔◌, inl, inr, true, false, List, [], ◌∷◌, Memᴰ, Option, none, some,
  Text, text_eq, if◌then◌else◌, arith, Bool-cases,
}
use asgard.Paths.{clean}
use asgard.DirLock.Dirs.{sort, compact, mem-sort, mem-compact, sort-mem, compact-mem}
use asgard.DirLock.Exemptions.Exempt.{IsExempt, not-IsExempt, is_exempt_dir-false}
use asgard.DirLock.Exemptions.{
  Mount, Config, lockable, is_exempt_dir, mounted_dirs, compute_locked_dirs,
}

module _ (data_dir : Text) where
  abbrev MountSource : Text → List Mount → Text → Type 0
  MountSource chat es d =
      (e : Mount) × Memᴰ e es
      × (e.masked ≡ false)
      × (d ≡ clean e.path)
      × (is_exempt_dir data_dir chat e.path ≡ false)

  -- Where a locked directory comes from, by the test of the code.
  abbrev Source : Text → Text → Option Config → Text → Type 0
  Source chat run_dir cfg d =
      ((d ≡ clean run_dir) × (is_exempt_dir data_dir chat run_dir ≡ false))
      ⊎ ((c : Config) × (cfg ≡ some c) × (c.is_read_only ≡ false) × MountSource chat c.mounts d)

  none-some : {c : Config} → none ≡ some c → ⊥
  none-some e = cc

  blank-exempt : (chat dir : Text) → text_eq dir [] ≡ true → is_exempt_dir data_dir chat dir ≡ true
  unfolding is_exempt_dir
  blank-exempt chat dir blank = rw (blank, is_exempt_dir) refl

  lockable_of :
      (chat dir : Text)
      → is_exempt_dir data_dir chat dir ≡ false
      → lockable data_dir chat dir ≡ true
  lockable_of chat dir n = elim (Bool-cases (text_eq dir [])) [
    | inl blank ↦ (let e = blank-exempt chat dir blank in cc)
    | inr named ↦ rw (named, n) refl
  ]

  mem-own :
      (chat run_dir : Text) {d : Text}
      → Memᴰ d (if lockable data_dir chat run_dir then clean run_dir ∷ [] else [])
      → (d ≡ clean run_dir) × (is_exempt_dir data_dir chat run_dir ≡ false)
  mem-own chat run_dir i = elim (Bool-cases (lockable data_dir chat run_dir)) [
    | inl l ↦ (Memᴰ.eq_of_singleton (rw l at i), ground arith)
    | inr n ↦ absurd (Memᴰ.not-nil (rw n at i))
  ]

  MountSource-tail :
      (chat : Text) (e : Mount) (es : List Mount) {d : Text}
      → MountSource chat es d
      → MountSource chat (e ∷ es) d
  MountSource-tail chat e es (x, i, m, c, n) = (x, Memᴰ.tail i, m, c, n)

  mem-mounted_dirs :
      (chat : Text) (es : List Mount) {d : Text}
      → Memᴰ d (mounted_dirs data_dir chat es)
      → MountSource chat es d
  unfolding mounted_dirs
  mem-mounted_dirs chat [] i = elim i [ ]
  mem-mounted_dirs chat (e ∷ es) i = elim (Bool-cases e.masked) [
    | inl m ↦ MountSource-tail chat e es (mem-mounted_dirs chat es (rw (m, mounted_dirs) at i))
    | inr u ↦ elim (Bool-cases (lockable data_dir chat e.path)) [
      | inr n ↦ MountSource-tail chat e es (mem-mounted_dirs chat es (rw (u, n, mounted_dirs) at i))
      | inl l ↦ elim (Memᴰ.cases_cons (rw (u, l, mounted_dirs) at i)) [
        | inl here ↦ (e, Memᴰ.head refl, u, here, ground arith)
        | inr there ↦ MountSource-tail chat e es (mem-mounted_dirs chat es there)
      ]
    ]
  ]

  mem-compact-sort : (ds : List Text) {d : Text} → Memᴰ d (compact (sort ds)) → Memᴰ d ds
  mem-compact-sort ds i = mem-sort ds (mem-compact (sort ds) i)

  own-mem :
      (chat run_dir : Text) {d : Text}
      → d ≡ clean run_dir
      → is_exempt_dir data_dir chat run_dir ≡ false
      → Memᴰ d (if lockable data_dir chat run_dir then clean run_dir ∷ [] else [])
  own-mem chat run_dir e n = let l = lockable_of chat run_dir n in rw l (Memᴰ.head e)

  mounted_dirs-mem :
      (chat : Text) (es : List Mount) {d : Text}
      → MountSource chat es d
      → Memᴰ d (mounted_dirs data_dir chat es)
  unfolding mounted_dirs
  mounted_dirs-mem chat [] (x, i, m, c, n) = elim i [ ]
  mounted_dirs-mem chat (e ∷ es) (x, Memᴰ.head same, m, c, n) =
      let m' : e.masked ≡ false = sym (ap (λ (y : Mount). y.masked) same) ∙ m in
      let n' : is_exempt_dir data_dir chat e.path ≡ false =
        sym (ap (λ (y : Mount). is_exempt_dir data_dir chat y.path) same) ∙ n in
      let l = lockable_of chat e.path n' in
      rw (m', l, mounted_dirs) (Memᴰ.head (c ∙ ap (λ (y : Mount). clean y.path) same))
  mounted_dirs-mem chat (e ∷ es) (x, Memᴰ.tail i, m, c, n) =
      let rest = mounted_dirs-mem chat es (x, i, m, c, n) in
      elim (Bool-cases e.masked) [
        | inl masked ↦ rw (masked, mounted_dirs) rest
        | inr plain ↦ elim (Bool-cases (lockable data_dir chat e.path)) [
          | inl l ↦ rw (plain, l, mounted_dirs) (Memᴰ.tail rest)
          | inr l ↦ rw (plain, l, mounted_dirs) rest
        ]
      ]

  compact-sort-mem : (ds : List Text) {d : Text} → Memᴰ d ds → Memᴰ d (compact (sort ds))
  compact-sort-mem ds i = compact-mem (sort ds) (sort-mem ds i)

  mem-locked :
      (chat run_dir : Text) (cfg : Option Config) {d : Text}
      → Memᴰ d (compute_locked_dirs data_dir chat run_dir cfg).0
      → Source chat run_dir cfg d
  unfolding compute_locked_dirs
  mem-locked chat run_dir none i = inl (mem-own chat run_dir (mem-compact-sort _ i))
  mem-locked chat run_dir (some c) i = elim (Bool-cases c.is_read_only) [
    | inl r ↦ inl (mem-own chat run_dir (mem-compact-sort _ (rw (r, compute_locked_dirs) at i)))
    | inr w ↦
        let own = if lockable data_dir chat run_dir then clean run_dir ∷ [] else [] in
        elim (Memᴰ.append_cases own (mem-compact-sort _ (rw (w, compute_locked_dirs) at i))) [
          | inl l ↦ inl (mem-own chat run_dir l)
          | inr r ↦ inr (c, refl, w, mem-mounted_dirs chat c.mounts r)
        ]
  ]

  locked-mem :
      (chat run_dir : Text) (cfg : Option Config) {d : Text}
      → Source chat run_dir cfg d
      → Memᴰ d (compute_locked_dirs data_dir chat run_dir cfg).0
  unfolding compute_locked_dirs
  locked-mem chat run_dir none (inl (e, n)) = compact-sort-mem _ (own-mem chat run_dir e n)
  locked-mem chat run_dir none (inr (c, e, w, m)) = absurd (none-some e)
  locked-mem chat run_dir (some c) (inl (e, n)) = elim (Bool-cases c.is_read_only) [
    | inl r ↦ rw (r, compute_locked_dirs) (compact-sort-mem _ (own-mem chat run_dir e n))
    | inr w ↦
        rw (w, compute_locked_dirs)
          (compact-sort-mem _ (Memᴰ.append_left _ (own-mem chat run_dir e n)))
  ]
  locked-mem chat run_dir (some c) (inr (x, e, w, m)) =
      let same : c ≡ x = cc in
      let w' : c.is_read_only ≡ false = ap (λ (y : Config). y.is_read_only) same ∙ w in
      rw (w', compute_locked_dirs)
        (compact-sort-mem _ (Memᴰ.append_right _ (mounted_dirs-mem chat c.mounts (rw same m))))

  -- Where a locked directory comes from: the run directory, or a mount that is locked.
  abbrev pub Origin : Text → Text → Option Config → Text → Type 0
  Origin chat run_dir cfg d =
      ((d ≡ clean run_dir) × (¬ IsExempt data_dir chat run_dir))
      ⊎ ((c : Config) × (e : Mount) × (cfg ≡ some c)
          × (c.is_read_only ≡ false)
          × Memᴰ e c.mounts
          × (e.masked ≡ false)
          × (d ≡ clean e.path)
          × (¬ IsExempt data_dir chat e.path))

  Source-Origin :
      (chat run_dir : Text) (cfg : Option Config) {d : Text}
      → Source chat run_dir cfg d
      → Origin chat run_dir cfg d
  Source-Origin chat run_dir cfg (inl (e, n)) = inl (e, not-IsExempt data_dir chat run_dir n)
  Source-Origin chat run_dir cfg (inr (c, e, w, (x, i, m, p, n))) =
      inr (c, x, e, w, i, m, p, not-IsExempt data_dir chat x.path n)

  Origin-Source :
      (chat run_dir : Text) (cfg : Option Config) {d : Text}
      → Origin chat run_dir cfg d
      → Source chat run_dir cfg d
  Origin-Source chat run_dir cfg (inl (e, n)) = inl (e, is_exempt_dir-false data_dir chat run_dir n)
  Origin-Source chat run_dir cfg (inr (c, x, e, w, i, m, p, n)) =
      inr (c, e, w, (x, i, m, p, is_exempt_dir-false data_dir chat x.path n))

-- A directory is among those that `ComputeLockedDirs` returns exactly if it is the cleaned run directory, and
-- that one is not exempt, or it is the cleaned path of a read-write mount without mask rules that is not
-- exempt, and the agent's configuration is there and not read-only. Exempt are the empty path, the current
-- directory, and what is or lies below /tmp, /session, their like under /session-data and /asgard/data, the
-- runner's own directories for temporary files and sessions and, if there is a chat, the chat's own.
pub mem-compute_locked_dirs_iff :
    (data_dir chat run_dir : Text) (cfg : Option Config) (d : Text)
    → Memᴰ d (compute_locked_dirs data_dir chat run_dir cfg).0 ↔ Origin data_dir chat run_dir cfg d
mem-compute_locked_dirs_iff data_dir chat run_dir cfg d = (
  λ i. Source-Origin data_dir chat run_dir cfg (mem-locked data_dir chat run_dir cfg i),
  λ o. locked-mem data_dir chat run_dir cfg (Origin-Source data_dir chat run_dir cfg o),
)
