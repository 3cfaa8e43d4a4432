-- ===== src/DirLock/Exemptions.antt =====
-- `IsExemptDir` and `ComputeLockedDirs` of backend/lib/dirlock/dirlock.go. The data root of the runner comes
-- from its environment (pkg/paths/runner/runner.go, `DataDir`): it is the parameter `data_dir`. The agent's
-- configuration enters by what the code reads of it: its lock mode, and the entries that
-- `MountDirs.EffectiveReadWriteEntries` returns.
pub mod Exempt
pub mod Origins
use asgard.Prelude.{
  ◌≡◌, refl, ◌∙◌, ap, sym, ◌⊎◌, inl, inr, Bool, true, false, not, ◌&&◌, ◌||◌, List, [], ◌∷◌, ◌++◌,
  Memᴰ, Option, none, some, Text, bytes, text_eq, has_prefix, if◌then◌else◌, length, ◌==◌, arith,
  Bool-cases, subst,
}
use asgard.Paths.{clean, join_path}
use asgard.DirLock.State.{Mode, exclusive, readonly}
use asgard.DirLock.Dirs.{sort, compact, mem-sort, mem-compact}

-- `clean == root || strings.HasPrefix(clean, root+"/")`
unfoldable pub is_under : Text → Text → Bool
is_under root path = text_eq path root || has_prefix path (root ++ bytes "/")

-- An entry of the mounts: `masked` if it has mask rules.
pub record Mount : Type 0 where
  pub path : Text
  pub masked : Bool

pub record Config : Type 0 where
  pub is_read_only : Bool
  pub mounts : List Mount

module _ (data_dir : Text) where
  -- `TmpDir`, `SessionsDir`, `SessionTmpDir` and `SessionDir` of pkg/paths/runner/runner.go.
  unfoldable pub tmp_dir : Text
  tmp_dir = join_path data_dir (bytes "tmp")

  unfoldable pub sessions_dir : Text
  sessions_dir = join_path data_dir (bytes "sessions")

  unfoldable pub session_tmp_dir : Text → Text
  session_tmp_dir chat = join_path tmp_dir chat

  unfoldable pub session_dir : Text → Text
  session_dir chat = join_path sessions_dir chat

  unfoldable pub is_exempt_dir : Text → Text → Bool
  is_exempt_dir chat dir =
      let path = clean dir in
      if text_eq dir []
      then true
      else if text_eq path (bytes ".")
          || text_eq path (bytes "/tmp")
          || text_eq path (bytes "/session")
      then true
      else if has_prefix path (bytes "/tmp/") || has_prefix path (bytes "/session/")
      then true
      else if is_under (bytes "/session-data/tmp") path
      then true
      else if is_under (bytes "/session-data/sessions") path
      then true
      else if is_under (bytes "/asgard/data/tmp") path
      then true
      else if is_under (bytes "/asgard/data/sessions") path
      then true
      else if is_under (clean tmp_dir) path
      then true
      else if is_under (clean sessions_dir) path
      then true
      else if text_eq chat []
      then false
      else if is_under (clean (session_tmp_dir chat)) path
      then true
      else is_under (clean (session_dir chat)) path

  abbrev pub lockable : Text → Text → Bool
  lockable chat dir = not (text_eq dir []) && not (is_exempt_dir chat dir)

  unfoldable pub mounted_dirs : Text → List Mount → List Text
  mounted_dirs chat [] = []
  mounted_dirs chat (e ∷ es) =
      let rest = mounted_dirs chat es in
      if e.masked then rest else if lockable chat e.path then clean e.path ∷ rest else rest

  -- `ComputeLockedDirs`; a nil configuration is `none`.
  unfoldable pub compute_locked_dirs : Text → Text → Option Config → List Text × Mode
  compute_locked_dirs chat run_dir cfg =
      let own = if lockable chat run_dir then clean run_dir ∷ [] else [] in
      elim cfg [
        | none ↦ (compact (sort own), exclusive)
        | some c ↦
            if c.is_read_only
            then (compact (sort own), readonly)
            else (compact (sort (own ++ mounted_dirs chat c.mounts)), exclusive)
      ]
