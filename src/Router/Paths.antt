-- ===== src/Router/Paths.antt =====
-- router.go: resolveWorkspacePath, normalizeSandboxCopyPath, normalizeSandboxCodePath and
-- isPathWithinAnyMount. The calls of path/filepath are those of `Files`.
use sleigh.Prelude.{
  Text, Bool, false, not, ◌||◌, List, [], ◌∷◌, ◌++◌, codes, trim_space, has_prefix, ◌==◌,
  if◌then◌else◌,
}
use sleigh.Errors.{Result, ok, err, failure}
use sleigh.Service.Types.{MountSpec}
use sleigh.Service.Mounts.{Files, is_path_within_root}

-- strings.TrimPrefix(s, "/")
abbrev pub trim_slash : Text → Text
trim_slash [] = []
trim_slash (c ∷ s) = if (c ∷ []) == codes "/" then s else c ∷ s

abbrev is_kernel_path : Text → Bool
is_kernel_path path =
    has_prefix path (codes "/proc")
    || has_prefix path (codes "/sys")
    || has_prefix path (codes "/dev")

module _ (files : Files) where
  -- filepath.Join(root, rest), for texts that are not empty.
  abbrev pub join_path : Text → Text → Text
  join_path root rest = files.clean (root ++ codes "/" ++ rest)

  abbrev pub relative : Text → Text
  relative path = if files.is_abs path then trim_slash path else path

  abbrev below : Text → Text → Result Text
  below root rest =
      if rest == codes "." || rest == []
      then ok root
      else if rest == codes ".." || has_prefix rest (codes "../")
      then err (failure (codes "workspace_path cannot escape allowed root"))
      else if not (is_path_within_root files (join_path root rest) root)
      then err (failure (codes "workspace_path is outside allowed host root"))
      else ok (join_path root rest)

  unfoldable pub resolve_workspace_path : Text → Text → Result Text
  unfolding is_path_within_root
  resolve_workspace_path allowed_root workspace_path =
      let root = trim_space allowed_root in
      let raw = trim_space workspace_path in
      if root == [] || not (files.is_abs root)
      then err (failure (codes "server allowed root is invalid"))
      else if raw == []
      then err (failure (codes "workspace_path is required"))
      else below root (relative (files.clean raw))

  unfoldable pub normalize_sandbox_copy_path : Text → Result Text
  normalize_sandbox_copy_path raw =
      let path = trim_space raw in
      if path == []
      then err (failure (codes "sandbox_path is required"))
      else if not (files.is_abs path)
      then err (failure (codes "sandbox_path must be an absolute path inside sandbox"))
      else if files.clean path == codes "/"
      then err (failure (codes "sandbox_path cannot be root"))
      else if is_kernel_path (files.clean path)
      then err (failure (codes "sandbox_path is not writable"))
      else ok (files.clean path)

  unfoldable pub normalize_sandbox_code_path : Text → Result Text
  normalize_sandbox_code_path raw =
      let path = files.clean (trim_space raw) in
      if path == codes "." || path == []
      then err (failure (codes "sandbox_path is required"))
      else if not (files.is_abs path)
      then err (failure (codes "sandbox_path must be an absolute file path inside sandbox"))
      else if path == codes "/"
      then err (failure (codes "sandbox_path cannot be root"))
      else if is_kernel_path path
      then err (failure (codes "sandbox_path is not writable"))
      else ok path

  unfoldable pub is_path_within_any_mount : Text → List MountSpec → Bool
  unfolding is_path_within_root
  is_path_within_any_mount path [] = false
  is_path_within_any_mount path (mount ∷ mounts) =
      is_path_within_root files path mount.host_path || is_path_within_any_mount path mounts
