-- ===== src/Repository.antt =====
-- trie_remote/repository.py: the local worktree that is to be transferred.
use remote_worktree_runner.Prelude.{
  Bool, true, false, Option, none, some, List, [], ◌∷◌, ◌++◌, if◌then◌else◌, Text, codes, text_eq,
  one_of, starts_with, Result, ok, err, ◌>>=◌, ◌>>◌, require, ℤ, strip, remove_suffix,
}
use remote_worktree_runner.Errors.{Error, process_failed, repository_not_allowed}
use remote_worktree_runner.Common.{FilePath}
use remote_worktree_runner.Overlay.{parent_names, last_name}

pub record RepositoryState : Type 0 where
  pub name : Text
  pub root : FilePath
  pub git_common_dir : FilePath
  pub commit : Text
  pub branch : Option Text
  pub dirty : Bool

-- Git and the file system of the local machine. `run_git` is the standard output of a command in a
-- directory, or the exit code that makes it a CalledProcessError; `path_of` is `Path` of a text.
pub record Checkout : Type 0 where
  pub run_git : FilePath → List Text → Result ℤ Text
  pub is_dir : FilePath → Bool
  pub resolve : FilePath → FilePath
  pub path_of : Text → FilePath

module _ (checkout : Checkout) where
  -- _git
  unfoldable pub git_output : FilePath → List Text → Result Error Text
  git_output cwd arguments = elim (checkout.run_git cwd arguments) [
    | err code ↦ err (process_failed code)
    | ok output ↦ ok (strip output)
  ]

  abbrev pub common_place : FilePath → Text → FilePath
  common_place root value =
      if starts_with value (codes "/")
      then checkout.path_of value
      else root ++ checkout.path_of value

  -- The directory that carries the repository's name.
  abbrev pub repository_root : FilePath → FilePath
  repository_root common =
      if text_eq (last_name common) (codes ".git") then parent_names common else common

  abbrev pub nonempty_text : Text → Option Text
  nonempty_text [] = none
  nonempty_text (c ∷ s) = some (c ∷ s)

  abbrev pub is_some_text : Text → Bool
  is_some_text [] = false
  is_some_text (c ∷ s) = true

  -- RepositoryState.discover
  unfoldable pub discover : FilePath → List Text → Result Error RepositoryState
  unfolding git_output
  discover cwd allowed_repositories = do
    top ←
        git_output (if checkout.is_dir cwd then cwd else parent_names cwd)
          (codes "rev-parse" ∷ codes "--show-toplevel" ∷ [])
    let root = checkout.resolve (checkout.path_of top)
    common ← git_output root (codes "rev-parse" ∷ codes "--git-common-dir" ∷ [])
    let git_common_dir = checkout.resolve (common_place root common)
    let name = remove_suffix (codes ".git") (last_name (repository_root git_common_dir))
    require (one_of name allowed_repositories) repository_not_allowed
    branch ← git_output root (codes "branch" ∷ codes "--show-current" ∷ [])
    commit ← git_output root (codes "rev-parse" ∷ codes "HEAD" ∷ [])
    changes ← git_output root (codes "status" ∷ codes "--porcelain=v1" ∷ [])
    ok (record {
      name = name;
      root = root;
      git_common_dir = git_common_dir;
      commit = commit;
      branch = nonempty_text branch;
      dirty = is_some_text changes;
    })
