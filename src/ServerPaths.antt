-- ===== src/ServerPaths.antt =====
-- trie_remote/server_paths.py: the directories below the runner's root.
use remote_worktree_runner.Common.{FilePath}
use remote_worktree_runner.Prelude.{[], ◌∷◌, ◌++◌, Text, codes}

pub record ServerPaths : Type 0 where
  pub root : FilePath
  pub bin : FilePath
  pub repos : FilePath
  pub workspaces : FilePath
  pub jobs : FilePath
  pub environments : FilePath
  pub toolchains : FilePath
  pub caches : FilePath
  pub locks : FilePath

-- path / name
infixl 70 ◌//◌
abbrev pub ◌//◌ : FilePath → Text → FilePath
p // name = p ++ name ∷ []

-- `resolve` is `root.expanduser().resolve()`.
unfoldable pub from_root : (FilePath → FilePath) → FilePath → ServerPaths
from_root resolve root =
    let resolved = resolve root in
    record {
      root = resolved;
      bin = resolved // codes "bin";
      repos = resolved // codes "repos";
      workspaces = resolved // codes "workspaces";
      jobs = resolved // codes "jobs";
      environments = resolved // codes "environments";
      toolchains = resolved // codes "toolchains";
      caches = resolved // codes "caches";
      locks = resolved // codes "locks";
    }

-- str(path)
unfoldable pub path_text : FilePath → Text
path_text [] = []
path_text (c ∷ p) = (b'/' ∷ c) ++ path_text p
