-- ===== src/RunnerConfig/Tests.antt =====
-- An environment that sets the heavy jobs and two repositories.
use remote_worktree_runner.RunnerConfig.{
  positive, integer, value, repository_items, RunnerConfig, load_config,
}
use remote_worktree_runner.Common.{is_identifier, validate_identifier}
use remote_worktree_runner.Prelude.{
  refl, [], ◌∷◌, Text, codes, text_eq, split, Dict, lookup, pos, strip_left, strip_right, parse_int,
}
use remote_worktree_runner.RunnerConfig.Laws.{Usable, load_config-Usable}

abbrev environ : Dict Text
environ =
    (codes "TRIE_REMOTE_MAX_HEAVY_JOBS", codes "3")
    ∷ (codes "TRIE_REMOTE_ALLOWED_REPOSITORIES", codes "center, wiki")
    ∷ (codes "TRIE_REMOTE_ROOT", codes "/srv/remote")
    ∷ []

abbrev config : RunnerConfig
config = record {
  ssh_alias = codes "trie-docker";
  remote_root = codes "/srv/remote";
  minimum_free_gib = pos 100;
  warning_free_gib = pos 80;
  cancellation_free_gib = pos 60;
  max_heavy_jobs = 3;
  allowed_repositories = codes "center" ∷ codes "wiki" ∷ [];
}

load_config-Usable_example : Usable config
unfolding load_config repository_items split value lookup text_eq strip_right strip_left
    validate_identifier is_identifier integer parse_int positive
load_config-Usable_example = load_config-Usable environ config refl
