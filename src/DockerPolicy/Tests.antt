-- ===== src/DockerPolicy/Tests.antt =====
-- Docker commands with concrete options.
use remote_worktree_runner.DockerPolicy.{is_option, validate_docker_arguments}
use remote_worktree_runner.Prelude.{
  ◌∷◌, [], ◌≡◌, refl, Text, codes, text_eq, one_of, starts_with, err,
}
use remote_worktree_runner.DockerPolicy.Options.{
  GlobalOptions, single, valued, end, system_prune, options_hide_nothing,
}
use remote_worktree_runner.Errors.{docker_policy}

abbrev builder : Text
builder = codes "trie-center-1"

options : GlobalOptions (codes "--context" ∷ codes "default" ∷ codes "--debug" ∷ [])
unfolding one_of text_eq is_option starts_with
options = valued (codes "--context") (codes "default") refl (single (codes "--debug") refl refl end)

options_hide_nothing_example :
    validate_docker_arguments
      (codes "--context" ∷ codes "default" ∷ codes "--debug" ∷ codes "system" ∷ codes "prune" ∷ [])
      builder
    ≡ err docker_policy
options_hide_nothing_example =
    (options_hide_nothing [] builder options).0 (codes "system") (codes "prune") system_prune
