-- ===== src/LocalCli/Requested.antt =====
-- trie_remote/local_cli.py: the arguments that `main` makes of the command line of `run`.
use remote_worktree_runner.Prelude.{
  true, false, Option, List, [], ◌∷◌, Text, codes, text_eq, Result, ok, ◌>>=◌,
}
use remote_worktree_runner.Errors.{Error}
use remote_worktree_runner.Common.{FilePath}
use remote_worktree_runner.RunnerConfig.{RunnerConfig}
use remote_worktree_runner.LocalCli.{parse_includes, resolve_workload_weight}
use remote_worktree_runner.LocalCli.Plan.{Request}

-- The parsed command line of `run`; `primary` is the current directory.
pub record RunArguments : Type 0 where
  pub primary : FilePath
  pub job : Text
  pub weight : Option Text
  pub session : Option Text
  pub workload : Text
  pub include : List Text
  pub command_arguments : List Text

-- A leading `--` is dropped.
unfoldable pub requested : List Text → List Text
requested [] = []
requested (word ∷ words) = elim (text_eq word (codes "--")) [ true ↦ words | false ↦ word ∷ words ]

unfoldable pub request_of : (Text → FilePath) → RunnerConfig → RunArguments → Result Error Request
unfolding requested
request_of place config arguments = do
  includes ← parse_includes place arguments.include
  weight ← resolve_workload_weight arguments.workload arguments.weight
  ok (record {
    primary = arguments.primary;
    includes = includes;
    job_id = arguments.job;
    weight = weight;
    argv = requested arguments.command_arguments;
    allowed_repositories = config.allowed_repositories;
    session = arguments.session;
    workload = arguments.workload;
  })
