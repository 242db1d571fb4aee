-- ===== src/DockerPolicy.antt =====
-- trie_remote/docker_policy.py: which Docker commands a job may run.
pub mod Options
pub mod Tests
use remote_worktree_runner.Errors.{Error, docker_policy}
use remote_worktree_runner.Prelude.{
  ◌>>◌, ◌>>=◌, Bool, true, false, not, ◌&&◌, ◌||◌, Option, none, some, List, [], ◌∷◌, ◌++◌,
  if◌then◌else◌, any_of, drop, Text, codes, text_eq, one_of, starts_with, Result, ok, err, require,
}

-- GLOBAL_FLAGS_WITH_VALUE
abbrev pub global_flags_with_value : List Text
global_flags_with_value =
    codes "--config"
    ∷ codes "--context"
    ∷ codes "--host"
    ∷ codes "--log-level"
    ∷ codes "-c"
    ∷ codes "-H"
    ∷ codes "-l"
    ∷ []

-- f"{flag}=" begins the value for a flag that takes one.
abbrev pub is_inline : List Text → Text → Bool
is_inline flags value = any_of (λ flag. starts_with value (flag ++ b'=' ∷ [])) flags

abbrev pub takes_value : Text → Bool
takes_value value = one_of value global_flags_with_value

-- The three tests of the loop.
unfoldable pub is_option : Text → Bool
is_option value =
    takes_value value || (is_inline global_flags_with_value value || starts_with value (codes "-"))

-- The loop over the index: `skip` is set behind a flag whose value is still to be passed.
unfoldable pub tokens_from : Bool → List Text → List Text
tokens_from skip [] = []
tokens_from true (value ∷ values) = tokens_from false values
tokens_from false (value ∷ values) =
    let rest = tokens_from (takes_value value) values in
    if is_option value then rest else value ∷ values

unfoldable pub command_tokens : List Text → List Text
unfolding tokens_from
command_tokens argv = tokens_from false argv

-- value.split("=", 1)[1] of a value that begins with `--builder=`.
abbrev pub builder_flag : Text
builder_flag = codes "--builder"

unfoldable pub builder_value : List Text → Option Text
builder_value [] = none
builder_value (value ∷ arguments) =
    let rest = builder_value arguments in
    let inline =
      if starts_with value (builder_flag ++ b'=' ∷ []) then some (drop 10 value) else rest in
    elim arguments [
      | [] ↦ inline
      | next ∷ more ↦ if text_eq value builder_flag then some next else inline
    ]

-- command_path in {…}
unfoldable pub is_blocked : Text → Text → Bool
is_blocked a b =
    (text_eq b (codes "prune") && one_of a (codes "system" ∷ codes "volume" ∷ codes "builder" ∷ []))
    || ((text_eq a (codes "context") && text_eq b (codes "rm"))
        || (text_eq a (codes "swarm") && text_eq b (codes "leave")))

abbrev pub is_builder : Option Text → Text → Bool
is_builder none job_builder = false
is_builder (some b) job_builder = text_eq b job_builder

unfoldable pub check_path : Text → Text → List Text → Text → Result Error (Unit {0})
check_path a b rest job_builder = do
  require (not (is_blocked a b)) docker_policy
  require
      (not (
        text_eq a (codes "image")
        && text_eq b (codes "prune")
        && any_of (λ v. text_eq v (codes "-a") || text_eq v (codes "--all")) rest))
      docker_policy
  require
      (not (text_eq a (codes "buildx") && text_eq b (codes "prune"))
        || is_builder (builder_value rest) job_builder)
      docker_policy

-- A command of one word is no path of the set.
unfoldable pub check_command : List Text → Text → Result Error (Unit {0})
unfolding check_path
check_command [] job_builder = err docker_policy
check_command (a ∷ []) job_builder = ok tt
check_command (a ∷ b ∷ rest) job_builder = check_path a b rest job_builder

unfoldable pub validate_docker_arguments : List Text → Text → Result Error (Unit {0})
validate_docker_arguments argv job_builder = check_command (command_tokens argv) job_builder
