-- ===== src/RunnerConfig.antt =====
-- trie_remote/config.py: the configuration that both sides of the runner read from the environment.
pub mod Laws
pub mod Tests
use Prim.Native.String.{String}
use remote_worktree_runner.Prelude.{
  ℕ, zero, suc, ◌+◌, ◌-◌, ◌*◌, ◌/◌, ◌%◌, ◌^◌, ◌≤◌, ◌<◌, ◌≡◌, refl, sym, ap, ◌∙◌, ◌≢◌, ◌↔◌, ◌⊎◌, inl,
  inr, Bool, true, false, not, ◌&&◌, ◌||◌, Option, none, some, List, [], ◌∷◌, ◌++◌, map, arith, ltb,
  leb, ◌==◌, if◌then◌else◌, ltb→lt, lt→ltb, leb→le, ==_iff, Bool-cases, Option-cases, length,
  all_of, any_of, take, drop, All, All-append, All-map, all_of-All, All-all_of, Text, codes,
  text_eq, text_eq_refl, text_eq→eq, text_eq_iff, text_eq_cases, one_of, text_ltb, starts_with,
  ends_with, has_char, partition, split, Result, ok, err, ◌>>=◌, ◌>>◌, require, require-ok,
  >>=-eq-ok, Dict, lookup, insert, keys, values, lookup-insert, lookup-insert_self,
  lookup-insert_ne, ℤ, pos, negsuc, is_space, strip_left, strip_right, strip, remove_prefix,
  is_digit, digits_value, parse_int, digits, show_number, ok_injective, remove, lookup-remove,
}
use remote_worktree_runner.Errors.{Error, no_repositories, bad_integer, bad_max_heavy_jobs}
use remote_worktree_runner.Common.{validate_identifier}

pub record RunnerConfig : Type 0 where
  pub ssh_alias : Text
  pub remote_root : Text
  pub minimum_free_gib : ℤ
  pub warning_free_gib : ℤ
  pub cancellation_free_gib : ℤ
  pub max_heavy_jobs : ℕ
  pub allowed_repositories : List Text

-- ",".join(sorted(DEFAULT_REPOSITORIES))
abbrev pub default_repositories : Text
default_repositories = codes "trie-center,trie-platform-ops,trie-process,trie-space,trie-vms"

-- environ.get(public_name, environ.get(legacy_name, default))
unfoldable pub value : Dict Text → String → String → Text → Text
value environ public_name legacy_name default = elim (lookup (codes public_name) environ) [
  | some v ↦ v
  | none ↦ elim (lookup (codes legacy_name) environ) [ some v ↦ v | none ↦ default ]
]

-- The items that `strip` leaves something of, stripped and checked, in their order.
unfoldable pub repository_items : List Text → Result Error (List Text)
repository_items [] = ok []
repository_items (item ∷ items) =
    let rest = repository_items items in
    elim (strip item) [
      | [] ↦ rest
      | c ∷ name ↦ (validate_identifier (c ∷ name) >>= λ safe. rest >>= λ more. ok (safe ∷ more))
    ]

abbrev pub is_nonempty : List Text → Bool
is_nonempty [] = false
is_nonempty (r ∷ rs) = true

-- int(text)
unfoldable pub integer : Text → Result Error ℤ
integer text = elim (parse_int text) [ none ↦ err bad_integer | some n ↦ ok n ]

-- n if n ≥ 1
unfoldable pub positive : ℤ → Result Error ℕ
positive (pos n) = if ltb n 1 then err bad_max_heavy_jobs else ok n
positive (negsuc n) = err bad_max_heavy_jobs

-- RunnerConfig.load
unfoldable pub load_config : Dict Text → Result Error RunnerConfig
load_config environ = do
  repositories ← repository_items (
      split b',' (
        value environ "REMOTE_RUNNER_ALLOWED_REPOSITORIES" "TRIE_REMOTE_ALLOWED_REPOSITORIES"
          default_repositories))
  require (is_nonempty repositories) no_repositories
  heavy ←
      integer
        (value environ "REMOTE_RUNNER_MAX_HEAVY_JOBS" "TRIE_REMOTE_MAX_HEAVY_JOBS" (codes "1"))
  max_heavy_jobs ← positive heavy
  minimum ←
      integer (
        value environ "REMOTE_RUNNER_MINIMUM_FREE_GIB" "TRIE_REMOTE_MINIMUM_FREE_GIB" (codes "100"))
  warning ←
      integer
        (value environ "REMOTE_RUNNER_WARNING_FREE_GIB" "TRIE_REMOTE_WARNING_FREE_GIB" (codes "80"))
  cancellation ← integer (
      value environ "REMOTE_RUNNER_CANCELLATION_FREE_GIB" "TRIE_REMOTE_CANCELLATION_FREE_GIB"
        (codes "60"))
  ok (record {
    ssh_alias =
        value environ "REMOTE_RUNNER_SSH_ALIAS" "TRIE_REMOTE_SSH_ALIAS" (codes "trie-docker");
    remote_root =
        value environ "REMOTE_RUNNER_ROOT" "TRIE_REMOTE_ROOT" (codes "/srv/trie-platform");
    minimum_free_gib = minimum;
    warning_free_gib = warning;
    cancellation_free_gib = cancellation;
    max_heavy_jobs = max_heavy_jobs;
    allowed_repositories = repositories;
  })
