-- ===== src/LocalCli.antt =====
-- trie_remote/local_cli.py: what the user asks for, checked before anything is sent.
pub mod Plan
pub mod Run
pub mod Requested
pub mod Main
pub mod Codes
pub mod Submitted
pub mod Tests
pub mod Guarded
use Prim.Native.String.{String}
use remote_worktree_runner.Prelude.{
  ℕ, zero, suc, ◌+◌, ◌-◌, ◌*◌, ◌/◌, ◌%◌, ◌^◌, ◌≤◌, ◌<◌, ◌≡◌, refl, sym, ap, ◌∙◌, ◌≢◌, ◌↔◌, ◌⊎◌, inl,
  inr, Bool, true, false, not, ◌&&◌, ◌||◌, Option, none, some, List, [], ◌∷◌, ◌++◌, map, arith, ltb,
  leb, ◌==◌, if◌then◌else◌, ltb→lt, lt→ltb, leb→le, ==_iff, Bool-cases, Option-cases, length,
  all_of, any_of, take, drop, All, All-append, All-map, all_of-All, All-all_of, Text, codes,
  text_eq, text_eq_refl, text_eq→eq, text_eq_iff, text_eq_cases, one_of, text_ltb, starts_with,
  ends_with, has_char, partition, split, Result, ok, err, ◌>>=◌, ◌>>◌, require, require-ok,
  >>=-eq-ok, Dict, lookup, insert, keys, values, lookup-insert, lookup-insert_self,
  lookup-insert_ne, ℤ, pos, negsuc, is_space, strip_left, strip_right, strip, remove_prefix,
  is_digit, digits_value, parse_int, digits, show_number, ok_injective, remove, lookup-remove,
  contains, lower, remove_suffix,
}
use remote_worktree_runner.Errors.{
  Error, empty_command, daemon_control, unsupported_workload, exclusive_required, bad_include,
}
use remote_worktree_runner.Common.{FilePath, validate_identifier}

-- The parts of a path that count for its name: neither empty nor `.`.
unfoldable pub name_parts : List Text → List Text
name_parts [] = []
name_parts (part ∷ parts) =
    let rest = name_parts parts in
    if text_eq part [] || text_eq part (codes ".") then rest else part ∷ rest

unfoldable pub last_part : List Text → Text
last_part [] = []
last_part (part ∷ []) = part
last_part (part ∷ next ∷ parts) = last_part (next ∷ parts)

-- Path(text).name
unfoldable pub path_name : Text → Text
unfolding name_parts last_part
path_name text = last_part (name_parts (split b'/' text))

abbrev pub pair_eq : Text → Text → String → String → Bool
pair_eq a b first second = text_eq a (codes first) && text_eq b (codes second)

-- docker with one of the five pairs of words behind it.
unfoldable pub is_daemon_wide : List Text → Bool
is_daemon_wide (a ∷ b ∷ rest) =
    pair_eq a b "system" "prune"
    || (pair_eq a b "volume" "prune"
        || (pair_eq a b "builder" "prune"
            || (pair_eq a b "context" "rm" || pair_eq a b "swarm" "leave")))
is_daemon_wide _ = false

unfoldable pub validate_requested_command : List Text → Result Error (Unit {0})
unfolding path_name is_daemon_wide
validate_requested_command [] = err empty_command
validate_requested_command (program ∷ arguments) =
    let command = path_name program in
    do
      require (not (one_of command (codes "systemctl" ∷ codes "service" ∷ []))) daemon_control
      require (not (any_of (contains (codes "docker.sock")) (program ∷ arguments))) daemon_control
      require (not (text_eq command (codes "docker") && is_daemon_wide arguments)) daemon_control

-- WORKLOAD_WEIGHTS
abbrev pub workload_weights : Dict Text
workload_weights =
    (codes "generic", codes "heavy")
    ∷ (codes "compose", codes "heavy")
    ∷ (codes "browser", codes "heavy")
    ∷ (codes "e2e", codes "heavy")
    ∷ (codes "kind", codes "exclusive")
    ∷ (codes "certification", codes "exclusive")
    ∷ []

unfoldable pub chosen_weight : Text → Option Text → Option Text → Result Error Text
chosen_weight workload none requested = err unsupported_workload
chosen_weight workload (some default) none = ok default
chosen_weight workload (some default) (some weight) =
    if one_of workload (codes "kind" ∷ codes "certification" ∷ [])
      && not (text_eq weight (codes "exclusive"))
    then err exclusive_required
    else ok weight

unfoldable pub resolve_workload_weight : Text → Option Text → Result Error Text
unfolding chosen_weight
resolve_workload_weight workload requested =
    chosen_weight workload (lookup workload workload_weights) requested

unfoldable pub include_path : Option Text → Result Error Text
include_path none = err bad_include
include_path (some []) = err bad_include
include_path (some (c ∷ path)) = ok (c ∷ path)

abbrev pub is_known {ℓ} : {A : Type ℓ} → Option A → Bool
is_known none = false
is_known (some a) = true

-- The loop of `_parse_includes`; `place` is `Path(raw_path).expanduser().resolve()`.
unfoldable pub includes_from :
    (Text → FilePath) → List Text → Dict FilePath → Result Error (Dict FilePath)
unfolding include_path
includes_from place [] includes = ok includes
includes_from place (value ∷ values) includes = do
  path ← include_path (partition b'=' value).1
  role ← validate_identifier (partition b'=' value).0
  require (not (text_eq role (codes "primary") || is_known (lookup role includes))) bad_include
  includes_from place values (insert role (place path) includes)

unfoldable pub parse_includes : (Text → FilePath) → List Text → Result Error (Dict FilePath)
unfolding includes_from
parse_includes place values = includes_from place values []
