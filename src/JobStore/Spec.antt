-- ===== src/JobStore/Spec.antt =====
-- trie_remote/job_store.py: `OverlayManifest` and `JobSpec`, their checks and their JSON form.
use remote_worktree_runner.Errors.{
  Error, bad_weight, bad_workload, bad_argv, bad_overlay_roles, bad_commit_roles,
}
use remote_worktree_runner.Common.{validate_identifier}
use remote_worktree_runner.Prelude.{
  Bool, true, false, Option, none, some, List, [], ◌∷◌, all_of, Text, codes, one_of, Result, ok,
  ◌>>=◌, ◌>>◌, require, Dict, keys,
}

pub record OverlayManifest : Type 0 where
  pub transfer : List Text
  pub delete : List Text

pub record JobSpec : Type 0 where
  pub job_id : Text
  pub repository : Text
  pub workspace : Text
  pub workspaces : Dict Text
  pub includes : Dict Text
  pub weight : Text
  pub argv : List Text
  pub created_at : Text
  pub commits : Dict Text
  pub overlays : Dict OverlayManifest
  pub workload : Text
  pub session : Option Text

abbrev pub weights : List Text
weights = codes "light" ∷ codes "heavy" ∷ codes "exclusive" ∷ []

abbrev pub workloads : List Text
workloads =
    codes "generic"
    ∷ codes "compose"
    ∷ codes "browser"
    ∷ codes "e2e"
    ∷ codes "kind"
    ∷ codes "certification"
    ∷ []

abbrev pub is_nonempty : Text → Bool
is_nonempty [] = false
is_nonempty (c ∷ s) = true

-- not self.argv or not all(…)
unfoldable pub is_command : List Text → Bool
is_command [] = false
is_command (x ∷ xs) = all_of is_nonempty (x ∷ xs)

unfoldable pub check_session : Option Text → Result Error (Unit {0})
check_session none = ok tt
check_session (some s) = validate_identifier s >>= λ _. ok tt

unfoldable pub check_roles : List Text → Result Error (Unit {0})
check_roles [] = ok tt
check_roles (role ∷ roles) = validate_identifier role >>= λ _. check_roles roles

-- set(a).issubset(b)
unfoldable pub is_subset : List Text → List Text → Bool
is_subset a b = all_of (λ k. one_of k b) a

-- JobSpec.__post_init__
unfoldable pub post_init : JobSpec → Result Error (Unit {0})
unfolding validate_identifier
post_init spec = do
  validate_identifier spec.job_id
  validate_identifier spec.repository
  require (one_of spec.weight weights) bad_weight
  require (one_of spec.workload workloads) bad_workload
  check_session spec.session
  require (is_command spec.argv) bad_argv
  check_roles (keys spec.workspaces)
  require (is_subset (keys spec.overlays) (keys spec.workspaces)) bad_overlay_roles
  require (is_subset (keys spec.commits) (keys spec.workspaces)) bad_commit_roles

-- The constructor of the dataclass.
unfoldable pub build : JobSpec → Result Error JobSpec
build spec = do post_init spec; ok spec

-- The JSON object of a manifest; both members may be missing.
pub record ManifestFields : Type 0 where
  pub transfer : Option (List Text)
  pub delete : Option (List Text)

-- The members of the JSON object; those that `from_dict` reads by `get` may be missing.
pub record Fields : Type 0 where
  pub job_id : Text
  pub repository : Text
  pub workspace : Text
  pub workspaces : Dict Text
  pub includes : Option (Dict Text)
  pub weight : Text
  pub argv : List Text
  pub created_at : Option Text
  pub commits : Option (Dict Text)
  pub overlays : Option (Dict ManifestFields)
  pub workload : Option Text
  pub session : Option Text

abbrev pub get_or {ℓ} : {A : Type ℓ} → Option A → A → A
get_or none d = d
get_or (some a) d = a

-- value.get(k) or default
abbrev pub nonempty_or : Option Text → Text → Text
nonempty_or (some (c ∷ s)) d = c ∷ s
nonempty_or _ d = d

-- str(value["session"]) if value.get("session") else None
abbrev pub nonempty : Option Text → Option Text
nonempty (some (c ∷ s)) = some (c ∷ s)
nonempty _ = none

-- The values of the literal, and of the comprehension that reads it back.
abbrev pub manifest_to_dict : OverlayManifest → ManifestFields
manifest_to_dict m = record { transfer = some m.transfer; delete = some m.delete }

-- OverlayManifest.from_dict
abbrev pub manifest_from_dict : ManifestFields → OverlayManifest
manifest_from_dict value = record {
  transfer = get_or value.transfer [];
  delete = get_or value.delete [];
}

unfoldable pub overlays_to_dict : Dict OverlayManifest → Dict ManifestFields
overlays_to_dict [] = []
overlays_to_dict ((role, manifest) ∷ overlays) =
    (role, manifest_to_dict manifest) ∷ overlays_to_dict overlays

unfoldable pub overlays_from_dict : Dict ManifestFields → Dict OverlayManifest
overlays_from_dict [] = []
overlays_from_dict ((role, value) ∷ overlays) =
    (role, manifest_from_dict value) ∷ overlays_from_dict overlays

unfoldable pub to_dict : JobSpec → Fields
unfolding overlays_to_dict
to_dict spec = record {
  job_id = spec.job_id;
  repository = spec.repository;
  workspace = spec.workspace;
  workspaces = spec.workspaces;
  includes = some spec.includes;
  weight = spec.weight;
  argv = spec.argv;
  created_at = some spec.created_at;
  commits = some spec.commits;
  overlays = some (overlays_to_dict spec.overlays);
  workload = some spec.workload;
  session = spec.session;
}

-- `now` is what `utc_now()` returns.
unfoldable pub from_dict : Text → Fields → Result Error JobSpec
unfolding build overlays_from_dict
from_dict now value = build (record {
  job_id = value.job_id;
  repository = value.repository;
  workspace = value.workspace;
  workspaces = value.workspaces;
  includes = get_or value.includes [];
  weight = value.weight;
  argv = value.argv;
  created_at = nonempty_or value.created_at now;
  commits = get_or value.commits [];
  overlays = overlays_from_dict (get_or value.overlays []);
  workload = get_or value.workload (codes "generic");
  session = nonempty value.session;
})
