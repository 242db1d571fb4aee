-- ===== src/JobStore/Creation.antt =====
-- `JobSpec.__post_init__`, the JSON form of a spec, and `JobStore.create` with its partial states.
use remote_worktree_runner.JobStore.Transitions.{create-existing, create-new}
use remote_worktree_runner.Errors.{file_exists}
use remote_worktree_runner.JobStore.{
  status, load, create, exists, Store, JobFiles, empty_directory, creation, perform, is_complete,
}
use remote_worktree_runner.JobStore.Spec.{
  OverlayManifest, overlays_to_dict, overlays_from_dict, to_dict, nonempty, nonempty_or, from_dict,
  build, JobSpec, weights, workloads, is_command, is_subset, check_session, check_roles, post_init,
}
use remote_worktree_runner.JobStore.State.{Status, preparing, no_details}
use remote_worktree_runner.Prelude.{
  ℕ, zero, suc, ◌≤◌, ◌≡◌, refl, ap, ◌≢◌, Dict, true, Option, none, some, List, [], ◌∷◌, arith, leb,
  take, All, Text, one_of, ok, err, >>=-eq-ok, lookup, insert, keys, lookup-insert_self,
  lookup-insert_ne,
}
use remote_worktree_runner.Common.{is_identifier, validate_identifier}

abbrev IsSession : Option Text → Type 0
IsSession none = Unit
IsSession (some s) = is_identifier s ≡ true

-- What a job's contract must satisfy.
pub record IsSpec (spec : JobSpec) : Type 0 where
  pub job_id : is_identifier spec.job_id ≡ true
  pub repository : is_identifier spec.repository ≡ true
  pub weight : one_of spec.weight weights ≡ true
  pub workload : one_of spec.workload workloads ≡ true
  pub session : IsSession spec.session
  pub command : is_command spec.argv ≡ true
  pub roles : All (λ role. is_identifier role ≡ true) (keys spec.workspaces)
  pub overlay_roles : is_subset (keys spec.overlays) (keys spec.workspaces) ≡ true
  pub commit_roles : is_subset (keys spec.commits) (keys spec.workspaces) ≡ true

check_session-ok : (s : Option Text) → check_session s ≡ ok tt → IsSession s
unfolding check_session validate_identifier
check_session-ok none h = tt
check_session-ok (some s) h = ground arith

check_session_complete : (s : Option Text) → IsSession s → check_session s ≡ ok tt
unfolding check_session validate_identifier
check_session_complete none h = refl
check_session_complete (some s) h = ground arith

check_roles-ok :
    (roles : List Text) → check_roles roles ≡ ok tt → All (λ role. is_identifier role ≡ true) roles
unfolding check_roles validate_identifier
check_roles-ok [] h = tt
check_roles-ok (role ∷ roles) h = (ground arith, check_roles-ok roles (ground arith))

check_roles_complete :
    (roles : List Text) → All (λ role. is_identifier role ≡ true) roles → check_roles roles ≡ ok tt
unfolding check_roles validate_identifier
check_roles_complete [] h = refl
check_roles_complete (role ∷ roles) (p, h) = ground (arith, check_roles_complete roles h)

post_init-IsSpec : (spec : JobSpec) → post_init spec ≡ ok tt → IsSpec spec
unfolding post_init
post_init-IsSpec spec h =
    ground (arith, check_session-ok spec.session, check_roles-ok (keys spec.workspaces))

IsSpec-post_init : (spec : JobSpec) → IsSpec spec → post_init spec ≡ ok tt
unfolding post_init
IsSpec-post_init spec v = ground (
  arith,
  check_session_complete spec.session v.session,
  check_roles_complete (keys spec.workspaces) v.roles,
)

-- The files of a directory after the first `n` file operations of `create`.
abbrev pub after_crash : ℕ → JobSpec → JobFiles
after_crash n spec = perform (take n (creation spec)) empty_directory

-- A crash inside `create` leaves a record that `exists` reports exactly from the third file
-- operation on, and a record that is reported has the submitted spec and a preparing status.
pub exists_after_crash :
    (n : ℕ) (spec : JobSpec)
    → (is_complete (some (after_crash n spec)) ≡ leb 3 n)
      × (3 ≤ n
          → ((after_crash n spec).metadata ≡ some spec)
            × ((after_crash n spec).status
                ≡ some (record {
                  state = preparing;
                  created_at = spec.created_at;
                  updated_at = none;
                  details = no_details;
                })))
exists_after_crash zero spec = (refl, λ h. absurd (omega arith))
exists_after_crash (suc zero) spec = (refl, λ h. absurd (omega arith))
exists_after_crash (suc (suc zero)) spec = (refl, λ h. absurd (omega arith))
exists_after_crash (suc (suc (suc zero))) spec = (refl, λ h. (refl, refl))
exists_after_crash (suc (suc (suc (suc zero)))) spec = (refl, λ h. (refl, refl))
exists_after_crash (suc (suc (suc (suc (suc n))))) spec = (ground arith, λ h. (refl, refl))

nonempty-IsSession : (s : Option Text) → IsSession s → nonempty s ≡ s
unfolding is_identifier
nonempty-IsSession none h = refl
nonempty-IsSession (some []) h = absurd (cc)
nonempty-IsSession (some (c ∷ t)) h = refl

nonempty_or-some : (s d : Text) → s ≢ [] → nonempty_or (some s) d ≡ s
nonempty_or-some [] d h = absurd (h refl)
nonempty_or-some (c ∷ s) d h = refl

overlays_from_dict-overlays_to_dict :
    (overlays : Dict OverlayManifest) → overlays_from_dict (overlays_to_dict overlays) ≡ overlays
unfolding overlays_from_dict overlays_to_dict
overlays_from_dict-overlays_to_dict [] = refl
overlays_from_dict-overlays_to_dict ((role, manifest) ∷ overlays) =
    ap (λ rest. (role, manifest) ∷ rest) (overlays_from_dict-overlays_to_dict overlays)

-- The JSON form of a valid spec with a creation time is read back as the same spec.
pub from_dict-to_dict :
    (now : Text) (spec : JobSpec)
    → IsSpec spec
    → spec.created_at ≢ []
    → from_dict now (to_dict spec) ≡ ok spec
unfolding from_dict to_dict
from_dict-to_dict now spec v h = rw (
  nonempty-IsSession spec.session v.session,
  nonempty_or-some spec.created_at now h,
  overlays_from_dict-overlays_to_dict spec.overlays,
  IsSpec-post_init spec v,
)

abbrev pub initial_status : JobSpec → Status
initial_status spec = record {
  state = preparing;
  created_at = spec.created_at;
  updated_at = none;
  details = no_details;
}

pub status-create :
    (spec : JobSpec) (s : Store)
    → is_identifier spec.job_id ≡ true
    → lookup spec.job_id s ≡ none
    → status spec.job_id (create spec s).1 ≡ ok (initial_status spec)
unfolding status validate_identifier
status-create spec s v e =
    let found = lookup-insert_self spec.job_id (perform (creation spec) empty_directory) s in
    rw (create-new spec s v e, v, found) refl

-- A valid spec with a creation time under a new id is stored: it is reported, loaded back unchanged and preparing, and
-- no other directory changes. If the directory is there already, `create` raises and changes
-- nothing, so a contract is never overwritten.
pub create_lem :
    (spec : JobSpec) (now : Text) (s : Store)
    → IsSpec spec
    → spec.created_at ≢ []
    → (lookup spec.job_id s ≡ none
        → (exists spec.job_id (create spec s).1 ≡ ok true)
          × (load now spec.job_id (create spec s).1 ≡ ok spec)
          × (status spec.job_id (create spec s).1 ≡ ok (initial_status spec))
          × ((k : Text) → spec.job_id ≢ k → lookup k (create spec s).1 ≡ lookup k s))
      × ((d : JobFiles) → lookup spec.job_id s ≡ some d → create spec s ≡ (err file_exists, s))
create_lem spec now s v dated =
    (λ e. fresh e (create-new spec s v.job_id e), λ d e. create-existing spec s d v.job_id e)
  where
    directory : JobFiles
    directory = perform (creation spec) empty_directory

    fresh :
        lookup spec.job_id s ≡ none
        → create spec s ≡ (ok spec.job_id, insert spec.job_id directory s)
        → (exists spec.job_id (create spec s).1 ≡ ok true)
          × (load now spec.job_id (create spec s).1 ≡ ok spec)
          × (status spec.job_id (create spec s).1 ≡ ok (initial_status spec))
          × ((k : Text) → spec.job_id ≢ k → lookup k (create spec s).1 ≡ lookup k s)
    fresh e c =
        let found : lookup spec.job_id (insert spec.job_id directory s) ≡ some directory =
          lookup-insert_self spec.job_id directory s in
        rw c (
          unfold exists load status validate_identifier in
          rw (v.job_id, found, from_dict-to_dict now spec v dated)
            (refl, refl, refl, λ k h. lookup-insert_ne spec.job_id k directory s h))

-- A spec is constructed exactly if it satisfies `IsSpec`, and then it is the one that was given.
pub build_iff :
    (spec : JobSpec)
    → (IsSpec spec → build spec ≡ ok spec)
      × ((built : JobSpec) → build spec ≡ ok built → IsSpec spec × (built ≡ spec))
unfolding build
build_iff spec = (
  λ v. rw (IsSpec-post_init spec v),
  λ built h. (post_init-IsSpec spec (>>=-eq-ok (post_init spec) (λ _. ok spec) h).1, ground arith),
)
