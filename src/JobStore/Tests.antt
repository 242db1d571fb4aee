-- ===== src/JobStore/Tests.antt =====
-- Job store: concrete jobs.
use remote_worktree_runner.JobStore.{Store, empty_directory, create, load, status, transition}
use remote_worktree_runner.JobStore.State.{
  may_transition, iso, JobState, queued, running, passed, pos, no_details, Status,
}
use remote_worktree_runner.JobStore.Spec.{is_subset, is_command, JobSpec}
use remote_worktree_runner.Common.{is_identifier, validate_identifier}
use remote_worktree_runner.Prelude.{
  ◌≡◌, refl, none, some, [], ◌∷◌, Text, codes, text_eq, one_of, ok, lookup,
}
use remote_worktree_runner.JobStore.Creation.{IsSpec, create_lem}
use remote_worktree_runner.JobStore.Transitions.{moved, transition_lem}
use remote_worktree_runner.JobStore.Life.{
  Reach, Later, here, next, transitions, Reach-Later, final_frozen,
}

abbrev job : Text
job = codes "job-1"

abbrev spec : JobSpec
spec = record {
  job_id = job;
  repository = codes "center";
  workspace = codes "/w/center";
  workspaces = (codes "primary", codes "/w/center") ∷ [];
  includes = [];
  weight = codes "heavy";
  argv = codes "make" ∷ codes "test" ∷ [];
  created_at = codes "2026-01-01T00:00:00+00:00";
  commits = [];
  overlays = [];
  workload = codes "generic";
  session = some (codes "s1");
}

spec-IsSpec : IsSpec spec
unfolding is_identifier one_of text_eq is_command is_subset
spec-IsSpec = record {
  job_id = refl;
  repository = refl;
  weight = refl;
  workload = refl;
  session = refl;
  command = refl;
  roles = (refl, tt);
  overlay_roles = refl;
  commit_roles = refl;
}

abbrev in_state : JobState → Status
in_state s = record {
  state = s;
  created_at = spec.created_at;
  updated_at = none;
  details = no_details;
}

abbrev store_in : JobState → Store
store_in s = (job, record empty_directory { metadata = some spec; status = some (in_state s) }) ∷ []

readable : (s : JobState) → status job (store_in s) ≡ ok (in_state s)
unfolding status validate_identifier is_identifier lookup text_eq
readable s = refl

abbrev noon : Text
noon = codes "2026-01-01T12:00:00+00:00"

create_lem_example : load noon job (create spec []).1 ≡ ok spec
unfolding lookup
create_lem_example = ((create_lem spec noon [] spec-IsSpec (λ e. cc)).0 refl).1

transition_lem_example :
    status job (transition job running no_details noon (store_in queued)).1
    ≡ ok (moved (in_state queued) running no_details noon)
unfolding may_transition
transition_lem_example =
    ((transition_lem job running no_details noon (store_in queued) (in_state queued)
        (readable queued)).0
      refl).1

abbrev finished : Status
finished =
    moved (in_state running) passed
      (record no_details { exit_code = some (pos 0); finished_at = some (iso noon) }) noon

-- A late transition of a job that has passed.
abbrev late : Reach (store_in passed) (transition job running no_details noon (store_in passed)).1
late = next here (transitions job running no_details noon)

final_frozen_example :
    status job (transition job running no_details noon (store_in passed)).1 ≡ ok (in_state passed)
final_frozen_example = final_frozen job (in_state passed) refl late (readable passed)

Reach-Later_example :
    (y : Status) × (status job (transition job running no_details noon (store_in queued)).1 ≡ ok y)
    × Later (in_state queued) y
Reach-Later_example =
    Reach-Later job (in_state queued) (next here (transitions job running no_details noon))
      (readable queued)
