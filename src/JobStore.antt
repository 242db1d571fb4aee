-- ===== src/JobStore.antt =====
-- trie_remote/job_store.py: the class `JobStore` over the job directories.
pub mod State
pub mod Spec
pub mod Access
pub mod Cancel
pub mod Creation
pub mod Life
pub mod Tests
pub mod Transitions
use remote_worktree_runner.Prelude.{
  zero, Bool, true, false, Option, none, some, List, [], ◌∷◌, if◌then◌else◌, Text, Result, ok, err,
  ◌>>=◌, Dict, lookup, insert,
}
use State.{
  JobState, preparing, passed, failed, ℤ, pos, Timestamp, iso, Details, no_details, Status,
  may_transition, merge,
}
use Spec.{JobSpec, from_dict, to_dict}
use remote_worktree_runner.Errors.{Error, file_exists, file_missing, invalid_transition}
use remote_worktree_runner.Common.{validate_identifier}

-- One job directory: metadata.json, command.json, status, output.log, cancel.requested and
-- compose-projects.json. A file that is not there is `none`, or `false` for the marker.
pub record JobFiles : Type 0 where
  pub metadata : Option JobSpec
  pub command : Option (List Text)
  pub status : Option Status
  pub output : Option Text
  pub cancel_requested : Bool
  pub compose_projects : Option (List Text)

-- The directories below `paths.jobs`, by name.
abbrev pub Store : Type 0
Store = Dict JobFiles

abbrev pub empty_directory : JobFiles
empty_directory = record {
  metadata = none;
  command = none;
  status = none;
  output = none;
  cancel_requested = false;
  compose_projects = none;
}

-- The name of the job's directory; `Common.ensure_below` passes every such name (Common/Laws).
unfoldable pub job_directory : Text → Result Error Text
job_directory job_id = validate_identifier job_id

-- What a method returns or raises, and the directories afterwards.
abbrev pub Outcome {ℓ} : Type ℓ → Type ℓ
Outcome A = Result Error A × Store

-- A change of one directory that is there; nothing changes where it is not.
unfoldable pub update : Text → (JobFiles → JobFiles) → Store → Store
update name f s = elim (lookup name s) [ none ↦ s | some d ↦ insert name (f d) s ]

-- The file operations of `create`, in order, after its `mkdir`.
abbrev pub creation : JobSpec → List (JobFiles → JobFiles)
creation spec =
    (λ d. record d { metadata = some spec })
    ∷ (λ d. record d { command = some spec.argv })
    ∷ (λ d. record d {
      status = some (record {
        state = preparing;
        created_at = spec.created_at;
        updated_at = none;
        details = no_details;
      });
    })
    ∷ (λ d. record d { output = some [] })
    ∷ []

abbrev pub perform : List (JobFiles → JobFiles) → JobFiles → JobFiles
perform [] d = d
perform (f ∷ fs) d = perform fs (f d)

make_directory : Option JobFiles → Text → JobSpec → Store → Outcome Text
make_directory (some d) name spec s = (err file_exists, s)
make_directory none name spec s = (ok name, insert name (perform (creation spec) empty_directory) s)

create_at : Result Error Text → JobSpec → Store → Outcome Text
unfolding make_directory
create_at (err e) spec s = (err e, s)
create_at (ok name) spec s = make_directory (lookup name s) name spec s

unfoldable pub create : JobSpec → Store → Outcome Text
unfolding create_at job_directory
create spec s = create_at (job_directory spec.job_id) spec s

-- (directory / "metadata.json").is_file() and (directory / "status").is_file()
abbrev pub is_complete : Option JobFiles → Bool
is_complete none = false
is_complete (some d) = elim d.metadata [
  | none ↦ false
  | some _ ↦ elim d.status [ none ↦ false | some _ ↦ true ]
]

unfoldable pub exists : Text → Store → Result Error Bool
unfolding job_directory
exists job_id s = do name ← job_directory job_id; ok (is_complete (lookup name s))

-- path.read_text(…) of a file that may be missing.
abbrev pub read {ℓ} : {A : Type ℓ} → Option A → Result Error A
read none = err file_missing
read (some a) = ok a

-- The JSON form is read back by `from_dict`, which checks the spec once more; `now` is what
-- `utc_now()` would return there for a spec without a creation time.
unfoldable pub load : Text → Text → Store → Result Error JobSpec
unfolding job_directory
load now job_id s = do
  name ← job_directory job_id
  d ← read (lookup name s)
  spec ← read d.metadata
  from_dict now (to_dict spec)

unfoldable pub status : Text → Store → Result Error Status
unfolding job_directory
status job_id s = do name ← job_directory job_id; d ← read (lookup name s); read d.status

-- The status that `transition` writes, or the error that it raises.
unfoldable pub advance : Status → JobState → Details → Text → Result Error Status
unfolding may_transition merge
advance current state details now =
    if may_transition current.state state
    then ok (record current {
      state = state;
      updated_at = some now;
      details = merge current.details details;
    })
    else err invalid_transition

write_status : Result Error Status → Text → Store → Outcome Status
unfolding update
write_status (err e) job_id s = (err e, s)
write_status (ok st) job_id s = (ok st, update job_id (λ d. record d { status = some st }) s)

-- `now` is `utc_now()`. The directory's name is the job id, which `status` has validated.
unfoldable pub transition : Text → JobState → Details → Text → Store → Outcome Status
unfolding write_status
transition job_id state details now s =
    write_status (status job_id s >>= λ current. advance current state details now) job_id s

abbrev pub final_state : ℤ → JobState
final_state (pos zero) = passed
final_state _ = failed

unfoldable pub finish : Text → ℤ → Text → Store → Outcome Status
finish job_id exit_code now s =
    transition job_id (final_state exit_code)
      (record no_details { exit_code = some exit_code; finished_at = some (iso now) }) now s

touch_marker : Result Error JobFiles → Text → Store → Outcome Text
unfolding update
touch_marker (err e) job_id s = (err e, s)
touch_marker (ok _) job_id s =
    (ok job_id, update job_id (λ d. record d { cancel_requested = true }) s)

-- `touch` in a directory that is not there raises FileNotFoundError.
unfoldable pub request_cancel : Text → Store → Outcome Text
unfolding touch_marker
request_cancel job_id s =
    touch_marker (job_directory job_id >>= λ name. read (lookup name s)) job_id s

-- (job_directory / "cancel.requested").exists()
abbrev pub is_cancel_requested : Text → Store → Bool
is_cancel_requested job_id s = elim (lookup job_id s) [ none ↦ false | some d ↦ d.cancel_requested ]
