-- ===== src/ServerCli/Reserved.antt =====
-- The start of a job that has a directory already.
use remote_worktree_runner.Errors.{Error, reservation_mismatch, not_preparing}
use remote_worktree_runner.JobStore.State.{
  JobState, preparing, queued, running, passed, failed, cancelled, other, is_final, Status,
}
use remote_worktree_runner.JobStore.Spec.{JobSpec}
use remote_worktree_runner.JobStore.{Store, load, status}
use remote_worktree_runner.ServerCli.Contract.{SameContract}
use remote_worktree_runner.ServerCli.Started.{Starts}
use remote_worktree_runner.ServerCli.Equality.{spec_eq}
use remote_worktree_runner.ServerCli.Start.{Launch, start_job}
use remote_worktree_runner.Prelude.{
  ◌≡◌, refl, ◌≢◌, ◌⊎◌, inl, inr, true, false, Option, none, some, Result, ok, err,
}

-- The states behind which a job changes no more.
abbrev pub IsOver : JobState → Type 0
IsOver state = (state ≡ passed) ⊎ ((state ≡ failed) ⊎ (state ≡ cancelled))

-- The job is loaded with the contract that is to start, and is preparing and goes on to start, or is
-- over: then its status is returned.
pub record Resumes (ev : Launch) (spec : JobSpec) (s : Store) : Type 0 where
  pub stored : JobSpec
  pub state : Status
  pub loaded : load ev.utc_now spec.job_id s ≡ ok stored
  pub known : status spec.job_id s ≡ ok state
  pub same : SameContract stored spec
  pub going :
      ((state.state ≡ preparing) × Starts ev spec (start_job ev spec s))
      ⊎ (IsOver state.state × (start_job ev spec s ≡ (ok state, s)))

-- The job cannot be loaded, its contract is another, its status cannot be read, or it is neither
-- preparing nor over.
pub data Refuses (ev : Launch) (spec : JobSpec) (s : Store) : Error → Type 0 where
  unloaded : (e : Error) → load ev.utc_now spec.job_id s ≡ err e → Refuses ev spec s e
  mismatched :
      (stored : JobSpec)
      → load ev.utc_now spec.job_id s ≡ ok stored
      → spec_eq stored spec ≡ false
      → Refuses ev spec s reservation_mismatch
  unknown : (e : Error) → status spec.job_id s ≡ err e → Refuses ev spec s e
  underway :
      (state : Status)
      → status spec.job_id s ≡ ok state
      → state.state ≢ preparing
      → ¬ IsOver state.state
      → Refuses ev spec s not_preparing

is_final-IsOver : (state : JobState) → is_final state ≡ true → IsOver state
is_final-IsOver passed h = inl refl
is_final-IsOver failed h = inr (inl refl)
is_final-IsOver cancelled h = inr (inr refl)
is_final-IsOver preparing h = absurd (cc)
is_final-IsOver queued h = absurd (cc)
is_final-IsOver running h = absurd (cc)
is_final-IsOver (other _) h = absurd (cc)

-- What the state decides.
abbrev Decides : Status → Result Error (Option Status) → Type 0
Decides st r =
    ((st.state ≡ preparing) × (r ≡ ok none))
    ⊎ ((IsOver st.state × (r ≡ ok (some st)))
        ⊎ ((st.state ≢ preparing) × (¬ IsOver st.state) × (r ≡ err not_preparing)))
