-- ===== src/ServerCli/Started.antt =====
-- How `_start_job` ends.
use remote_worktree_runner.Prelude.{none, lookup, ℕ, ◌≡◌, refl, some, Text, codes, ok, err}
use remote_worktree_runner.ServerCli.Start.{
  created, start_reserved, reserve, start_job, Launch, launched, launch, UnitStart, unit_started,
  unit_refused, not_run,
}
use remote_worktree_runner.JobStore.State.{
  JobState, preparing, queued, failed, cancelled, no_details, Status, may_transition,
}
use remote_worktree_runner.Errors.{Error, start_failed, os_error}
use remote_worktree_runner.JobStore.Transitions.{create-new, transition_lem}
use remote_worktree_runner.JobStore.{create, exists, Store, Outcome, status}
use remote_worktree_runner.JobStore.Creation.{status-create, initial_status, IsSpec}
use remote_worktree_runner.Scheduler.Disk.{admit}
use remote_worktree_runner.Common.{validate_identifier}
use remote_worktree_runner.JobStore.Spec.{JobSpec}

-- The call returns the status that the job then has, in the given state.
abbrev pub Leaves : Text → JobState → Outcome Status → Type 0
Leaves j state o = (st : Status) × (o.0 ≡ ok st) × (status j o.1 ≡ ok st) × (st.state ≡ state)

-- The call raises that systemd did not start the unit, and the job is cancelled.
abbrev pub Abandons : Text → Outcome Status → Type 0
Abandons j o =
    (o.0 ≡ err start_failed) × ((st : Status) × (status j o.1 ≡ ok st) × (st.state ≡ cancelled))

-- The call raises OSError, and the job stays behind in the given state.
abbrev pub Breaks : Text → JobState → Outcome Status → Type 0
Breaks j state o =
    (o.0 ≡ err os_error) × ((st : Status) × (status j o.1 ≡ ok st) × (st.state ≡ state))

-- How the job is left, for each end of `systemd-run`.
abbrev pub LeftBy : Text → UnitStart → Outcome Status → Type 0
LeftBy j unit_started o = Leaves j queued o
LeftBy j unit_refused o = Abandons j o
LeftBy j not_run o = Breaks j queued o

-- How the start of a preparing job ends, by the free space, the disk guard and `systemd-run`.
abbrev pub Starts : Launch → JobSpec → Outcome Status → Type 0
Starts ev spec o =
    (ev.free ≡ none → Breaks spec.job_id preparing o)
    × ((free : ℕ)
        → ev.free ≡ some free
        → ((e : Error) → admit ev.guard spec.weight free ≡ err e → Leaves spec.job_id failed o)
          × ((n : ℕ) → admit ev.guard spec.weight free ≡ ok n → LeftBy spec.job_id ev.started o))

module _ (ev : Launch) (spec : JobSpec) where
  launched-lem :
      (end : UnitStart) (o : Outcome Status)
      → ev.started ≡ end
      → Leaves spec.job_id queued o
      → LeftBy spec.job_id end (launched ev spec.job_id o)
  unfolding launched may_transition
  launched-lem unit_started (r, s) h (st, made, known, q) = rw (made, h) (st, refl, known, q)
  launched-lem unit_refused (r, s) h (st, made, known, q) =
      let (gone, left) =
        (transition_lem spec.job_id cancelled
            (record no_details { reason = some (codes "systemd start failed") }) ev.utc_now s st
            known).0
          (rw q refl) in
      rw (made, h, gone) (refl, (_, left, refl))
  launched-lem not_run (r, s) h (st, made, known, q) = rw (made, h) (refl, (st, known, q))

  launch-lem :
      (s : Store) (st : Status)
      → status spec.job_id s ≡ ok st
      → st.state ≡ preparing
      → ((e : Error) → Leaves spec.job_id failed (launch ev spec (err e) s))
        × ((n : ℕ) → LeftBy spec.job_id ev.started (launch ev spec (ok n) s))
  unfolding launch may_transition
  launch-lem s st known p = (
    λ e.
        let (made, left) =
          (transition_lem spec.job_id failed _ ev.utc_now s st known).0 (rw p refl) in
        (_, made, left, refl),
    λ n.
        let (made, left) =
          (transition_lem spec.job_id queued _ ev.utc_now s st known).0 (rw p refl) in
        launched-lem ev.started _ refl (_, made, left, refl),
  )

  no_space : (t : Store) → ev.free ≡ none → start_reserved ev spec (ok none, t) ≡ (err os_error, t)
  unfolding start_reserved
  no_space t f = rw f refl

  with_space :
      (t : Store) (free : ℕ)
      → ev.free ≡ some free
      → start_reserved ev spec (ok none, t) ≡ launch ev spec (admit ev.guard spec.weight free) t
  unfolding start_reserved
  with_space t free f = rw f refl

  fresh :
      (s : Store)
      → IsSpec spec
      → lookup spec.job_id s ≡ none
      → (t : Store) × (start_job ev spec s ≡ start_reserved ev spec (ok none, t))
        × (status spec.job_id t ≡ ok (initial_status spec))
  unfolding start_job exists validate_identifier reserve created
  fresh s v e =
      let known = status-create spec s v.job_id e in
      ((create spec s).1, rw (v.job_id, e, create-new spec s v.job_id e) refl, known)

  pub start_reserved-Starts :
      (t : Store) (st : Status)
      → status spec.job_id t ≡ ok st
      → st.state ≡ preparing
      → Starts ev spec (start_reserved ev spec (ok none, t))
  start_reserved-Starts t st known p =
      let (refused, admitted) = launch-lem t st known p in
      (
        λ f. rw (no_space t f) (refl, (st, known, p)),
        λ free f.
            let goes = with_space t free f in
            (λ x a. rw (goes, a) (refused x), λ n a. rw (goes, a) (admitted n)),
      )

  -- A valid job that has no directory yet is created and started. If the disk guard refuses it, the
  -- job has failed. If it is admitted, the job is queued where systemd starts its unit, and the
  -- status returned is the one that is stored; where `systemd-run` returns another code, the start
  -- raises and the job is cancelled. An OSError is raised through: that of `systemd-run` leaves the
  -- job queued, that of `disk_usage` leaves it preparing.
  pub start_job-new :
      (s : Store) → IsSpec spec → lookup spec.job_id s ≡ none → Starts ev spec (start_job ev spec s)
  start_job-new s v e =
      let (t, same, known) = fresh s v e in
      rw same (start_reserved-Starts t (initial_status spec) known refl)
