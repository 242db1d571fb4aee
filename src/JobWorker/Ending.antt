-- ===== src/JobWorker/Ending.antt =====
-- How an admitted job ends.
use remote_worktree_runner.Errors.{Error, spawn_rejected}
use remote_worktree_runner.Prelude.{
  zero, suc, ◌≡◌, refl, ◌⊎◌, inl, inr, true, false, Option, none, some, [], arith, All, Text,
  text_eq_refl, Result, ok, err,
}
use remote_worktree_runner.JobStore.State.{
  JobState, queued, running, passed, failed, cancelled, ℤ, pos, negsuc, epoch, Details, no_details,
  Status, is_final, may_transition, merge,
}
use remote_worktree_runner.JobStore.{final_state, transition, finish}
use remote_worktree_runner.JobStore.Spec.{JobSpec}
use remote_worktree_runner.JobStore.Transitions.{moved, final_state-passed}
use remote_worktree_runner.Scheduler.Slots.{ResourceLease, held}
use remote_worktree_runner.Scheduler.Permits.{release_lem}
use remote_worktree_runner.Scheduler.Pool.{ResourcePool, PoolOutcome}
use remote_worktree_runner.JobWorker.{
  Events, Spawn, spawned, spawn_failed, rejected, bind, in_store, append_log, setup, setup_failed,
  Watched, exited, stopped, unfinished, watch, conclude, run_command, work, finally, after_wait,
}
use remote_worktree_runner.JobWorker.Keeps.{
  status_of, in_store-transition, in_store-append_log, in_store-status, LeavesStatus, watch-status,
}

-- The job has a final status with the exit code `code`, and passed only with 0.
pub record Finished (j : Text) (code : ℤ) (p : ResourcePool) : Type 0 where
  pub result : Status
  pub recorded : status_of j p ≡ ok result
  pub final : is_final result.state ≡ true
  pub exit_code : result.details.exit_code ≡ some code
  pub passes : result.state ≡ passed → code ≡ pos 0

-- The call returned an exit code, and the job has finished with it.
abbrev pub Returns : Text → PoolOutcome (Option ℤ) → Type 0
Returns j o = (code : ℤ) × (o.0 ≡ ok (some code)) × Finished j code o.1

-- The spawn raised ValueError through the call, and the job stays behind as running.
pub record Escapes (j : Text) (ev : Events) (o : PoolOutcome (Option ℤ)) : Type 0 where
  pub cause : ev.spawn ≡ rejected
  pub raised : o.0 ≡ err spawn_rejected
  pub left : Status
  pub recorded : status_of j o.1 ≡ ok left
  pub state : left.state ≡ running

final_state-final : (code : ℤ) → is_final (final_state code) ≡ true
final_state-final (pos zero) = refl
final_state-final (pos (suc n)) = refl
final_state-final (negsuc n) = refl

-- A final transition that is followed by the return of its exit code.
pub Returns-final :
    (j : Text) (new : JobState) (x : Details) (now : Text) (p : ResourcePool) (st : Status)
    (code : ℤ)
    → status_of j p ≡ ok st
    → may_transition st.state new ≡ true
    → is_final new ≡ true
    → x.exit_code ≡ some code
    → (new ≡ passed → code ≡ pos 0)
    → Returns j (bind (in_store (transition j new x now) p) λ _ p₁. (ok (some code), p₁))
unfolding bind merge
Returns-final j new x now p st code e permitted final given passes =
    let g = in_store-transition j new x now p st e permitted in
    rw g.outcome (
      code,
      refl,
      record {
        result = moved st new x now;
        recorded = g.status;
        final = final;
        exit_code = rw given refl;
        passes = passes;
      },
    )

module _ (j : Text) (ev : Events) where
  conclude-Returns :
      (w : Watched) (p : ResourcePool) (st : Status)
      → status_of j p ≡ ok st
      → st.state ≡ running
      → ((w ≡ unfinished) × ((conclude j ev (w, p)).0 ≡ ok none)) ⊎ Returns j (conclude j ev (w, p))
  unfolding conclude finish may_transition
  conclude-Returns unfinished p st e r = inl (refl, refl)
  conclude-Returns (exited code) p st e r = inr (
      Returns-final j (final_state code) _ ev.utc_now p st code e (rw r (final_state-final code))
        (final_state-final code) refl (final_state-passed code).0)
  conclude-Returns stopped p st e r = inr (
      Returns-final j cancelled _ ev.utc_now p st ev.signalled e (rw r refl) refl refl
        (λ u. absurd (cc)))

  setup_failed-Returns :
      (p : ResourcePool) (st : Status)
      → status_of j p ≡ ok st
      → st.state ≡ queued
      → Returns j (setup_failed j ev p)
  unfolding setup_failed bind may_transition
  setup_failed-Returns p st e q =
      let g₁ = in_store-append_log j ev.setup_message p st e in
      let g₂ = in_store-status j g₁.after st g₁.status in
      rw g₁.outcome (
        rw g₂.outcome (
          rw q (
            Returns-final j failed _ ev.utc_now g₂.after st (pos 1) g₂.status (rw q refl) refl refl
              (λ u. absurd (cc)))))

  -- The process still ran in every round, the call returned, or the spawn raised.
  abbrev pub Ends : PoolOutcome (Option ℤ) → Type 0
  Ends o = ((o.0 ≡ ok none) × All (λ r. r.exited ≡ none) ev.rounds) ⊎ (Returns j o ⊎ Escapes j ev o)

  watched-Ends :
      (p : ResourcePool) (st : Status)
      → status_of j p ≡ ok st
      → st.state ≡ running
      → All (λ r. LeavesStatus j r.others) ev.rounds
      → Ends (conclude j ev (watch j false ev.rounds p))
  watched-Ends p st e r h =
      let (kept, ran) = watch-status j false ev.rounds p st h e in
      elim (conclude-Returns (watch j false ev.rounds p).0 (watch j false ev.rounds p).1 st kept
        r) [ inl (u, o) ↦ inl (o, ran u) | inr done ↦ inr (inl done) ]

  not_spawned-Returns :
      (message : Text) (p : ResourcePool) (st : Status)
      → status_of j p ≡ ok st
      → st.state ≡ running
      → Returns j (
          bind (in_store (append_log j message) p) λ _ p₃.
            bind (in_store (finish j (pos 127) ev.utc_now) p₃) λ _ p₄. (ok (some (pos 127)), p₄))
  unfolding bind finish may_transition
  not_spawned-Returns message p st e r =
      let g = in_store-append_log j message p st e in
      rw g.outcome (
        Returns-final j failed _ ev.utc_now g.after st (pos 127) g.status (rw r refl) refl refl
          (λ u. absurd (cc)))

  run_command-Ends :
      (p : ResourcePool) (st : Status)
      → status_of j p ≡ ok st
      → st.state ≡ queued
      → All (λ r. LeavesStatus j r.others) ev.rounds
      → Ends (run_command j ev p)
  unfolding run_command bind may_transition
  run_command-Ends p st e q h =
      let g₁ =
        in_store-transition j running
          (record no_details { pid = some ev.pid; started_at = some (epoch ev.time) }) ev.utc_now p
          st e (rw q refl) in
      let g₂ = in_store-append_log j [] g₁.after _ g₁.status in
      rw g₁.outcome (rw g₂.outcome (by_spawn g₂.after _ g₂.status refl ev.spawn refl))
    where
      by_spawn :
          (p : ResourcePool) (st : Status)
          → status_of j p ≡ ok st
          → st.state ≡ running
          → (end : Spawn) → ev.spawn ≡ end
          → Ends (elim end as (λ _. PoolOutcome (Option ℤ)) [
            | spawned ↦ conclude j ev (watch j false ev.rounds p)
            | rejected ↦ (err spawn_rejected, p)
            | spawn_failed message ↦ bind (in_store (append_log j message) p) λ _ p₃.
                bind (in_store (finish j (pos 127) ev.utc_now) p₃) λ _ p₄. (ok (some (pos 127)), p₄)
          ])
      by_spawn p st e r spawned x = watched-Ends p st e r h
      by_spawn p st e r (spawn_failed message) x = inr (inl (not_spawned-Returns message p st e r))
      by_spawn p st e r rejected x =
          inr (inr (record { cause = x; raised = refl; left = st; recorded = e; state = r }))

  finally-Ends :
      (o : PoolOutcome (Option ℤ))
      → Ends o
      → (((finally j o).0 ≡ ok none) × All (λ r. r.exited ≡ none) ev.rounds)
        ⊎ ((Returns j (finally j o) ⊎ Escapes j ev (finally j o))
            × (held j (finally j o).1.slots ≡ 0))
  unfolding finally
  finally-Ends (r, p) (inl (n, ran)) = rw n (inl (refl, ran))
  finally-Ends (r, p) (inr (inl (code, n, done))) =
      let (_, _, free) = release_lem j p.slots in
      rw n (
        inr (
          inl (
            code,
            refl,
            record {
              result = done.result;
              recorded = done.recorded;
              final = done.final;
              exit_code = done.exit_code;
              passes = done.passes;
            },
          ),
          ground (arith, free j, text_eq_refl j),
        ))
  finally-Ends (r, p) (inr (inr broken)) =
      let (_, _, free) = release_lem j p.slots in
      rw broken.raised (
        inr (
          inr (record {
            cause = broken.cause;
            raised = refl;
            left = broken.left;
            recorded = broken.recorded;
            state = broken.state;
          }),
          ground (arith, free j, text_eq_refl j),
        ))

  -- An admitted job is queued, and only its worker changes its status; its files can be written and
  -- the free space can be read. Then its process has run through all the rounds that are given, or
  -- `run_job` returns an exit code: the job's status is final with this exit code, and passed only
  -- if the code is 0. This includes a set-up that fails, an OSError of the spawn, a request to
  -- cancel and too little free space. Or the spawn raises ValueError: the worker raises it too, and
  -- the job stays behind as running. In the last two cases the job holds no slot any more.
  pub after_wait-Ends :
      (spec : JobSpec) (lease : ResourceLease) (p : ResourcePool) (st : Status)
      → status_of j p ≡ ok st
      → st.state ≡ queued
      → All (λ r. LeavesStatus j r.others) ev.rounds
      → (((after_wait j spec ev (ok (some lease), p)).0 ≡ ok none)
          × All (λ r. r.exited ≡ none) ev.rounds)
        ⊎ ((Returns j (after_wait j spec ev (ok (some lease), p))
              ⊎ Escapes j ev (after_wait j spec ev (ok (some lease), p)))
            × (held j (after_wait j spec ev (ok (some lease), p)).1.slots ≡ 0))
  unfolding after_wait work
  after_wait-Ends spec lease p st e q h =
      finally-Ends (work j spec ev p) (body (setup spec ev) refl)
    where
      body : (r : Result Error (Unit {0})) → setup spec ev ≡ r → Ends (work j spec ev p)
      body (ok u) s = rw (s, work) (run_command-Ends p st e q h)
      body (err x) s = rw (s, work) (inr (inl (setup_failed-Returns p st e q)))
