-- ===== src/JobWorker/Waiting.antt =====
-- What `wait` does to the status of its job, and the whole of `run_job`.
use remote_worktree_runner.Scheduler.Stale.{job_of, supersede_tickets, supersede_session}
use remote_worktree_runner.Scheduler.Pool.{
  permits_for, wait_on, ResourcePool, PoolOutcome, Clock, admitted, waiting, prune_pool,
  supersede_pool, after, file_ticket, checked, filed, begin_wait, try_head, admit_head, try_admit,
  poll, poll_rounds, wait, Admission, cancel_seen,
}
use remote_worktree_runner.Prelude.{
  ℕ, ◌≡◌, refl, ◌∙◌, inl, inr, Bool, true, false, Option, none, some, List, [], ◌∷◌, arith,
  Bool-cases, Option-cases, All, Text, codes, Result, ok, err,
}
use mathlib.Core.Path.{subst}
use remote_worktree_runner.Errors.{Error}
use remote_worktree_runner.JobStore.State.{
  queued, cancelled, ℤ, pos, iso, no_details, Status, may_transition,
}
use remote_worktree_runner.JobStore.Spec.{JobSpec}
use remote_worktree_runner.JobStore.{Store, load, status, request_cancel}
use remote_worktree_runner.JobStore.Life.{status-request_cancel}
use remote_worktree_runner.Scheduler.Tickets.{Queue}
use remote_worktree_runner.Scheduler.Slots.{ResourceLease}
use remote_worktree_runner.JobWorker.{
  Events, bind, in_store, after_wait, run_job, is_scheduler_cancelled,
}
use remote_worktree_runner.JobWorker.Keeps.{status_of, LeavesStatus, status_of-eq-ok}
use remote_worktree_runner.JobWorker.Ending.{Finished, Returns, Returns-final, after_wait-Ends}

module _ (k : Text) where
  supersede_tickets-status :
      (w : Option (Text → Bool)) (j session : Text) (q : Queue) (s : Store)
      → status k (supersede_tickets w j session q s).2 ≡ status k s
  unfolding supersede_tickets
  supersede_tickets-status w j session [] s = refl
  supersede_tickets-status w j session (f ∷ q) s = elim (Option-cases f.body) [
    | inl e ↦ ground (arith, supersede_tickets-status w j session q s)
    | inr (t, e) ↦ ground (
      arith,
      supersede_tickets-status w j session q s,
      supersede_tickets-status w j session q (request_cancel (job_of t) s).1,
      status-request_cancel (job_of t) k s,
    )
  ]

  -- A call on the pool keeps what is recorded for the job.
  abbrev Same {ℓ} : {A : Type ℓ} → ResourcePool → PoolOutcome A → Type 0
  Same p o = status_of k o.1 ≡ status_of k p

  after-Same {ℓ} :
      {A B : Type ℓ} (p : ResourcePool) (o : PoolOutcome A) (f : ResourcePool → PoolOutcome B)
      → Same p o
      → ((q : ResourcePool) → status_of k q ≡ status_of k p → Same p (f q))
      → Same p (after o f)
  unfolding after
  after-Same p (err e, q) f s h = s
  after-Same p (ok a, q) f s h = h q s

  supersede_pool-Same :
      (j : Text) (session : Option Text) (p : ResourcePool) → Same p (supersede_pool j session p)
  unfolding supersede_pool supersede_session
  supersede_pool-Same j none p = refl
  supersede_pool-Same j (some session) p = elim (Option-cases p.store) [
    | inl e ↦ rw (e, supersede_session) refl
    | inr (s, e) ↦
        rw (e, supersede_session) (supersede_tickets-status p.worker_inactive j session p.queue s)
  ]

  file_ticket-Same :
      (j : Text) (n : ℕ) (session : Option Text) (clock : Clock) (p : ResourcePool)
      → Same p (file_ticket j n session clock p)
  unfolding file_ticket prune_pool
  file_ticket-Same j n session clock p = after-Same p (prune_pool p) _ refl λ p₁ s.
      after-Same p (supersede_pool j session p₁) _ (supersede_pool-Same j session p₁ ∙ s)
        λ p₂ s'. s'

  begin_wait-Same :
      (j weight : Text) (session : Option Text) (clock : Clock) (p : ResourcePool)
      → Same p (begin_wait j weight session clock p)
  unfolding begin_wait checked filed
  begin_wait-Same j weight session clock p =
      ground (arith, file_ticket-Same j (permits_for weight p) session clock p)

  try_head-Same : (j : Text) (n : ℕ) (q : Queue) (p : ResourcePool) → Same p (try_head j n q p)
  unfolding try_head admit_head
  try_head-Same j n [] p = refl
  try_head-Same j n (f ∷ q) p = ground arith

  poll-Same :
      (j : Text) (n : ℕ) (cancelled : Bool) (p : ResourcePool) → Same p (poll j n cancelled p)
  unfolding poll try_admit prune_pool
  poll-Same j n true p = refl
  poll-Same j n false p =
      after-Same p (prune_pool p) _ refl λ p₁ s. try_head-Same j n p₁.queue p₁ ∙ s

  poll_rounds-Same :
      (j : Text) (n : ℕ) (rounds : List (ResourcePool → ResourcePool)) (p : ResourcePool)
      → All (LeavesStatus k) rounds
      → Same p (poll_rounds j n rounds p)
  unfolding poll_rounds
  poll_rounds-Same j n [] p h = refl
  poll_rounds-Same j n (others ∷ rounds) p (keeps, h) =
      let cancelled = cancel_seen j (others p).store in
      let round = poll-Same j n cancelled (others p) in
      let ih = poll_rounds-Same j n rounds (poll j n cancelled (others p)).1 h in
      ground (arith, keeps p, round, ih)

  wait-Same :
      (j weight : Text) (session : Option Text) (clock : Clock)
      (rounds : List (ResourcePool → ResourcePool)) (p : ResourcePool)
      → All (LeavesStatus k) rounds
      → Same p (wait j weight session clock rounds p)
  unfolding wait
  wait-Same j weight session clock rounds p h =
      by_start (begin_wait j weight session clock p) (begin_wait-Same j weight session clock p)
    where
      by_start : (o : PoolOutcome Admission) → Same p o → Same p (wait_on j rounds o)
      by_start (err e, q) s = s
      by_start (ok (admitted lease), q) s = s
      by_start (ok (waiting n), q) s = poll_rounds-Same j n rounds q h ∙ s

-- A worker whose wait has ended returns an exit code only with the job finished.
after_wait-Finished :
    (j : Text) (spec : JobSpec) (ev : Events) (o : PoolOutcome (Option ResourceLease)) (st : Status)
    → status_of j o.1 ≡ ok st
    → st.state ≡ queued
    → All (λ r. LeavesStatus j r.others) ev.rounds
    → (code : ℤ) → (after_wait j spec ev o).0 ≡ ok (some code)
    → Finished j code (after_wait j spec ev o).1
unfolding after_wait may_transition
after_wait-Finished j spec ev o st e q h code r = by_wait o e r
  where
    returned :
        (o : PoolOutcome (Option ℤ)) → Returns j o → o.0 ≡ ok (some code) → Finished j code o.1
    returned o (code', r', done) r =
        let same : code' ≡ code = cc (r, r') in subst (λ c. Finished j c o.1) same done

    by_wait :
        (o : PoolOutcome (Option ResourceLease))
        → status_of j o.1 ≡ ok st
        → (after_wait j spec ev o).0 ≡ ok (some code)
        → Finished j code (after_wait j spec ev o).1
    by_wait (ok none, p) e r = absurd (cc)
    by_wait (ok (some lease), p) e r = elim (after_wait-Ends j ev spec lease p st e q h) [
      | inl (runs, _) ↦ absurd (cc)
      | inr (inl done, _) ↦ returned _ done r
      | inr (inr broken, _) ↦ let raised = broken.raised in absurd (cc)
    ]
    by_wait (err x, p) e r = elim (Bool-cases (is_scheduler_cancelled x)) [
      | inl c ↦
          let left =
            Returns-final j cancelled
              (record no_details {
                exit_code = some (pos 130);
                reason = some (codes "cancelled while queued");
                finished_at = some (iso ev.utc_now);
              })
              ev.utc_now p st (pos 130) e (rw q refl) refl refl (λ u. absurd (cc)) in
          rw c (returned _ left (rw c at r))
      | inr c ↦ let raised = rw c at r in absurd (cc)
    ]

run_job-loaded :
    (j : Text) (ev : Events) (p : ResourcePool) (s : Store) (spec : JobSpec)
    → p.store ≡ some s
    → load ev.utc_now j s ≡ ok spec
    → run_job j ev p
      ≡ after_wait j spec ev
          (wait j spec.weight spec.session ev.clock ev.waiting (record p { store = some s }))
unfolding run_job bind in_store
run_job-loaded j ev p s spec here l = rw (here, l) refl

-- If a job is queued and only its worker changes its status, then whenever `run_job` returns an
-- exit code, the job's status is final with this exit code, and it is passed only if the code is 0:
-- also when it was cancelled while it waited, whatever other jobs were filed, superseded and
-- admitted meanwhile.
pub run_job-Finished :
    (j : Text) (ev : Events) (p : ResourcePool) (st : Status)
    → status_of j p ≡ ok st
    → st.state ≡ queued
    → All (LeavesStatus j) ev.waiting
    → All (λ r. LeavesStatus j r.others) ev.rounds
    → (code : ℤ) → (run_job j ev p).0 ≡ ok (some code)
    → Finished j code (run_job j ev p).1
unfolding run_job bind in_store
run_job-Finished j ev p st e q before during code r =
    let (s, here, known) = status_of-eq-ok j p st e in
    by_spec s here known (load ev.utc_now j s) refl
  where
    by_spec :
        (s : Store)
        → p.store ≡ some s
        → status j s ≡ ok st
        → (l : Result Error JobSpec) → load ev.utc_now j s ≡ l
        → Finished j code (run_job j ev p).1
    by_spec s here known (err x) l = absurd (let raised = rw (here, l) at r in cc)
    by_spec s here known (ok spec) l =
        let loaded = run_job-loaded j ev p s spec here l in
        let waited =
          wait-Same j j spec.weight spec.session ev.clock ev.waiting (record p { store = some s })
            before in
        rw loaded
          (after_wait-Finished j spec ev _ st (waited ∙ known) q during code (rw loaded at r))
