-- ===== src/JobWorker/Keeps.antt =====
-- What the calls of `run_job` do to the status of its job.
use remote_worktree_runner.JobWorker.{is_cancel}
use remote_worktree_runner.Scheduler.Pool.{cancel_seen}
use remote_worktree_runner.JobWorker.{is_warning}
use remote_worktree_runner.Prelude.{
  ◌≡◌, refl, ap, ◌∙◌, inl, inr, Bool, true, false, not, ◌&&◌, ◌||◌, none, some, List, [], ◌∷◌,
  arith, if◌then◌else◌, Bool-cases, Option-cases, All, Text, codes, Result, ok, err,
}
use remote_worktree_runner.Errors.{Error, file_missing}
use remote_worktree_runner.JobStore.State.{JobState, Details, Status, may_transition}
use remote_worktree_runner.JobStore.{Store, update, read, status, transition}
use remote_worktree_runner.JobStore.Access.{status-eq-ok, lookup-update_self}
use remote_worktree_runner.JobStore.Transitions.{moved, transition_lem}
use remote_worktree_runner.Scheduler.Pool.{ResourcePool, PoolOutcome}
use remote_worktree_runner.JobWorker.{Round, in_store, append_log, logged, warn, unfinished, watch}

-- The status of a job in the store of a pool.
abbrev pub status_of : Text → ResourcePool → Result Error Status
status_of j p = elim p.store [ none ↦ err file_missing | some s ↦ status j s ]

-- The call returns `a`, leaves the slots, and then the job has the status `y`.
pub record Gives {ℓ} {A : Type ℓ} (j : Text) (y : Status) (p : ResourcePool) (a : A)
    (o : PoolOutcome A) : Type ℓ where
  pub after : ResourcePool
  pub outcome : o ≡ (ok a, after)
  pub status : status_of j after ≡ ok y
  pub slots : after.slots ≡ p.slots

pub status_of-eq-ok :
    (j : Text) (p : ResourcePool) (st : Status)
    → status_of j p ≡ ok st
    → (s : Store) × (p.store ≡ some s) × (status j s ≡ ok st)
status_of-eq-ok j p st e = elim (Option-cases p.store) [
  | inl missing ↦ absurd (ground arith)
  | inr (s, here) ↦ (s, here, ground arith)
]

pub in_store-transition :
    (j : Text) (new : JobState) (x : Details) (now : Text) (p : ResourcePool) (st : Status)
    → status_of j p ≡ ok st
    → may_transition st.state new ≡ true
    → Gives j (moved st new x now) p (moved st new x now) (in_store (transition j new x now) p)
unfolding in_store
in_store-transition j new x now p st e h =
    let (s, here, known) = status_of-eq-ok j p st e in
    let (made, written) = (transition_lem j new x now s st known).0 h in
    record {
      after = record p { store = some (transition j new x now s).1 };
      outcome =
          rw here (ap (λ r. (r, record p { store = some (transition j new x now s).1 })) made);
      status = written;
      slots = refl;
    }

status-logged :
    (j message : Text) (s : Store) (st : Status)
    → status j s ≡ ok st
    → status j (update j (logged message) s) ≡ ok st
unfolding status
status-logged j message s st e =
    let (d, found, stored, valid) = status-eq-ok j s st e in
    let found' = lookup-update_self j (logged message) d s found in
    rw (valid, found') (ap read stored)

pub in_store-append_log :
    (j message : Text) (p : ResourcePool) (st : Status)
    → status_of j p ≡ ok st
    → Gives j st p tt (in_store (append_log j message) p)
unfolding in_store append_log
in_store-append_log j message p st e =
    let (s, here, known) = status_of-eq-ok j p st e in
    let (d, found, stored, valid) = status-eq-ok j s st known in
    record {
      after = record p { store = some (update j (logged message) s) };
      outcome = rw (here, valid, found) refl;
      status = status-logged j message s st known;
      slots = refl;
    }

status_of-warn :
    (j : Text) (p : ResourcePool) (st : Status)
    → status_of j p ≡ ok st
    → status_of j (warn j p) ≡ ok st
unfolding warn
status_of-warn j p st e =
    let (s, here, known) = status_of-eq-ok j p st e in
    rw here (
      status-logged j (codes "[trie-runner] warning: server disk below warning threshold") s st
        known)

-- The others leave the status of the job; they may request its cancellation, and do what they like
-- to other jobs.
abbrev pub LeavesStatus : Text → (ResourcePool → ResourcePool) → Type 0
LeavesStatus j others = (p : ResourcePool) → status_of j (others p) ≡ status_of j p

status_of-warned :
    (b : Bool) (j : Text) (p : ResourcePool) (st : Status)
    → status_of j p ≡ ok st
    → status_of j (if b then warn j p else p) ≡ ok st
status_of-warned true j p st e = status_of-warn j p st e
status_of-warned false j p st e = e

pub watch-status :
    (j : Text) (warned : Bool) (rounds : List Round) (p : ResourcePool) (st : Status)
    → All (λ r. LeavesStatus j r.others) rounds
    → status_of j p ≡ ok st
    → (status_of j (watch j warned rounds p).1 ≡ ok st)
      × ((watch j warned rounds p).0 ≡ unfinished → All (λ r. r.exited ≡ none) rounds)
unfolding watch
watch-status j warned [] p st h e = (e, λ _. tt)
watch-status j warned (r ∷ rounds) p st (k, h) e =
    let kept = k p ∙ e in
    let warns = not warned && is_warning r.pressure in
    let ih =
      watch-status j (warned || warns) rounds (if warns then warn j (r.others p) else r.others p) st
        h (status_of-warned warns j (r.others p) st kept) in
    elim (Option-cases r.exited) [
      | inr (code, x) ↦ rw x (kept, λ u. absurd (cc))
      | inl x ↦ elim (Bool-cases (cancel_seen j (r.others p).store || is_cancel r.pressure)) [
        | inl c ↦ rw (x, c) (kept, λ u. absurd (cc))
        | inr c ↦ rw (x, c) (ih.0, λ u. (refl, ih.1 u))
      ]
    ]

pub in_store-status :
    (j : Text) (p : ResourcePool) (st : Status)
    → status_of j p ≡ ok st
    → Gives j st p st (in_store (λ s. (status j s, s)) p)
unfolding in_store
in_store-status j p st e =
    let (s, here, known) = status_of-eq-ok j p st e in
    record {
      after = record p { store = some s };
      outcome = rw here (ap (λ r. (r, record p { store = some s })) known);
      status = known;
      slots = refl;
    }
