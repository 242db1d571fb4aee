-- ===== src/JobStore/Life.antt =====
-- The life of a job: any sequence of calls on the store, by any processes, as a relation.
use remote_worktree_runner.Prelude.{
  ℕ, ◌≤◌, ◌<◌, ◌≡◌, refl, sym, ap, ◌∙◌, ◌⊎◌, inl, inr, true, some, arith, Option-cases, Text,
  text_eq_iff, text_eq_cases, Result, ok, err, lookup, lookup-insert,
}
use remote_worktree_runner.Errors.{Error}
use remote_worktree_runner.Common.{validate_identifier}
use remote_worktree_runner.JobStore.State.{
  JobState, preparing, queued, running, passed, Details, Status, is_final, may_transition,
}
use remote_worktree_runner.JobStore.Spec.{JobSpec}
use remote_worktree_runner.JobStore.{
  JobFiles, Store, empty_directory, creation, perform, create, status, transition, request_cancel,
  update, job_directory,
}
use remote_worktree_runner.JobStore.Access.{
  status-lookup, status-eq-ok, transition-eq-ok, transition-eq-err,
}
use remote_worktree_runner.JobStore.Transitions.{
  advance-eq-ok, status-transition, lookup-transition_ne,
}

-- One call on the store. `finish` is a transition.
pub data Step (s : Store) : Store → Type 0 where
  creates : (spec : JobSpec) → Step s (create spec s).1
  transitions :
      (j : Text) (new : JobState) (x : Details) (now : Text) → Step s (transition j new x now s).1
  cancels : (j : Text) → Step s (request_cancel j s).1

pub data Reach (s : Store) : Store → Type 0 where
  here : Reach s s
  next : {t u : Store} → Reach s t → Step t u → Reach s u

-- How far a job has come.
abbrev pub rank : JobState → ℕ
rank preparing = 0
rank queued = 1
rank running = 2
rank _ = 3

rank-may_transition : (a b : JobState) → may_transition a b ≡ true → rank a < rank b
unfolding may_transition
rank-may_transition preparing queued h = omega arith
rank-may_transition preparing b h = ground arith
rank-may_transition queued b h = ground arith
rank-may_transition running b h = ground arith
rank-may_transition _ b h = absurd (cc)

-- A later status of one job: the same, or one of a further state for the same creation.
abbrev pub Later : Status → Status → Type 0
Later x y = (y ≡ x) ⊎ ((rank x.state < rank y.state) × (y.created_at ≡ x.created_at))

Later-trans : (x y z : Status) → Later x y → Later y z → Later x z
Later-trans x y z h k = ground arith

-- A call whose change keeps the directory of `j` keeps its status.
kept :
    (j : Text) (s t : Store) (x : Status)
    → status j s ≡ ok x
    → lookup j t ≡ lookup j s
    → (y : Status) × (status j t ≡ ok y) × Later x y
kept j s t x e same = (x, status-lookup j s t same ∙ e, inl refl)

transition-Later_self :
    (j : Text) (new : JobState) (d : Details) (now : Text) (s : Store) (x : Status)
    → status j s ≡ ok x
    → (y : Status) × (status j (transition j new d now s).1 ≡ ok y) × Later x y
transition-Later_self j new d now s x e = outcome _ refl
  where
    outcome :
        (r : Result Error Status)
        → (transition j new d now s).0 ≡ r
        → (y : Status) × (status j (transition j new d now s).1 ≡ ok y) × Later x y
    outcome (err f) h = kept j s _ x e (ap (lookup j) (transition-eq-err j new d now s f h))
    outcome (ok st) h =
        let (old, p, q, _) = transition-eq-ok j new d now s st h in
        let (permitted, result) = advance-eq-ok old st new d now q in
        let same : old ≡ x = cc (e, p) in
        let further : rank old.state < rank new = rank-may_transition old.state new permitted in
        (st, status-transition j new d now s st h, inr (ground arith, ground arith))

transition-Later :
    (j k : Text) (new : JobState) (d : Details) (now : Text) (s : Store) (x : Status)
    → status k s ≡ ok x
    → (y : Status) × (status k (transition j new d now s).1 ≡ ok y) × Later x y
transition-Later j k new d now s x e = elim (text_eq_cases j k) [
  | inr (_, ne) ↦ kept k s _ x e (lookup-transition_ne j k new d now s ne)
  | inl (_, same) ↦ rw same (transition-Later_self k new d now s x e)
]

lookup-create :
    (spec : JobSpec) (k : Text) (s : Store) (d : JobFiles)
    → lookup k s ≡ some d
    → lookup k (create spec s).1 ≡ some d
unfolding create validate_identifier
lookup-create spec k s d e = ground (
  arith,
  lookup-insert spec.job_id k (perform (creation spec) empty_directory) s,
  text_eq_iff spec.job_id k,
)

create-Later :
    (spec : JobSpec) (k : Text) (s : Store) (x : Status)
    → status k s ≡ ok x
    → (y : Status) × (status k (create spec s).1 ≡ ok y) × Later x y
create-Later spec k s x e =
    let (d, found, _, _) = status-eq-ok k s x e in
    kept k s _ x e (lookup-create spec k s d found ∙ sym found)

pub status-request_cancel : (j k : Text) (s : Store) → status k (request_cancel j s).1 ≡ status k s
unfolding request_cancel status validate_identifier update job_directory
status-request_cancel j k s = elim (Option-cases (lookup j s)) [
  | inl e ↦ ground arith
  | inr (d, e) ↦
      ground (arith, lookup-insert j k (record d { cancel_requested = true }) s, text_eq_iff j k)
]

Step-Later :
    {s t : Store} (k : Text) (x : Status)
    → Step s t
    → status k s ≡ ok x
    → (y : Status) × (status k t ≡ ok y) × Later x y
Step-Later {s} k x (creates spec) e = create-Later spec k s x e
Step-Later {s} k x (transitions j new d now) e = transition-Later j k new d now s x e
Step-Later {s} k x (cancels j) e = (x, status-request_cancel j k s ∙ e, inl refl)

-- Whatever calls are made, a job's record is never lost: its status stays readable, and it is the
-- same record, or one whose state is further along preparing, queued, running, final.
pub Reach-Later :
    {s t : Store} (k : Text) (x : Status)
    → Reach s t
    → status k s ≡ ok x
    → (y : Status) × (status k t ≡ ok y) × Later x y
Reach-Later k x here e = (x, e, inl refl)
Reach-Later k x (next r st) e =
    let (y, p, h) = Reach-Later k x r e in
    let (z, q, i) = Step-Later k y st p in (z, q, Later-trans x y z h i)

rank-le : (a : JobState) → rank a ≤ 3
rank-le preparing = omega arith
rank-le _ = omega arith

rank-is_final : (a : JobState) → is_final a ≡ true → rank a ≡ 3
rank-is_final passed h = refl
rank-is_final preparing h = absurd (cc)
rank-is_final _ h = ground arith

-- The record of a finished job is frozen: after any calls it is read back unchanged.
pub final_frozen :
    {s t : Store} (k : Text) (x : Status)
    → is_final x.state ≡ true
    → Reach s t
    → status k s ≡ ok x
    → status k t ≡ ok x
final_frozen k x f r e =
    let (y, p, later) = Reach-Later k x r e in
    ground (arith, rank-is_final x.state f, rank-le y.state)
