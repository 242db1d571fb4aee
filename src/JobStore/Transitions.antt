-- ===== src/JobStore/Transitions.antt =====
-- `JobStore.transition`, `finish` and `create` on every branch.
use remote_worktree_runner.Prelude.{
  ℕ, zero, suc, ◌≡◌, refl, sym, ap, ◌∙◌, ◌≢◌, ◌↔◌, true, false, none, some, arith, Text, Result, ok,
  err, lookup, insert,
}
use remote_worktree_runner.Errors.{Error, file_exists, invalid_transition}
use remote_worktree_runner.Common.{is_identifier, validate_identifier}
use remote_worktree_runner.JobStore.State.{
  JobState, preparing, running, passed, ℤ, pos, negsuc, Details, Status, may_transition, merge,
}
use remote_worktree_runner.JobStore.Spec.{JobSpec}
use remote_worktree_runner.JobStore.{
  JobFiles, Store, empty_directory, creation, perform, make_directory, create, status, transition,
  finish, final_state, advance, write_status,
}
use remote_worktree_runner.JobStore.Access.{
  lookup-update_self, lookup-update_ne, status-eq-ok, transition-eq-ok, transition-eq-err,
}

-- The status that a permitted transition leaves.
abbrev pub moved : Status → JobState → Details → Text → Status
moved old new x now = record old {
  state = new;
  updated_at = some now;
  details = merge old.details x;
}

transition-permitted :
    (j : Text) (new : JobState) (x : Details) (now : Text) (s : Store) (old : Status)
    → status j s ≡ ok old
    → may_transition old.state new ≡ true
    → (transition j new x now s).0 ≡ ok (moved old new x now)
unfolding transition write_status advance
transition-permitted j new x now s old e h = ground arith

transition-refused :
    (j : Text) (new : JobState) (x : Details) (now : Text) (s : Store) (old : Status)
    → status j s ≡ ok old
    → may_transition old.state new ≡ false
    → (transition j new x now s).0 ≡ err invalid_transition
unfolding transition write_status advance
transition-refused j new x now s old e h = ground arith

-- After a transition that was made, the status file holds its result.
pub status-transition :
    (j : Text) (new : JobState) (x : Details) (now : Text) (s : Store) (st : Status)
    → (transition j new x now s).0 ≡ ok st
    → status j (transition j new x now s).1 ≡ ok st
unfolding status
status-transition j new x now s st h =
    let (old, p, q, e) = transition-eq-ok j new x now s st h in
    let (d, found, _, valid) = status-eq-ok j s old p in
    let found' = lookup-update_self j (λ d. record d { status = some st }) d s found in
    rw (e, valid, found')

lookup-write_status_ne :
    (r : Result Error Status) (j k : Text) (s : Store)
    → j ≢ k
    → lookup k (write_status r j s).1 ≡ lookup k s
unfolding write_status
lookup-write_status_ne (ok st) j k s h =
    lookup-update_ne j k (λ d. record d { status = some st }) s h
lookup-write_status_ne (err e) j k s h = refl

-- No other directory is touched, whether the transition is made or refused.
pub lookup-transition_ne :
    (j k : Text) (new : JobState) (x : Details) (now : Text) (s : Store)
    → j ≢ k
    → lookup k (transition j new x now s).1 ≡ lookup k s
unfolding transition
lookup-transition_ne j k new x now s h = lookup-write_status_ne _ j k s h

-- From a readable status, `transition` succeeds exactly if the table permits the step. It then
-- returns and stores the old status with the new state, the new details over the old ones and the
-- new time. Otherwise it raises and leaves the store as it was. Either way every other job's
-- directory is unchanged.
pub transition_lem :
    (j : Text) (new : JobState) (x : Details) (now : Text) (s : Store) (old : Status)
    → status j s ≡ ok old
    → (may_transition old.state new ≡ true
        → ((transition j new x now s).0 ≡ ok (moved old new x now))
          × (status j (transition j new x now s).1 ≡ ok (moved old new x now)))
      × (may_transition old.state new ≡ false
          → ((transition j new x now s).0 ≡ err invalid_transition)
            × ((transition j new x now s).1 ≡ s))
      × ((k : Text) → j ≢ k → lookup k (transition j new x now s).1 ≡ lookup k s)
transition_lem j new x now s old e = (
  λ h.
      let made = transition-permitted j new x now s old e h in
      (made, status-transition j new x now s _ made),
  λ h.
      let refused = transition-refused j new x now s old e h in
      (refused, transition-eq-err j new x now s _ refused),
  λ k h. lookup-transition_ne j k new x now s h,
)

pub advance-eq-ok :
    (old st : Status) (new : JobState) (x : Details) (now : Text)
    → advance old new x now ≡ ok st
    → (may_transition old.state new ≡ true) × (st ≡ moved old new x now)
unfolding advance
advance-eq-ok old st new x now h = ground arith

pub final_state-passed : (code : ℤ) → (final_state code ≡ passed) ↔ (code ≡ pos 0)
final_state-passed (pos zero) = (λ _. refl, λ _. refl)
final_state-passed (pos (suc n)) = (λ h. absurd (cc), λ h. absurd (omega (arith, ap magnitude h)))
  where
    magnitude : ℤ → ℕ
    magnitude (pos n) = n
    magnitude (negsuc n) = n
final_state-passed (negsuc n) = (λ h. absurd (cc), λ h. absurd (cc))

passed_from_running : (old : JobState) → may_transition old passed ≡ true → old ≡ running
unfolding may_transition
passed_from_running running h = refl
passed_from_running preparing h = absurd (cc)
passed_from_running _ h = absurd (cc)

-- A job is recorded as passed only if it was running and its process exited with 0, and a job
-- that finishes with 0 is recorded as passed. The exit code is stored exactly.
pub finish-passed :
    (j : Text) (code : ℤ) (now : Text) (s : Store) (old st : Status)
    → status j s ≡ ok old
    → (finish j code now s).0 ≡ ok st
    → (status j (finish j code now s).1 ≡ ok st)
      × (st.details.exit_code ≡ some code)
      × ((st.state ≡ passed) ↔ (code ≡ pos 0))
      × (st.state ≡ passed → old.state ≡ running)
unfolding finish
finish-passed j code now s old st e h =
    let (before, p, q, _) = transition-eq-ok j _ _ now s st h in
    let (permitted, result) = advance-eq-ok before st _ _ now q in
    let same : st.state ≡ final_state code = ap (λ (t : Status). t.state) result in
    let (passed→zero, zero→passed) = final_state-passed code in
    (
      status-transition j _ _ now s st h,
      unfold merge in ap (λ (t : Status). t.details.exit_code) result,
      (λ r. passed→zero (sym same ∙ r), λ r. same ∙ zero→passed r),
      λ r.
          passed_from_running old.state
            (let b : old ≡ before = cc (e, p) in cc (b, permitted, same, r)),
    )

-- `create` by the directory that it finds.
pub create-new :
    (spec : JobSpec) (s : Store)
    → is_identifier spec.job_id ≡ true
    → lookup spec.job_id s ≡ none
    → create spec s
      ≡ (ok spec.job_id, insert spec.job_id (perform (creation spec) empty_directory) s)
unfolding create validate_identifier
create-new spec s v e = rw (v, e, make_directory)

pub create-existing :
    (spec : JobSpec) (s : Store) (d : JobFiles)
    → is_identifier spec.job_id ≡ true
    → lookup spec.job_id s ≡ some d
    → create spec s ≡ (err file_exists, s)
unfolding create validate_identifier
create-existing spec s d v e = rw (v, e, make_directory)
