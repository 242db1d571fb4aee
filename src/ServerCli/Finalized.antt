-- ===== src/ServerCli/Finalized.antt =====
-- What a reconciliation leaves.
use remote_worktree_runner.Scheduler.Units.{unit_is_inactive}
use remote_worktree_runner.Prelude.{
  List, Option, ◌≡◌, refl, ap, ◌≢◌, inl, inr, true, false, none, some, Bool-cases, Text, Result, ok,
  err,
}
use mathlib.Core.Path.{subst}
use remote_worktree_runner.Errors.{Error, is_value_error}
use remote_worktree_runner.JobStore.State.{cancelled, Status, is_final}
use remote_worktree_runner.JobStore.{Store, Outcome, status, transition}
use remote_worktree_runner.JobStore.Access.{transition-eq-ok}
use remote_worktree_runner.JobStore.Transitions.{status-transition, advance-eq-ok}
use remote_worktree_runner.ServerCli.Reconcile.{
  unit_of, gone, after_refusal, settle, finalize, reconcile_inactive_unit,
}

-- The job has the final status `st`.
abbrev pub Settled : Text → Status → Store → Type 0
Settled j st s = (status j s ≡ ok st) × (is_final st.state ≡ true)

after_refusal-Settled :
    (j : Text) (s : Store) (e : Error) (r : Result Error Status)
    → status j s ≡ r
    → (st : Status) → after_refusal e r ≡ ok (some st)
    → Settled j st s
unfolding after_refusal
after_refusal-Settled j s e (err x) known st h = absurd (cc)
after_refusal-Settled j s e (ok latest) known st h = elim (Bool-cases (is_final latest.state)) [
  | inl f ↦ let same : latest ≡ st = let h' = rw f at h in cc in (rw (← same) known, rw (← same) f)
  | inr f ↦ absurd (let h' = rw f at h in cc)
]

settle-Settled :
    (j : Text) (o : Outcome Status)
    → ((y : Status) → o.0 ≡ ok y → Settled j y o.1)
    → (st : Status) → (settle j o).0 ≡ ok (some st)
    → Settled j st (settle j o).1
unfolding settle
settle-Settled j (ok y, s) given st h =
    let same : y ≡ st = cc in subst (λ x. Settled j x s) same (given y refl)
settle-Settled j (err e, s) given st h = elim (Bool-cases (is_value_error e)) [
  | inl v ↦ rw v (after_refusal-Settled j s e (status j s) refl st (rw v at h))
  | inr v ↦ absurd (let h' = rw v at h in cc)
]

after_refusal-some : (e : Error) (r : Result Error Status) → after_refusal e r ≢ ok none
unfolding after_refusal
after_refusal-some e (err x) h = cc
after_refusal-some e (ok latest) h = elim (Bool-cases (is_final latest.state)) [
  | inl f ↦ let h' = rw f at h in cc
  | inr f ↦ let h' = rw f at h in cc
]

settle-some : (j : Text) (o : Outcome Status) → (settle j o).0 ≢ ok none
unfolding settle
settle-some j (ok y, s) h = cc
settle-some j (err e, s) h = elim (Bool-cases (is_value_error e)) [
  | inl v ↦ after_refusal-some e (status j s) (rw v at h)
  | inr v ↦ let h' = rw v at h in cc
]

module _ (j : Text) (raced : Store → Store) (now : Text) where
  transition-Settled :
      (s : Store) (y : Status)
      → (transition j cancelled (gone now) now s).0 ≡ ok y
      → Settled j y (transition j cancelled (gone now) now s).1
  transition-Settled s y h =
      let (old, _, made, _) = transition-eq-ok j cancelled (gone now) now s y h in
      let (_, result) = advance-eq-ok old y cancelled (gone now) now made in
      (
        status-transition j cancelled (gone now) now s y h,
        ap (λ (x : Status). is_final x.state) result,
      )

  finalize-Settled :
      (s : Store) (r : Result Error Status)
      → status j s ≡ r
      → ((st : Status)
          → (finalize j raced now r s).0 ≡ ok (some st)
          → Settled j st (finalize j raced now r s).1)
        × ((finalize j raced now r s).0 ≢ ok none)
  unfolding finalize
  finalize-Settled s (err e) known = (λ st h. absurd (cc), λ h. cc)
  finalize-Settled s (ok latest) known = elim (Bool-cases (is_final latest.state)) [
    | inl f ↦
        rw f (λ st h. let same : latest ≡ st = cc in (rw (← same) known, rw (← same) f), λ h. cc)
    | inr f ↦ rw f (
      settle-Settled j (transition j cancelled (gone now) now (raced s))
          (transition-Settled (raced s)),
      settle-some j (transition j cancelled (gone now) now (raced s)),
    )
  ]

  -- A job whose unit is active is left alone. For one whose unit is gone the reconciliation raises,
  -- or it returns a final status that the job then has, whatever other processes do to the store
  -- between its reading and its transition.
  pub reconcile_inactive_unit-Settled :
      (systemctl : Text → Option (List Text)) (st : Status) (s : Store)
      → (unit_is_inactive (systemctl (unit_of j st)) ≡ false
          → reconcile_inactive_unit systemctl j st raced now s ≡ (ok none, s))
        × (unit_is_inactive (systemctl (unit_of j st)) ≡ true
            → ((reconcile_inactive_unit systemctl j st raced now s).0 ≢ ok none)
              × ((final : Status)
                  → (reconcile_inactive_unit systemctl j st raced now s).0 ≡ ok (some final)
                  → Settled j final (reconcile_inactive_unit systemctl j st raced now s).1))
  unfolding reconcile_inactive_unit
  reconcile_inactive_unit-Settled systemctl st s =
      let (settles, some') = finalize-Settled s (status j s) refl in
      (λ h. rw h refl, λ h. rw h (some', settles))
