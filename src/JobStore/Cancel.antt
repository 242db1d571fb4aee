-- ===== src/JobStore/Cancel.antt =====
-- What `request_cancel` changes, and what it leaves.
use remote_worktree_runner.Common.{validate_identifier}
use remote_worktree_runner.JobStore.{
  Store, update, exists, request_cancel, is_cancel_requested, job_directory,
}
use remote_worktree_runner.Prelude.{
  ◌≡◌, inl, inr, true, arith, Option-cases, Text, text_eq_iff, ok, lookup, lookup-insert,
  lookup-insert_self,
}

module _ (j : Text) (s : Store) where
  -- A request that returns is seen afterwards.
  pub request_cancel-seen :
      (name : Text)
      → (request_cancel j s).0 ≡ ok name
      → is_cancel_requested j (request_cancel j s).1 ≡ true
  unfolding request_cancel validate_identifier update job_directory
  request_cancel-seen name h = elim (Option-cases (lookup j s)) [
    | inl e ↦ absurd (ground arith)
    | inr (d, e) ↦ ground (arith, lookup-insert_self j (record d { cancel_requested = true }) s)
  ]

  -- A request that was there before is still there.
  pub request_cancel-keeps :
      (k : Text)
      → is_cancel_requested k s ≡ true
      → is_cancel_requested k (request_cancel j s).1 ≡ true
  unfolding request_cancel validate_identifier update job_directory
  request_cancel-keeps k h = elim (Option-cases (lookup j s)) [
    | inl e ↦ ground arith
    | inr (d, e) ↦
        ground (arith, lookup-insert j k (record d { cancel_requested = true }) s, text_eq_iff j k)
  ]

  pub exists-request_cancel : (k : Text) → exists k (request_cancel j s).1 ≡ exists k s
  unfolding request_cancel exists validate_identifier update job_directory
  exists-request_cancel k = elim (Option-cases (lookup j s)) [
    | inl e ↦ ground arith
    | inr (d, e) ↦
        ground (arith, lookup-insert j k (record d { cancel_requested = true }) s, text_eq_iff j k)
  ]
