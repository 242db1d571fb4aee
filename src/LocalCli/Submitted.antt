-- ===== src/LocalCli/Submitted.antt =====
-- trie_remote/local_cli.py: a job that was reserved is cancelled when its transfer fails, and only
-- then.
use remote_worktree_runner.Prelude.{
  ◌≡◌, refl, ◌⊎◌, inl, inr, Bool, true, false, List, [], ◌∷◌, All, Text, codes, text_eq, Result, ok,
  err, ℤ,
}
use remote_worktree_runner.Errors.{Error, interrupted, detached}
use remote_worktree_runner.ServerWorkspace.{Completed}
use remote_worktree_runner.Effects.{lift, Ended, done, raised, ◌>>◌}
use remote_worktree_runner.Effects.Emits.{events, Emits, lift-Emits, >>=-Emits}
use remote_worktree_runner.Transport.{
  Call, Finish, ended, interrupt, not_started, run_uncaptured, Reservation, Remote, Transport,
  FinalStatus, finish_unchecked, run_unchecked, run_checked, reserve, reply, ssh_call, nothing,
  execute,
}
use remote_worktree_runner.LocalCli.Plan.{Local, Request, make_plan, Plan}
use remote_worktree_runner.LocalCli.Run.{
  run_worktrees, is_second_protocol, transfer, cancel_call, after_cancel, guard, guarded_transfer,
  after_execute, after_logs, follow_logs, status_code, follow, submit, logs_call,
}
use remote_worktree_runner.LocalCli.Guarded.{
  IsQuiet, run_checked-Emits, run_uncaptured-Emits, reserve-Emits, execute-Emits, transfer-Emits,
}

-- Everything that happened asks for no cancellation.
abbrev pub AreQuiet {ℓ} : {A : Type ℓ} → Ended Call A → Type 0
AreQuiet run = All IsQuiet (events run)

module _ (remote : Remote) (transport : Transport) where
  after_execute-AreQuiet :
      (run : Ended Call (ℤ × FinalStatus))
      → AreQuiet run
      → AreQuiet (after_execute remote transport run)
  unfolding events after_execute
  after_execute-AreQuiet (done (code, status) now) all = all
  after_execute-AreQuiet (raised detached now) all = all
  after_execute-AreQuiet (raised interrupted now) all = all
  after_execute-AreQuiet (raised _ now) all = all

  after_logs-AreQuiet :
      (run : Ended Call Completed) → AreQuiet run → AreQuiet (after_logs remote transport run)
  unfolding events after_logs
  after_logs-AreQuiet (done c now) all = all
  after_logs-AreQuiet (raised interrupted now) all = all
  after_logs-AreQuiet (raised _ now) all = all

  follow_logs-Emits : (job_id : Text) → Emits IsQuiet (follow_logs remote transport job_id)
  unfolding follow_logs IsQuiet text_eq
  follow_logs-Emits job_id start all =
      after_logs-AreQuiet
        (run_uncaptured remote transport (logs_call remote transport job_id) start)
        (run_uncaptured-Emits remote transport (logs_call remote transport job_id) refl start all)

  status-Emits :
      (job_id : Text)
      → Emits IsQuiet (
          run_checked remote transport
            (ssh_call remote transport (codes "status" ∷ job_id ∷ []) nothing))
  unfolding IsQuiet text_eq
  status-Emits job_id = run_checked-Emits remote transport _ refl

  follow-Emits :
      (job_id : Text) (second : Bool) → Emits IsQuiet (follow remote transport job_id second)
  unfolding follow
  follow-Emits job_id true start all =
      after_execute-AreQuiet (execute remote transport job_id start)
        (execute-Emits remote transport job_id start all)
  follow-Emits job_id false start all =
      >>=-Emits IsQuiet _ _ (follow_logs-Emits job_id)
        (λ _. >>=-Emits IsQuiet _ _ (status-Emits job_id) (λ result.
          >>=-Emits IsQuiet _ _ (lift-Emits IsQuiet (reply (remote.read_status result.stdout)))
            (λ status. lift-Emits IsQuiet (status_code remote transport status))))
        start all

  -- How a submission ends. It could not reserve the job; or the transfer raised, and the last call
  -- is the one cancellation; or the transfer went through and nothing was cancelled.
  pub data Submitted (plan : Plan) : Ended Call ℤ → Type 0 where
    unreserved :
        (e : Error) (now : List Call)
        → reserve remote transport plan.spec [] ≡ raised e now
        → All IsQuiet now
        → Submitted plan (raised e now)
    withdrawn :
        (reservation : Reservation) (e last : Error) (before now : List Call)
        → reserve remote transport plan.spec [] ≡ done reservation before
        → transfer remote transport plan reservation before ≡ raised e now
        → All IsQuiet now
        → (last ≡ e) ⊎ (last ≡ interrupted)
        → Submitted plan (raised last (cancel_call remote transport plan.spec.job_id ∷ now))
    followed :
        (reservation : Reservation) (before now : List Call) (run : Ended Call ℤ)
        → reserve remote transport plan.spec [] ≡ done reservation before
        → transfer remote transport plan reservation before ≡ done tt now
        → follow remote transport plan.spec.job_id
            (is_second_protocol reservation.protocol_version)
            now
          ≡ run
        → AreQuiet run
        → Submitted plan run

  data Guarded (plan : Plan) (reservation : Reservation) (before : List Call)
      : Ended Call (Unit {0}) → Type 0 where
    came_back :
        (now : List Call)
        → transfer remote transport plan reservation before ≡ done tt now
        → All IsQuiet now
        → Guarded plan reservation before (done tt now)
    caught :
        (e last : Error) (now : List Call)
        → transfer remote transport plan reservation before ≡ raised e now
        → All IsQuiet now
        → (last ≡ e) ⊎ (last ≡ interrupted)
        → Guarded plan reservation before
            (raised last (cancel_call remote transport plan.spec.job_id ∷ now))

  cancel-Guarded :
      (plan : Plan) (reservation : Reservation) (before : List Call) (e : Error) (now : List Call)
      (finish : Finish)
      → transfer remote transport plan reservation before ≡ raised e now
      → All IsQuiet now
      → Guarded plan reservation before (
          after_cancel remote transport e (
            finish_unchecked remote transport
              (cancel_call remote transport plan.spec.job_id)
              finish
              now))
  unfolding after_cancel finish_unchecked
  cancel-Guarded plan reservation before e now (ended c) h quiet = caught e e now h quiet (inl refl)
  cancel-Guarded plan reservation before e now interrupt h quiet =
      caught e interrupted now h quiet (inr refl)
  cancel-Guarded plan reservation before e now not_started h quiet =
      caught e e now h quiet (inl refl)

  guard-Guarded :
      (plan : Plan) (reservation : Reservation) (before : List Call) (run : Ended Call (Unit {0}))
      → transfer remote transport plan reservation before ≡ run
      → AreQuiet run
      → Guarded plan reservation before (guard remote transport plan.spec.job_id run)
  unfolding guard events run_unchecked
  guard-Guarded plan reservation before (done tt now) h quiet = came_back now h quiet
  guard-Guarded plan reservation before (raised e now) h quiet =
      cancel-Guarded plan reservation before e now
        (remote.run now (cancel_call remote transport plan.spec.job_id)) h quiet

  follow-Submitted :
      (plan : Plan) (reservation : Reservation) (before : List Call) (run : Ended Call (Unit {0}))
      → reserve remote transport plan.spec [] ≡ done reservation before
      → Guarded plan reservation before run
      → Submitted plan (elim run as (λ _. Ended Call ℤ) [
        | done _ now ↦
            follow remote transport plan.spec.job_id
              (is_second_protocol reservation.protocol_version)
              now
        | raised e now ↦ raised e now
      ])
  follow-Submitted plan reservation before _ r (came_back now h quiet) =
      followed reservation before now _ r h refl
        (follow-Emits plan.spec.job_id (is_second_protocol reservation.protocol_version) now quiet)
  follow-Submitted plan reservation before _ r (caught e last now h quiet which) =
      withdrawn reservation e last before now r h quiet which

  submit-from :
      (plan : Plan) (run : Ended Call Reservation)
      → reserve remote transport plan.spec [] ≡ run
      → AreQuiet run
      → Submitted plan (elim run as (λ _. Ended Call ℤ) [
        | done reservation now ↦
            (guarded_transfer remote transport plan reservation
                >> follow remote transport plan.spec.job_id
                    (is_second_protocol reservation.protocol_version))
              now
        | raised e now ↦ raised e now
      ])
  unfolding events guarded_transfer
  submit-from plan (done reservation before) h quiet =
      follow-Submitted plan reservation before _ h (
        guard-Guarded plan reservation before _ refl
          (transfer-Emits remote transport plan reservation before quiet))
  submit-from plan (raised e now) h quiet = unreserved e now h quiet

  submit-Submitted : (plan : Plan) → Submitted plan (submit remote transport plan [])
  unfolding submit
  submit-Submitted plan = submit-from plan _ refl (reserve-Emits remote transport plan.spec [] tt)

module _ (remote : Remote) (transport : Transport) (local : Local) (q : Request) where
  -- How a run ends: nothing is sent for a request that makes no plan, and otherwise it ends as the
  -- submission of the plan does.
  pub data RunEnds : Ended Call ℤ → Type 0 where
    refused : (e : Error) → make_plan local transport q ≡ err e → RunEnds (raised e [])
    planned :
        (plan : Plan) (run : Ended Call ℤ)
        → make_plan local transport q ≡ ok plan
        → Submitted remote transport plan run
        → RunEnds run

  run_from :
      (made : Result Error Plan)
      → make_plan local transport q ≡ made
      → RunEnds (elim (lift {E = Call} made []) as (λ _. Ended Call ℤ) [
        | done plan now ↦ submit remote transport plan now
        | raised e now ↦ raised e now
      ])
  run_from (ok plan) h = planned plan _ h (submit-Submitted remote transport plan)
  run_from (err e) h = refused e h

  -- For every server, local worktree and request, however the processes end: a request that makes
  -- no plan sends nothing; when the reservation fails nothing else is sent; when the transfer
  -- raises after it, the last call is the cancellation of the planned job, the only cancellation
  -- there is, and the error is that of the transfer or another interrupt; when the transfer goes
  -- through, the result is what following the job gives and no cancellation is sent.
  pub run_worktrees-RunEnds : RunEnds (run_worktrees remote transport local q [])
  unfolding run_worktrees
  run_worktrees-RunEnds = run_from (make_plan local transport q) refl
