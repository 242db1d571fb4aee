-- ===== src/LocalCli/Run.antt =====
-- trie_remote/local_cli.py: `run_worktrees`, which transfers the worktrees, starts the job and
-- follows it. Messages to the terminal are left out.
use remote_worktree_runner.Prelude.{
  Option, none, some, err, Bool, true, false, [], ◌∷◌, leb, Text, codes, text_eq, Result, ok,
  require, Dict, lookup, ℤ, pos, negsuc,
}
use remote_worktree_runner.Errors.{
  Error, interrupted, detached, unexpected_workspace, workspace_changed, key_missing,
}
use remote_worktree_runner.JobStore.State.{JobState, passed, is_final}
use remote_worktree_runner.JobStore.Spec.{OverlayManifest}
use remote_worktree_runner.Repository.{RepositoryState}
use remote_worktree_runner.ServerCli.Equality.{dict_eq}
use remote_worktree_runner.Effects.{Ended, done, raised, ◌>>=◌, ◌>>◌, pure, lift}
use remote_worktree_runner.ServerWorkspace.{Completed}
use remote_worktree_runner.Transport.{
  Call, nothing, json, Reservation, FinalStatus, Remote, Transport, Transfer, reply, run_unchecked,
  run_checked, run_uncaptured, ssh_call, reserve, push_commit, prepare_remote, prepare_all,
  sync_overlay, sync_full_overlay, execute,
}
use remote_worktree_runner.LocalCli.Plan.{Request, Local, Plan, make_plan}

unfoldable pub item {ℓ} : {V : Type ℓ} → Text → Dict V → Result Error V
item key d = elim (lookup key d) [ none ↦ err key_missing | some v ↦ ok v ]

-- reservation.protocol_version >= 2
unfoldable pub is_second_protocol : ℤ → Bool
is_second_protocol (pos n) = leb 2 n
is_second_protocol (negsuc n) = false

module _ (remote : Remote) (transport : Transport) where
  unfoldable pub push_each : Text → Dict RepositoryState → Transfer (Unit {0})
  push_each job_id [] = pure tt
  push_each job_id ((role, state) ∷ states) = do
    push_commit remote transport state job_id role false
    push_each job_id states

  unfoldable pub sync_each :
      Dict Text → Dict OverlayManifest → Dict RepositoryState → Transfer (Unit {0})
  unfolding item
  sync_each prepared overlays [] = pure tt
  sync_each prepared overlays ((role, state) ∷ states) = do
    place ← lift (item role prepared)
    overlay ← lift (item role overlays)
    sync_overlay remote transport state place overlay.transfer
    sync_each prepared overlays states

  -- The second protocol: the commits, one call that prepares all the workspaces, the changed files.
  unfoldable pub transfer_second : Plan → Reservation → Transfer (Unit {0})
  unfolding push_each sync_each
  transfer_second plan reservation = do
    lift (require (dict_eq text_eq reservation.workspaces plan.workspaces) unexpected_workspace)
    push_each plan.spec.job_id plan.states
    prepared ← prepare_all remote transport plan.spec.job_id
    lift (require (dict_eq text_eq prepared plan.workspaces) unexpected_workspace)
    sync_each prepared plan.overlays plan.states

  -- The first protocol, role by role.
  unfoldable pub transfer_each : Text → Dict Text → Dict RepositoryState → Transfer (Unit {0})
  unfolding item
  transfer_each job_id workspaces [] = pure tt
  transfer_each job_id workspaces ((role, state) ∷ states) = do
    push_commit remote transport state job_id role true
    workspace ← prepare_remote remote transport state job_id role
    expected ← lift (item role workspaces)
    lift (require (text_eq workspace expected) workspace_changed)
    sync_full_overlay remote transport state workspace
    transfer_each job_id workspaces states

  unfoldable pub transfer_first : Plan → Transfer (Unit {0})
  unfolding transfer_each
  transfer_first plan = do
    transfer_each plan.spec.job_id plan.workspaces plan.states
    run_checked remote transport (ssh_call remote transport (codes "start" ∷ []) (json plan.spec))
    pure tt

  -- The body of the `try`.
  unfoldable pub transfer : Plan → Reservation → Transfer (Unit {0})
  unfolding transfer_second transfer_first is_second_protocol
  transfer plan reservation = elim (is_second_protocol reservation.protocol_version) [
    | true ↦ transfer_second plan reservation
    | false ↦ transfer_first plan
  ]

  -- transport.ssh(["cancel", job_id], check=False)
  abbrev pub cancel_call : Text → Call
  cancel_call job_id = ssh_call remote transport (codes "cancel" ∷ job_id ∷ []) nothing

  -- The handler asks the server to cancel and raises again what it caught. An exception of the
  -- request is printed; only another interrupt, which is none, comes through in its place.
  unfoldable pub after_cancel : Error → Ended Call Completed → Ended Call (Unit {0})
  after_cancel e (done _ now) = raised e now
  after_cancel e (raised interrupted now) = raised interrupted now
  after_cancel e (raised caught now) = raised e now

  -- except (Exception, KeyboardInterrupt)
  unfoldable pub guard : Text → Ended Call (Unit {0}) → Ended Call (Unit {0})
  unfolding after_cancel
  guard job_id (done u now) = done u now
  guard job_id (raised e now) =
      after_cancel e (run_unchecked remote transport (cancel_call job_id) now)

  unfoldable pub guarded_transfer : Plan → Reservation → Transfer (Unit {0})
  unfolding guard
  guarded_transfer plan reservation happened =
      guard plan.spec.job_id (transfer plan reservation happened)

  -- A stream that is lost or interrupted leaves the job on the server, with exit code 130.
  unfoldable pub after_execute : Ended Call (ℤ × FinalStatus) → Ended Call ℤ
  after_execute (done (code, status) now) = done code now
  after_execute (raised detached now) = done (pos 130) now
  after_execute (raised interrupted now) = done (pos 130) now
  after_execute (raised e now) = raised e now

  unfoldable pub after_logs : Ended Call Completed → Ended Call (Unit {0})
  after_logs (done _ now) = done tt now
  after_logs (raised interrupted now) = done tt now
  after_logs (raised e now) = raised e now

  abbrev pub default_code : JobState → ℤ
  default_code passed = pos 0
  default_code _ = pos 1

  unfoldable pub code_in : JobState → Option ℤ → ℤ
  code_in state exit_code = elim (is_final state) [
    | false ↦ pos 130
    | true ↦ elim exit_code [ none ↦ default_code state | some code ↦ code ]
  ]

  -- What the last status makes of it; a status without a state is a KeyError.
  unfoldable pub status_code : FinalStatus → Result Error ℤ
  unfolding code_in
  status_code status = elim status.state [
    | none ↦ err key_missing
    | some state ↦ ok (code_in state status.exit_code)
  ]

  abbrev pub logs_call : Text → Call
  logs_call job_id = ssh_call remote transport (codes "logs" ∷ codes "-f" ∷ job_id ∷ []) nothing

  unfoldable pub follow_logs : Text → Transfer (Unit {0})
  unfolding after_logs
  follow_logs job_id happened =
      after_logs (run_uncaptured remote transport (logs_call job_id) happened)

  -- After the transfer: the attached stream, or the log and then the status.
  unfoldable pub follow : Text → Bool → Transfer ℤ
  unfolding after_execute follow_logs status_code
  follow job_id true happened = after_execute (execute remote transport job_id happened)
  follow job_id false happened =
      (do
        follow_logs job_id
        result ←
            run_checked remote transport
              (ssh_call remote transport (codes "status" ∷ job_id ∷ []) nothing)
        status ← lift (reply (remote.read_status result.stdout))
        lift (status_code status))
        happened

  -- From the reservation on.
  unfoldable pub submit : Plan → Transfer ℤ
  unfolding guarded_transfer follow
  submit plan = do
    reservation ← reserve remote transport plan.spec
    guarded_transfer plan reservation
    follow plan.spec.job_id (is_second_protocol reservation.protocol_version)

  unfoldable pub run_worktrees : Local → Request → Transfer ℤ
  unfolding submit
  run_worktrees local q = do plan ← lift (make_plan local transport q); submit plan
