-- ===== src/LocalCli/Guarded.antt =====
-- trie_remote/local_cli.py: when `run_worktrees` cancels the job that it reserved.
use remote_worktree_runner.Prelude.{
  ◌≡◌, refl, Bool, true, false, ◌&&◌, List, [], ◌∷◌, All, Text, codes, text_eq, Result, Dict,
}
use remote_worktree_runner.Errors.{Error}
use remote_worktree_runner.JobStore.Spec.{JobSpec, OverlayManifest}
use remote_worktree_runner.Repository.{RepositoryState}
use remote_worktree_runner.ServerWorkspace.{Completed}
use remote_worktree_runner.Effects.{◌>>=◌, ◌>>◌, pure, lift}
use remote_worktree_runner.Effects.Emits.{events, Emits, pure-Emits, lift-Emits, >>=-Emits}
use remote_worktree_runner.Transport.{
  Call, Finish, ended, interrupt, not_started, run_uncaptured, uncaptured, Reservation, Remote,
  Transport, Transfer, finish_unchecked, run_unchecked, run_checked, checked, reserve, push_call,
  ensure_remote, push_commit, reply, ssh_call, json, nothing, prepare_remote, prepare_all,
  sync_overlay, sync_full_overlay, execute, execution, workspace_member, workspaces_member,
}
use remote_worktree_runner.LocalCli.Plan.{Plan}
use remote_worktree_runner.LocalCli.Run.{
  item, is_second_protocol, push_each, sync_each, transfer_second, transfer_each, transfer_first,
  transfer,
}

abbrev pub is_cancel_argv : List Text → Bool
is_cancel_argv (program ∷ host ∷ runner ∷ command ∷ rest) =
    text_eq program (codes "ssh") && text_eq command (codes "cancel")
is_cancel_argv _ = false

-- The call does not ask the server to cancel a job.
unfoldable pub IsQuiet : Call → Type 0
IsQuiet call = is_cancel_argv call.argv ≡ false

module _ (remote : Remote) (transport : Transport) where
  finish-Emits :
      (call : Call) (finish : Finish) (start : List Call)
      → IsQuiet call
      → All IsQuiet start
      → All IsQuiet (events (finish_unchecked remote transport call finish start))
  unfolding events finish_unchecked
  finish-Emits call (ended c) start quiet all = (quiet, all)
  finish-Emits call interrupt start quiet all = (quiet, all)
  finish-Emits call not_started start quiet all = (quiet, all)

  run_unchecked-Emits :
      (call : Call) → IsQuiet call → Emits IsQuiet (run_unchecked remote transport call)
  unfolding run_unchecked
  run_unchecked-Emits call quiet start all =
      finish-Emits call (remote.run start call) start quiet all

  pub run_checked-Emits :
      (call : Call) → IsQuiet call → Emits IsQuiet (run_checked remote transport call)
  unfolding run_checked
  run_checked-Emits call quiet =
      >>=-Emits IsQuiet (run_unchecked remote transport call)
        (λ c. lift (checked remote transport c)) (run_unchecked-Emits call quiet)
        (λ c. lift-Emits IsQuiet (checked remote transport c))

  pub run_uncaptured-Emits :
      (call : Call) → IsQuiet call → Emits IsQuiet (run_uncaptured remote transport call)
  unfolding run_uncaptured
  run_uncaptured-Emits call quiet =
      >>=-Emits IsQuiet (run_unchecked remote transport call)
        (λ c. lift (checked remote transport (uncaptured remote transport c)))
        (run_unchecked-Emits call quiet)
        (λ c. lift-Emits IsQuiet (checked remote transport (uncaptured remote transport c)))

  -- A checked call whose answer is read by a function that asks nothing.
  pub asked-Emits {ℓ} :
      {A : Type ℓ} (call : Call) (read : Completed → Result Error A)
      → IsQuiet call
      → Emits IsQuiet (run_checked remote transport call >>= λ c. lift (read c))
  asked-Emits call read quiet =
      >>=-Emits IsQuiet (run_checked remote transport call) (λ c. lift (read c))
        (run_checked-Emits call quiet) (λ c. lift-Emits IsQuiet (read c))

  told-Emits :
      (call : Call)
      → IsQuiet call
      → Emits IsQuiet (run_checked remote transport call >> pure (tt {0}))
  told-Emits call quiet =
      >>=-Emits IsQuiet (run_checked remote transport call) (λ c. pure (tt {0}))
        (run_checked-Emits call quiet) (λ c. pure-Emits IsQuiet (tt {0}))

  pub reserve-Emits : (spec : JobSpec) → Emits IsQuiet (reserve remote transport spec)
  unfolding reserve IsQuiet text_eq
  reserve-Emits spec =
      asked-Emits (ssh_call remote transport (codes "reserve" ∷ []) (json spec))
        (λ c. reply (remote.read_reservation c.stdout)) refl

  ensure_remote-Emits :
      (ensure : Bool) (state : RepositoryState)
      → Emits IsQuiet (ensure_remote remote transport ensure state)
  unfolding ensure_remote IsQuiet text_eq
  ensure_remote-Emits false state = pure-Emits IsQuiet (tt {0})
  ensure_remote-Emits true state =
      told-Emits (ssh_call remote transport (codes "ensure-repo" ∷ state.name ∷ []) nothing) refl

  push_call-IsQuiet :
      (state : RepositoryState) (job_id role : Text)
      → IsQuiet (push_call remote transport state job_id role)
  unfolding push_call IsQuiet text_eq
  push_call-IsQuiet state job_id role = refl

  push_commit-Emits :
      (state : RepositoryState) (job_id role : Text) (ensure : Bool)
      → Emits IsQuiet (push_commit remote transport state job_id role ensure)
  unfolding push_commit
  push_commit-Emits state job_id role ensure =
      >>=-Emits IsQuiet (ensure_remote remote transport ensure state)
        (λ _.
          run_checked remote transport (push_call remote transport state job_id role)
          >> pure (tt {0}))
        (ensure_remote-Emits ensure state)
        (λ _.
          told-Emits (push_call remote transport state job_id role)
            (push_call-IsQuiet state job_id role))

  prepare_remote-Emits :
      (state : RepositoryState) (job_id role : Text)
      → Emits IsQuiet (prepare_remote remote transport state job_id role)
  unfolding prepare_remote IsQuiet text_eq
  prepare_remote-Emits state job_id role =
      asked-Emits
        (ssh_call remote transport
          (codes "prepare-workspace"
            ∷ codes "--job"
            ∷ job_id
            ∷ codes "--repository"
            ∷ state.name
            ∷ codes "--commit"
            ∷ state.commit
            ∷ codes "--role"
            ∷ role
            ∷ [])
          nothing)
        (λ c. workspace_member remote transport (remote.read_object c.stdout)) refl

  prepare_all-Emits : (job_id : Text) → Emits IsQuiet (prepare_all remote transport job_id)
  unfolding prepare_all IsQuiet text_eq
  prepare_all-Emits job_id =
      asked-Emits
        (ssh_call remote transport (codes "prepare-all" ∷ codes "--job" ∷ job_id ∷ []) nothing)
        (λ c. workspaces_member (remote.read_workspaces c.stdout)) refl

  sync_overlay-Emits :
      (state : RepositoryState) (place : Text) (paths : List Text)
      → Emits IsQuiet (sync_overlay remote transport state place paths)
  unfolding sync_overlay IsQuiet text_eq
  sync_overlay-Emits state place [] = pure-Emits IsQuiet (tt {0})
  sync_overlay-Emits state place (path ∷ paths) = told-Emits _ refl

  sync_full_overlay-Emits :
      (state : RepositoryState) (place : Text)
      → Emits IsQuiet (sync_full_overlay remote transport state place)
  unfolding sync_full_overlay IsQuiet text_eq
  sync_full_overlay-Emits state place = told-Emits _ refl

  pub execute-Emits : (job_id : Text) → Emits IsQuiet (execute remote transport job_id)
  unfolding execute IsQuiet text_eq
  execute-Emits job_id =
      >>=-Emits IsQuiet
        (run_unchecked remote transport
          (ssh_call remote transport (codes "execute" ∷ codes "--job" ∷ job_id ∷ []) nothing))
        (λ c. lift (execution remote transport c (remote.read_status c.stdout)))
        (run_unchecked-Emits _ refl)
        (λ c. lift-Emits IsQuiet (execution remote transport c (remote.read_status c.stdout)))

  push_each-Emits :
      (job_id : Text) (states : Dict RepositoryState)
      → Emits IsQuiet (push_each remote transport job_id states)
  unfolding push_each
  push_each-Emits job_id [] = pure-Emits IsQuiet (tt {0})
  push_each-Emits job_id ((role, state) ∷ states) =
      >>=-Emits IsQuiet (push_commit remote transport state job_id role false)
        (λ _. push_each remote transport job_id states) (push_commit-Emits state job_id role false)
        (λ _. push_each-Emits job_id states)

  sync_each-Emits :
      (prepared : Dict Text) (overlays : Dict OverlayManifest) (states : Dict RepositoryState)
      → Emits IsQuiet (sync_each remote transport prepared overlays states)
  unfolding sync_each
  sync_each-Emits prepared overlays [] = pure-Emits IsQuiet (tt {0})
  sync_each-Emits prepared overlays ((role, state) ∷ states) =
      >>=-Emits IsQuiet _ _ (lift-Emits IsQuiet (item role prepared)) (λ place.
        >>=-Emits IsQuiet _ _ (lift-Emits IsQuiet (item role overlays)) (λ overlay.
          >>=-Emits IsQuiet (sync_overlay remote transport state place overlay.transfer)
            (λ _. sync_each remote transport prepared overlays states)
            (sync_overlay-Emits state place overlay.transfer)
            (λ _. sync_each-Emits prepared overlays states)))

  transfer_second-Emits :
      (plan : Plan) (reservation : Reservation)
      → Emits IsQuiet (transfer_second remote transport plan reservation)
  unfolding transfer_second
  transfer_second-Emits plan reservation = >>=-Emits IsQuiet _ _ (lift-Emits IsQuiet _) (λ _.
      >>=-Emits IsQuiet _ _ (push_each-Emits plan.spec.job_id plan.states) (λ _.
        >>=-Emits IsQuiet _ _ (prepare_all-Emits plan.spec.job_id) (λ prepared.
          >>=-Emits IsQuiet _ _ (lift-Emits IsQuiet _)
            (λ _. sync_each-Emits prepared plan.overlays plan.states))))

  transfer_each-Emits :
      (job_id : Text) (workspaces : Dict Text) (states : Dict RepositoryState)
      → Emits IsQuiet (transfer_each remote transport job_id workspaces states)
  unfolding transfer_each
  transfer_each-Emits job_id workspaces [] = pure-Emits IsQuiet (tt {0})
  transfer_each-Emits job_id workspaces ((role, state) ∷ states) =
      >>=-Emits IsQuiet _ _ (push_commit-Emits state job_id role true) (λ _.
        >>=-Emits IsQuiet _ _ (prepare_remote-Emits state job_id role) (λ workspace.
          >>=-Emits IsQuiet _ _ (lift-Emits IsQuiet (item role workspaces)) (λ expected.
            >>=-Emits IsQuiet _ _ (lift-Emits IsQuiet _) (λ _.
              >>=-Emits IsQuiet _ _ (sync_full_overlay-Emits state workspace)
                (λ _. transfer_each-Emits job_id workspaces states)))))

  transfer_first-Emits : (plan : Plan) → Emits IsQuiet (transfer_first remote transport plan)
  unfolding transfer_first IsQuiet text_eq
  transfer_first-Emits plan =
      >>=-Emits IsQuiet _ _ (transfer_each-Emits plan.spec.job_id plan.workspaces plan.states)
        (λ _. told-Emits (ssh_call remote transport (codes "start" ∷ []) (json plan.spec)) refl)

  pub transfer-Emits :
      (plan : Plan) (reservation : Reservation)
      → Emits IsQuiet (transfer remote transport plan reservation)
  unfolding transfer
  transfer-Emits plan reservation =
      elim (is_second_protocol reservation.protocol_version)
        as (λ b. Emits IsQuiet (elim b as (λ _. Transfer (Unit {0})) [
          | true ↦ transfer_second remote transport plan reservation
          | false ↦ transfer_first remote transport plan
        ])) [ true ↦ transfer_second-Emits plan reservation | false ↦ transfer_first-Emits plan ]
