-- ===== src/Transport.antt =====
-- trie_remote/transport.py: the commands that carry a worktree to the server and start its job.
use remote_worktree_runner.Prelude.{
  Bool, true, false, Option, none, some, List, [], ◌∷◌, ◌++◌, Text, codes, Result, ok, err, Dict,
  lookup, ℤ, text_eq, if◌then◌else◌, ◌||◌,
}
use remote_worktree_runner.Errors.{
  Error, key_missing, bad_reply, detached, interrupted, process_failed, process_garbled, os_error,
}
use remote_worktree_runner.Common.{FilePath}
use remote_worktree_runner.ServerPaths.{◌//◌, path_text}
use remote_worktree_runner.JobStore.State.{JobState}
use remote_worktree_runner.JobStore.Spec.{JobSpec}
use remote_worktree_runner.ServerWorkspace.{Completed, succeeded}
use remote_worktree_runner.Repository.{RepositoryState}
use remote_worktree_runner.Effects.{done, raised, Step, ◌>>=◌, ◌>>◌, pure, lift}

-- What a process reads from its standard input: nothing, the JSON form of a spec, or names that
-- each end with a zero byte.
pub data Input : Type 0 where
  nothing : Input
  json : JobSpec → Input
  names : List Text → Input

-- A process that was run: its arguments, its directory if one was given, and its input.
pub record Call : Type 0 where
  pub argv : List Text
  pub cwd : Option FilePath
  pub input : Input

-- A process ends, the user interrupts it, or it cannot be started, which is an OSError.
pub data Finish : Type 0 where
  ended : Completed → Finish
  interrupt : Finish
  not_started : Finish

-- Reservation
pub record Reservation : Type 0 where
  pub protocol_version : ℤ
  pub mirrors : Dict Text
  pub workspaces : Dict Text

-- The final status, by the members that are read, where they are there.
pub record FinalStatus : Type 0 where
  pub state : Option JobState
  pub exit_code : Option ℤ

-- The server behind its processes, and the JSON objects that it answers with: `none` is a text that
-- is no such object. An object is read as its members; `read_workspaces` is the one member
-- `workspaces`, if it is there, and `is_json` says whether `json.loads` takes a text. What a process
-- writes is bytes, and `is_text` says whether they decode.
pub record Remote : Type 0 where
  pub run : List Call → Call → Finish
  pub read_reservation : Text → Option Reservation
  pub read_object : Text → Option (Dict Text)
  pub read_workspaces : Text → Option (Option (Dict Text))
  pub read_status : Text → Option FinalStatus
  pub is_json : Text → Bool
  pub is_text : Text → Bool

-- Transport
pub record Transport : Type 0 where
  pub ssh_alias : Text
  pub remote_root : FilePath
  pub exclude_file : FilePath

abbrev pub Transfer {ℓ} : Type ℓ → Type ℓ
Transfer A = Step Call A

-- A reply, or the ValueError for one that cannot be read.
abbrev pub reply {ℓ} : {A : Type ℓ} → Option A → Result Error A
reply none = err bad_reply
reply (some a) = ok a

-- response[name], or the KeyError.
abbrev pub required {ℓ} : {A : Type ℓ} → Option A → Result Error A
required none = err key_missing
required (some a) = ok a

abbrev pub workspaces_member : Option (Option (Dict Text)) → Result Error (Dict Text)
workspaces_member none = err bad_reply
workspaces_member (some member) = required member

module _ (remote : Remote) (transport : Transport) where
  unfoldable pub finish_unchecked : Call → Finish → Transfer Completed
  finish_unchecked call (ended c) happened = done c (call ∷ happened)
  finish_unchecked call interrupt happened = raised interrupted (call ∷ happened)
  finish_unchecked call not_started happened = raised os_error (call ∷ happened)

  -- self.run(…, check=False)
  unfoldable pub run_unchecked : Call → Transfer Completed
  unfolding finish_unchecked
  run_unchecked call happened = finish_unchecked call (remote.run happened call) happened

  -- There are no bytes, or they decode.
  abbrev pub is_legible : Text → Bool
  is_legible output = text_eq output [] || remote.is_text output

  -- The CalledProcessError, by whether the handler of `main` can decode what it holds.
  abbrev pub checked : Completed → Result Error Completed
  checked c = elim (succeeded c) [
    | true ↦ ok c
    | false ↦
        err (
          if is_legible c.stderr then process_failed c.returncode else process_garbled c.returncode)
  ]

  -- self.run(…, check=True)
  unfoldable pub run_checked : Call → Transfer Completed
  unfolding run_unchecked
  run_checked call = do c ← run_unchecked call; lift (checked c)

  -- self.run(…, check=True, capture_output=False): the output goes to the terminal.
  abbrev pub uncaptured : Completed → Completed
  uncaptured c = record c { stdout = []; stderr = [] }

  unfoldable pub run_uncaptured : Call → Transfer Completed
  unfolding run_unchecked
  run_uncaptured call = do c ← run_unchecked call; lift (checked (uncaptured c))

  -- Transport.remote_runner
  abbrev pub remote_runner : Text
  remote_runner = path_text (transport.remote_root // codes "bin" // codes "trie-runner")

  -- The process of `Transport.ssh`.
  abbrev pub ssh_call : List Text → Input → Call
  ssh_call argv input = record {
    argv = codes "ssh" ∷ transport.ssh_alias ∷ remote_runner ∷ argv;
    cwd = none;
    input = input;
  }

  -- Transport.reserve
  unfoldable pub reserve : JobSpec → Transfer Reservation
  unfolding run_checked
  reserve spec = do
    result ← run_checked (ssh_call (codes "reserve" ∷ []) (json spec))
    lift (reply (remote.read_reservation result.stdout))

  -- What `git push` is run with.
  unfoldable pub push_call : RepositoryState → Text → Text → Call
  push_call state job_id role = record {
    argv =
        codes "git"
        ∷ codes "push"
        ∷ codes "--no-verify"
        ∷ codes "--force"
        ∷ (transport.ssh_alias
            ++ b':'
              ∷ (path_text
                  (transport.remote_root // codes "repos" // (state.name ++ codes ".git"))))
        ∷ (state.commit ++ (codes ":refs/trie-jobs/" ++ (job_id ++ b'/' ∷ role)))
        ∷ [];
    cwd = some state.root;
    input = nothing;
  }

  unfoldable pub ensure_remote : Bool → RepositoryState → Transfer (Unit {0})
  unfolding run_checked
  ensure_remote false state = pure tt
  ensure_remote true state = do
    run_checked (ssh_call (codes "ensure-repo" ∷ state.name ∷ []) nothing)
    pure tt

  -- Transport.push_commit
  unfoldable pub push_commit : RepositoryState → Text → Text → Bool → Transfer (Unit {0})
  unfolding ensure_remote run_checked push_call
  push_commit state job_id role ensure_repository = do
    ensure_remote ensure_repository state
    run_checked (push_call state job_id role)
    pure tt

  abbrev pub workspace_member : Option (Dict Text) → Result Error Text
  workspace_member none = err bad_reply
  workspace_member (some d) = required (lookup (codes "workspace") d)

  -- Transport.prepare_workspace
  unfoldable pub prepare_remote : RepositoryState → Text → Text → Transfer Text
  unfolding run_checked
  prepare_remote state job_id role = do
    result ← run_checked (
        ssh_call
          (codes "prepare-workspace"
            ∷ codes "--job"
            ∷ job_id
            ∷ codes "--repository"
            ∷ state.name
            ∷ codes "--commit"
            ∷ state.commit
            ∷ codes "--role"
            ∷ role
            ∷ [])
          nothing)
    lift (workspace_member (remote.read_object result.stdout))

  -- Transport.prepare_all
  unfoldable pub prepare_all : Text → Transfer (Dict Text)
  unfolding run_checked
  prepare_all job_id = do
    result ← run_checked (ssh_call (codes "prepare-all" ∷ codes "--job" ∷ job_id ∷ []) nothing)
    lift (workspaces_member (remote.read_workspaces result.stdout))

  -- The last arguments of rsync: the exclude file, the worktree and the remote place.
  abbrev pub sync_tail : RepositoryState → Text → List Text
  sync_tail state remote_workspace =
      codes "--safe-links"
      ∷ (codes "--filter=merge " ++ path_text transport.exclude_file)
      ∷ codes "-e"
      ∷ codes "ssh"
      ∷ (path_text state.root ++ codes "/")
      ∷ (transport.ssh_alias ++ b':' ∷ (remote_workspace ++ codes "/"))
      ∷ []

  -- Transport.sync_overlay
  unfoldable pub sync_overlay : RepositoryState → Text → List Text → Transfer (Unit {0})
  unfolding run_checked
  sync_overlay state remote_workspace [] = pure tt
  sync_overlay state remote_workspace (path ∷ paths) = do
    run_checked (record {
      argv =
          codes "rsync"
          ∷ codes "-az"
          ∷ codes "--from0"
          ∷ codes "--files-from=-"
          ∷ codes "--relative"
          ∷ sync_tail state remote_workspace;
      cwd = none;
      input = names (path ∷ paths);
    })
    pure tt

  -- Transport.sync_full_overlay
  unfoldable pub sync_full_overlay : RepositoryState → Text → Transfer (Unit {0})
  unfolding run_checked
  sync_full_overlay state remote_workspace = do
    run_checked (record {
      argv = codes "rsync" ∷ codes "-az" ∷ codes "--delete" ∷ sync_tail state remote_workspace;
      cwd = none;
      input = nothing;
    })
    pure tt

  unfoldable pub execution : Completed → Option FinalStatus → Result Error (ℤ × FinalStatus)
  execution c none = err detached
  execution c (some status) = ok (c.returncode, status)

  -- Transport.execute
  unfoldable pub execute : Text → Transfer (ℤ × FinalStatus)
  unfolding run_unchecked execution
  execute job_id = do
    result ← run_unchecked (ssh_call (codes "execute" ∷ codes "--job" ∷ job_id ∷ []) nothing)
    lift (execution result (remote.read_status result.stdout))
