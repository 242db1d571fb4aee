-- ===== src/LocalCli/Main.antt =====
-- trie_remote/local_cli.py: the commands that `main` forwards to the server, and its exit codes.
-- Parsing of the command line and printing are left out.
use remote_worktree_runner.Prelude.{
  text_eq, Result, ◌||◌, not, require, zero, suc, Bool, ◌&&◌, List, [], ◌∷◌, if◌then◌else◌, all_of,
  Text, codes, ℤ, pos, negsuc, show_number, err,
}
use remote_worktree_runner.Errors.{
  bad_reply, undecodable, Error, process_failed, process_garbled, interrupted, is_value_error,
}
use remote_worktree_runner.Common.{FilePath, validate_identifier}
use remote_worktree_runner.RunnerConfig.{RunnerConfig}
use remote_worktree_runner.ServerWorkspace.{Completed, succeeded}
use remote_worktree_runner.Effects.{◌>>=◌, Ended, done, raised, ◌>>◌, pure, lift}
use remote_worktree_runner.Transport.{
  Call, nothing, Remote, Transport, Transfer, run_unchecked, run_checked, run_uncaptured,
  is_legible, ssh_call,
}
use remote_worktree_runner.LocalCli.Requested.{RunArguments, request_of}
use remote_worktree_runner.LocalCli.Plan.{Local}
use remote_worktree_runner.LocalCli.Run.{run_worktrees}

-- The parsed command line of `preview`.
pub data PreviewCommand : Type 0 where
  publish : (job slot project service : Text) → ℤ → (check_path : Text) → PreviewCommand
  list_all : PreviewCommand
  unpublish : (job slot : Text) → PreviewCommand

-- str(arguments.port)
unfoldable pub port_text : ℤ → Text
port_text (pos n) = show_number n
port_text (negsuc n) = b'-' ∷ show_number (suc n)

-- The arguments that `_preview` sends.
unfoldable pub preview_arguments : PreviewCommand → List Text
unfolding port_text
preview_arguments (publish job slot project service port check_path) =
    codes "preview-publish"
    ∷ codes "--job"
    ∷ job
    ∷ codes "--slot"
    ∷ slot
    ∷ codes "--project"
    ∷ project
    ∷ codes "--service"
    ∷ service
    ∷ codes "--port"
    ∷ port_text port
    ∷ codes "--check-path"
    ∷ check_path
    ∷ []
preview_arguments list_all = codes "preview-list" ∷ []
preview_arguments (unpublish job slot) =
    codes "preview-unpublish" ∷ codes "--job" ∷ job ∷ codes "--slot" ∷ slot ∷ []

-- The commands on one job.
pub data JobCommand : Type 0 where
  status cancel : JobCommand
  logs cleanup : Bool → JobCommand

unfoldable pub job_arguments : JobCommand → Text → List Text
job_arguments status job = codes "status" ∷ job ∷ []
job_arguments cancel job = codes "cancel" ∷ job ∷ []
job_arguments (logs follow) job =
    codes "logs" ∷ (if follow then codes "-f" ∷ job ∷ [] else job ∷ [])
job_arguments (cleanup volumes) job =
    codes "cleanup" ∷ job ∷ (if volumes then codes "--volumes" ∷ [] else [])

pub data Command : Type 0 where
  run : RunArguments → Command
  doctor : Command
  preview : PreviewCommand → Command
  on_job : JobCommand → Text → Command

-- int(error.returncode or 1)
unfoldable pub failure_code : ℤ → ℤ
failure_code (pos zero) = pos 1
failure_code (pos (suc n)) = pos (suc n)
failure_code (negsuc n) = negsuc n

unfoldable pub caught : Error → List Call → Ended Call ℤ
unfolding failure_code
caught (process_failed code) now = done (failure_code code) now
caught (process_garbled code) now = raised undecodable now
caught interrupted now = done (pos 130) now
caught e now = if is_value_error e then done (pos 2) now else raised e now

-- The `except` clauses of `main`.
unfoldable pub exit_code_of_end : Ended Call ℤ → Ended Call ℤ
unfolding caught
exit_code_of_end (done code now) = done code now
exit_code_of_end (raised e now) = caught e now

module _ (remote : Remote) (transport : Transport) where
  abbrev pub code_of : Completed → Transfer ℤ
  code_of c = pure c.returncode

  -- What is printed was decoded first.
  abbrev pub printed : Completed → Transfer ℤ
  printed c = do lift (require (is_legible remote transport c.stdout) undecodable); code_of c

  -- _doctor: `commands` are the local commands with whether each was found.
  unfoldable pub doctor_code : List Bool → Completed → ℤ
  doctor_code commands c = if all_of (λ b. b) commands && succeeded c then pos 0 else pos 1

  -- The server's report is decoded, and read as JSON if it came and is not empty.
  unfoldable pub doctor_report : Completed → Result Error (Unit {0})
  doctor_report c =
      if is_legible remote transport c.stdout
      then require (not (succeeded c) || (text_eq c.stdout [] || remote.is_json c.stdout)) bad_reply
      else err undecodable

  -- The process by `check` and `capture_output`: the log is not captured.
  unfoldable pub run_job_call : JobCommand → Call → Transfer Completed
  run_job_call status call = run_unchecked remote transport call
  run_job_call cancel call = run_unchecked remote transport call
  run_job_call (logs follow) call = run_uncaptured remote transport call
  run_job_call (cleanup volumes) call = run_checked remote transport call

  unfoldable pub run_job_command : JobCommand → Text → Transfer ℤ
  unfolding run_job_call
  run_job_command command job = do
    lift (validate_identifier job)
    c ← run_job_call command (ssh_call remote transport (job_arguments command job) nothing)
    printed c

  unfoldable pub run_command :
      Local → (Text → FilePath) → RunnerConfig → List Bool → Command → Transfer ℤ
  unfolding doctor_code doctor_report run_job_command
  run_command local place config commands (run arguments) = do
    request ← lift (request_of place config arguments)
    run_worktrees remote transport local request
  run_command local place config commands doctor = do
    c ← run_unchecked remote transport (ssh_call remote transport (codes "doctor" ∷ []) nothing)
    lift (doctor_report c)
    pure (doctor_code commands c)
  run_command local place config commands (preview command) = do
    c ←
        run_unchecked remote transport
          (ssh_call remote transport (preview_arguments command) nothing)
    printed c
  run_command local place config commands (on_job command job) = run_job_command command job

  unfoldable pub main : Local → (Text → FilePath) → RunnerConfig → List Bool → Command → Transfer ℤ
  unfolding run_command exit_code_of_end
  main local place config commands command happened =
      exit_code_of_end (run_command local place config commands command happened)
