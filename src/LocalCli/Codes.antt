-- ===== src/LocalCli/Codes.antt =====
-- trie_remote/local_cli.py: the exit code of `main` for the commands on a job.
use remote_worktree_runner.Prelude.{
  sym, ok, err, ap, inl, inr, zero, suc, ◌≡◌, refl, ◌∙◌, Bool, true, false, List, ◌∷◌, arith, ◌==◌,
  if◌then◌else◌, Text, Result, ℤ, pos, negsuc, ◌||◌, Bool-cases, text_eq, [],
}
use remote_worktree_runner.Errors.{Error, process_failed, process_garbled, undecodable, os_error}
use remote_worktree_runner.Common.{is_identifier, validate_identifier, FilePath}
use remote_worktree_runner.RunnerConfig.{RunnerConfig}
use remote_worktree_runner.ServerWorkspace.{Completed, succeeded}
use remote_worktree_runner.Effects.{◌>>=◌, Ended, done, raised, lift}
use remote_worktree_runner.Transport.{
  run_unchecked, run_checked, run_uncaptured, uncaptured, checked, Transfer, Call, nothing, Remote,
  Transport, ssh_call, finish_unchecked, Finish, ended, interrupt, not_started,
}
use remote_worktree_runner.LocalCli.Plan.{Local}
use remote_worktree_runner.LocalCli.Main.{
  run_command, run_job_command, run_job_call, caught, failure_code, JobCommand, status, cancel,
  logs, cleanup, job_arguments, printed, on_job, exit_code_of_end, main,
}

-- The code is printed with what the process wrote, or 2 for bytes that do not decode.
abbrev pub printed_end : Bool → ℤ → List Call → Ended Call ℤ
printed_end legible code now = if legible then done code now else done (pos 2) now

is_zero-zero :
    (code : ℤ)
    → (elim code as (λ _. Bool) [ pos n ↦ n == 0 | negsuc n ↦ false ]) ≡ true
    → code ≡ pos 0
is_zero-zero (pos zero) h = refl
is_zero-zero (pos (suc n)) h = absurd (ground arith)
is_zero-zero (negsuc n) h = absurd (cc)

failure_code-kept :
    (code : ℤ)
    → (elim code as (λ _. Bool) [ pos n ↦ n == 0 | negsuc n ↦ false ]) ≡ false
    → failure_code code ≡ code
unfolding failure_code
failure_code-kept (pos zero) h = absurd (ground arith)
failure_code-kept (pos (suc n)) h = refl
failure_code-kept (negsuc n) h = refl

module _ (remote : Remote) (transport : Transport) where
  -- No bytes, or bytes that decode.
  abbrev pub legible : Text → Bool
  legible output = text_eq output [] || remote.is_text output

  -- A failed `cleanup` prints its error output.
  abbrev pub cleanup_end : Completed → Bool → List Call → Ended Call ℤ
  cleanup_end c true now = printed_end (legible c.stdout) (pos 0) now
  cleanup_end c false now =
      if legible c.stderr then done c.returncode now else raised undecodable now

  -- How `main` ends behind the one process of a command on a job.
  abbrev pub reported : JobCommand → Finish → List Call → Ended Call ℤ
  reported command interrupt now = done (pos 130) now
  reported command not_started now = raised os_error now
  reported status (ended c) now = printed_end (legible c.stdout) c.returncode now
  reported cancel (ended c) now = printed_end (legible c.stdout) c.returncode now
  reported (logs follow) (ended c) now = done c.returncode now
  reported (cleanup volumes) (ended c) now = cleanup_end c (succeeded c) now

  printed-reported :
      (c : Completed) (now : List Call)
      → exit_code_of_end (printed remote transport c now)
        ≡ printed_end (legible c.stdout) c.returncode now
  unfolding exit_code_of_end caught
  printed-reported c now = elim (Bool-cases (legible c.stdout)) [
    | inl e ↦ rw e refl
    | inr e ↦ rw e refl
  ]

  -- The process of a command, by how it ends.
  job_end : JobCommand → Call → Finish → Transfer Completed
  job_end status call finish = finish_unchecked remote transport call finish
  job_end cancel call finish = finish_unchecked remote transport call finish
  job_end (logs follow) call finish = finish_unchecked remote transport call finish >>= λ c.
      lift (checked remote transport (uncaptured remote transport c))
  job_end (cleanup volumes) call finish =
      finish_unchecked remote transport call finish >>= λ c. lift (checked remote transport c)

  run_job_call-job_end :
      (command : JobCommand) (call : Call) (now : List Call)
      → run_job_call remote transport command call now
        ≡ job_end command call (remote.run now call) now
  unfolding run_job_call run_unchecked run_checked run_uncaptured job_end
  run_job_call-job_end status call now = refl
  run_job_call-job_end cancel call now = refl
  run_job_call-job_end (logs follow) call now = refl
  run_job_call-job_end (cleanup volumes) call now = refl

  after_checked : List Call → Result Error Completed → Ended Call ℤ
  after_checked now r = exit_code_of_end (elim (lift {E = Call} r now) [
    | done c later ↦ printed remote transport c later
    | raised e later ↦ raised e later
  ])

  checked_by : Completed → Bool → Bool → Result Error Completed
  checked_by c success readable = elim success [
    | true ↦ ok c
    | false ↦ err (if readable then process_failed c.returncode else process_garbled c.returncode)
  ]

  checked-checked_by :
      (c : Completed) (success readable : Bool)
      → succeeded c ≡ success
      → legible c.stderr ≡ readable
      → checked remote transport c ≡ checked_by c success readable
  unfolding checked_by
  checked-checked_by c success readable s e =
      ap (λ b. checked_by c b (legible c.stderr)) s ∙ ap (checked_by c success) e

  failed_cleanup :
      (c : Completed) (readable : Bool) (now : List Call)
      → succeeded c ≡ false
      → legible c.stderr ≡ readable
      → cleanup_end c (succeeded c) now
        ≡ (if readable then done c.returncode now else raised undecodable now)
  failed_cleanup c readable now s e =
      ap (λ b. cleanup_end c b now) s
      ∙ ap (λ b. if b then done c.returncode now else raised undecodable now) e

  job_end-reported :
      (command : JobCommand) (call : Call) (finish : Finish) (now : List Call)
      → exit_code_of_end ((job_end command call finish >>= printed remote transport) now)
        ≡ reported command finish (call ∷ now)
  unfolding job_end finish_unchecked exit_code_of_end caught text_eq after_checked checked_by
  job_end-reported status call (ended c) now = printed-reported c (call ∷ now)
  job_end-reported cancel call (ended c) now = printed-reported c (call ∷ now)
  job_end-reported (logs follow) call (ended c) now = elim (Bool-cases (succeeded c)) [
    | inl s ↦
        ap (after_checked (call ∷ now))
          (checked-checked_by (uncaptured remote transport c) true true s refl)
    | inr s ↦
        ap (after_checked (call ∷ now))
          (checked-checked_by (uncaptured remote transport c) false true s refl)
        ∙ ap (λ n. done n (call ∷ now)) (failure_code-kept c.returncode s)
  ]
  job_end-reported (cleanup volumes) call (ended c) now = elim (Bool-cases (succeeded c)) [
    | inl s ↦
        ap (after_checked (call ∷ now)) (checked-checked_by c true (legible c.stderr) s refl)
        ∙ (printed-reported c (call ∷ now)
            ∙ (ap (λ n. printed_end (legible c.stdout) n (call ∷ now)) (is_zero-zero c.returncode s)
                ∙ ap (λ b. cleanup_end c b (call ∷ now)) (sym s)))
    | inr s ↦ elim (Bool-cases (legible c.stderr)) [
      | inl e ↦
          ap (after_checked (call ∷ now)) (checked-checked_by c false true s e)
          ∙ (ap (λ n. done n (call ∷ now)) (failure_code-kept c.returncode s)
              ∙ sym (failed_cleanup c true (call ∷ now) s e))
      | inr e ↦
          ap (after_checked (call ∷ now)) (checked-checked_by c false false s e)
          ∙ sym (failed_cleanup c false (call ∷ now) s e)
    ]
  ]
  job_end-reported status call interrupt now = refl
  job_end-reported cancel call interrupt now = refl
  job_end-reported (logs follow) call interrupt now = refl
  job_end-reported (cleanup volumes) call interrupt now = refl
  job_end-reported status call not_started now = refl
  job_end-reported cancel call not_started now = refl
  job_end-reported (logs follow) call not_started now = refl
  job_end-reported (cleanup volumes) call not_started now = refl

  call-reported :
      (command : JobCommand) (call : Call) (now : List Call)
      → exit_code_of_end
          ((run_job_call remote transport command call >>= printed remote transport) now)
        ≡ reported command (remote.run now call) (call ∷ now)
  call-reported command call now =
      ap
        (λ o. exit_code_of_end (elim o as (λ _. Ended Call ℤ) [
          | done c later ↦ printed remote transport c later
          | raised e later ↦ raised e later
        ]))
        (run_job_call-job_end command call now)
      ∙ job_end-reported command call (remote.run now call) now

  module _ (local : Local) (place : Text → FilePath) (config : RunnerConfig) (commands : List Bool)
      (command : JobCommand) (job : Text) (now : List Call) where
    -- The one process of the command.
    abbrev pub job_call : Call
    job_call = ssh_call remote transport (job_arguments command job) nothing

    -- For every server, `status`, `logs`, `cancel` and `cleanup` of a job whose name is an identifier
    -- run exactly one process, and exit with its return code, checked or not. An output that does
    -- not decode makes the code 2, or makes `main` raise where it is the error output of `cleanup`;
    -- the log is not read. A user's interrupt makes the code 130, and a process that cannot be
    -- started makes `main` raise OSError. With any other name nothing is sent and the code is 2.
    pub main-reported :
        main remote transport local place config commands (on_job command job) now
        ≡ elim (is_identifier job) [
          | true ↦ reported command (remote.run now job_call) (job_call ∷ now)
          | false ↦ done (pos 2) now
        ]
    unfolding main run_command run_job_command validate_identifier exit_code_of_end caught
    main-reported = elim (Bool-cases (is_identifier job)) [
      | inl e ↦ rw e (call-reported command job_call now)
      | inr e ↦ rw e refl
    ]
