-- ===== src/ServerCli/Execute.antt =====
-- trie_remote/server_cli.py: `_execute_job`. The copying of the log to the terminal is left out.
use remote_worktree_runner.Prelude.{
  Option, none, some, List, [], ◌∷◌, if◌then◌else◌, Text, Result, ok, err, ◌>>=◌, lookup,
}
use remote_worktree_runner.Errors.{Error}
use remote_worktree_runner.JobStore.State.{JobState, preparing, passed, ℤ, pos, Status, is_final}
use remote_worktree_runner.JobStore.Spec.{JobSpec}
use remote_worktree_runner.JobStore.{Store, Outcome, job_directory, read, load, status}
use remote_worktree_runner.ServerCli.Start.{Launch, start_job}

-- status.get("exit_code", 0 if status["state"] == "passed" else 1)
unfoldable pub exit_code_of : Status → ℤ
exit_code_of st = elim st.details.exit_code [
  | some code ↦ code
  | none ↦ elim st.state [ passed ↦ pos 0 | _ ↦ pos 1 ]
]

-- log_path.open("r"), and then the status.
unfoldable pub read_round : Text → Store → Result Error Status
read_round job_id s = do
  name ← job_directory job_id
  d ← read (lookup name s)
  text ← read d.output
  status job_id s

-- The loop: `others` is what the worker and the other processes do before each reading. `none` if
-- the job is not final behind the last.
unfoldable pub follow : Text → List (Store → Store) → Store → Outcome (Option ℤ)
follow job_id [] s = (ok none, s)
follow job_id (others ∷ rounds) s =
    let s₁ = others s in
    let rest = follow job_id rounds s₁ in
    elim (read_round job_id s₁) [
      | err e ↦ (err e, s₁)
      | ok st ↦ if is_final st.state then (ok (some (exit_code_of st)), s₁) else rest
    ]

unfoldable pub followed : Text → List (Store → Store) → Outcome Status → Outcome (Option ℤ)
followed job_id rounds (err e, s) = (err e, s)
followed job_id rounds (ok _, s) = follow job_id rounds s

-- if status["state"] == "preparing"
unfoldable pub execute_in :
    Launch → Text → List (Store → Store) → JobSpec → JobState → Store → Outcome (Option ℤ)
execute_in ev job_id rounds spec preparing s = followed job_id rounds (start_job ev spec s)
execute_in ev job_id rounds spec _ s = follow job_id rounds s

unfoldable pub execute_from :
    Launch
    → Text
    → List (Store → Store)
    → Result Error (JobSpec × Status)
    → Store
    → Outcome (Option ℤ)
execute_from ev job_id rounds (err e) s = (err e, s)
execute_from ev job_id rounds (ok (spec, st)) s = execute_in ev job_id rounds spec st.state s

unfoldable pub read_job : Text → Text → Store → Result Error (JobSpec × Status)
read_job now job_id s = do spec ← load now job_id s; st ← status job_id s; ok (spec, st)

unfoldable pub execute_job : Launch → Text → List (Store → Store) → Store → Outcome (Option ℤ)
execute_job ev job_id rounds s = execute_from ev job_id rounds (read_job ev.utc_now job_id s) s
