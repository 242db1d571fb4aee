-- ===== src/ServerCli/Reconcile.antt =====
-- trie_remote/server_cli.py: `_reconcile_inactive_unit`.
use remote_worktree_runner.Scheduler.Units.{unit_is_inactive}
use remote_worktree_runner.Prelude.{
  List, Option, none, some, ◌++◌, if◌then◌else◌, Text, codes, Result, ok, err,
}
use remote_worktree_runner.Errors.{Error, is_value_error}
use remote_worktree_runner.JobStore.State.{
  cancelled, pos, iso, Details, no_details, Status, is_final,
}
use remote_worktree_runner.JobStore.{Store, Outcome, status, transition}

-- f"trie-job-{job_id}"
abbrev pub unit_name : Text → Text
unit_name job_id = codes "trie-job-" ++ job_id

-- str(status.get("unit", …))
abbrev pub unit_of : Text → Status → Text
unit_of job_id st = elim st.details.unit [ none ↦ unit_name job_id | some unit ↦ unit ]

abbrev pub gone : Text → Details
gone now = record no_details {
  exit_code = some (pos 127);
  reason = some (codes "worker unit is no longer active");
  finished_at = some (iso now);
}

-- `except ValueError`: another process may have finished the job meanwhile.
unfoldable pub after_refusal : Error → Result Error Status → Result Error (Option Status)
after_refusal e (err x) = err x
after_refusal e (ok latest) = if is_final latest.state then ok (some latest) else err e

unfoldable pub settle : Text → Outcome Status → Outcome (Option Status)
settle job_id (ok st, s) = (ok (some st), s)
settle job_id (err e, s) =
    if is_value_error e then (after_refusal e (status job_id s), s) else (err e, s)

-- `raced` is what the other processes do between the second reading and the transition.
unfoldable pub finalize :
    Text → (Store → Store) → Text → Result Error Status → Store → Outcome (Option Status)
finalize job_id raced now (err e) s = (err e, s)
finalize job_id raced now (ok latest) s =
    if is_final latest.state
    then (ok (some latest), s)
    else settle job_id (transition job_id cancelled (gone now) now (raced s))

-- `systemctl` is what systemd prints for a unit; `st` is the status that was read before.
unfoldable pub reconcile_inactive_unit :
    (Text → Option (List Text))
    → Text
    → Status
    → (Store → Store)
    → Text
    → Store
    → Outcome (Option Status)
reconcile_inactive_unit systemctl job_id st raced now s =
    if unit_is_inactive (systemctl (unit_of job_id st))
    then finalize job_id raced now (status job_id s) s
    else (ok none, s)
