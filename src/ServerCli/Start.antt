-- ===== src/ServerCli/Start.antt =====
-- trie_remote/server_cli.py: `_start_job`.
use remote_worktree_runner.Prelude.{
  ℕ, Bool, true, false, Option, none, some, ◌++◌, if◌then◌else◌, Text, codes, Result, ok, err,
  ◌>>=◌, ◌>>◌, require,
}
use remote_worktree_runner.Errors.{
  Error, reservation_mismatch, not_preparing, start_failed, os_error,
}
use remote_worktree_runner.JobStore.State.{
  preparing, queued, failed, cancelled, pos, iso, no_details, Status, is_final,
}
use remote_worktree_runner.JobStore.Spec.{JobSpec}
use remote_worktree_runner.JobStore.{Store, Outcome, create, exists, load, status, transition}
use remote_worktree_runner.Scheduler.Disk.{DiskGuard, admit}
use remote_worktree_runner.ServerCli.Reconcile.{unit_name}
use remote_worktree_runner.ServerCli.Equality.{spec_eq}

-- How `subprocess.run` of `systemd-run` ends: with code 0, with another, or with the OSError of a
-- program that cannot be run.
pub data UnitStart : Type 0 where
  unit_started unit_refused not_run : UnitStart

-- What comes from outside while a job is started: the thresholds and the free space, none where
-- `disk_usage` raises OSError, the text of a refused admission, the end of `systemd-run`, and the
-- time.
pub record Launch : Type 0 where
  pub guard : DiskGuard
  pub free : Option ℕ
  pub refusal : Text
  pub started : UnitStart
  pub utc_now : Text

-- The status to return at once, or none where the start goes on.
unfoldable pub reserved_status : Status → Result Error (Option Status)
reserved_status st = elim st.state [
  | preparing ↦ ok none
  | _ ↦ if is_final st.state then ok (some st) else err not_preparing
]

unfoldable pub check_reservation : Text → JobSpec → Store → Result Error (Option Status)
check_reservation now spec s = do
  stored ← load now spec.job_id s
  require (spec_eq stored spec) reservation_mismatch
  st ← status spec.job_id s
  reserved_status st

unfoldable pub created : Outcome Text → Outcome (Option Status)
created (err e, s) = (err e, s)
created (ok _, s) = (ok none, s)

unfoldable pub reserve : Text → Result Error Bool → JobSpec → Store → Outcome (Option Status)
reserve now (err e) spec s = (err e, s)
reserve now (ok true) spec s = (check_reservation now spec s, s)
reserve now (ok false) spec s = created (create spec s)

-- systemd-run, and the transition where it returns another code; the exception is raised again.
unfoldable pub launched : Launch → Text → Outcome Status → Outcome Status
launched ev job_id (err e, s) = (err e, s)
launched ev job_id (ok st, s) =
    let (r, s') =
      transition job_id cancelled
        (record no_details { reason = some (codes "systemd start failed") }) ev.utc_now s in
    elim ev.started [
      | unit_started ↦ (ok st, s)
      | unit_refused ↦ (r >> err start_failed, s')
      | not_run ↦ (err os_error, s)
    ]

unfoldable pub launch : Launch → JobSpec → Result Error ℕ → Store → Outcome Status
launch ev spec (err e) s =
    transition spec.job_id failed
      (record no_details {
        exit_code = some (pos 1);
        reason = some (codes "admission rejected: " ++ ev.refusal);
        finished_at = some (iso ev.utc_now);
      })
      ev.utc_now s
launch ev spec (ok free) s = launched ev spec.job_id (
    transition spec.job_id queued
      (record no_details { unit = some (unit_name spec.job_id); admitted_free_bytes = some free })
      ev.utc_now s)

unfoldable pub start_reserved : Launch → JobSpec → Outcome (Option Status) → Outcome Status
start_reserved ev spec (err e, s) = (err e, s)
start_reserved ev spec (ok (some st), s) = (ok st, s)
start_reserved ev spec (ok none, s) = elim ev.free [
  | none ↦ (err os_error, s)
  | some free ↦ launch ev spec (admit ev.guard spec.weight free) s
]

-- The answer has the job id and the unit besides the status, which names the unit too.
unfoldable pub start_job : Launch → JobSpec → Store → Outcome Status
start_job ev spec s = start_reserved ev spec (reserve ev.utc_now (exists spec.job_id s) spec s)
