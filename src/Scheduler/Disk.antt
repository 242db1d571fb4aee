-- ===== src/Scheduler/Disk.antt =====
-- trie_remote/scheduler.py: `DiskGuard`. What `shutil.disk_usage` reports is an argument.
use remote_worktree_runner.Errors.{Error, admission_rejected}
use remote_worktree_runner.Prelude.{
  ℕ, ◌*◌, ◌^◌, ◌≤◌, ◌<◌, ◌≡◌, ◌≢◌, Bool, true, ◌&&◌, ◌||◌, arith, ltb, if◌then◌else◌, Text, codes,
  text_eq, Result, ok, err,
}

abbrev pub gib : ℕ
gib = 1024 ^ 3

pub record DiskGuard : Type 0 where
  pub minimum : ℕ
  pub warning : ℕ
  pub cancellation : ℕ

-- DiskGuard.__init__
unfoldable pub disk_guard : ℕ → ℕ → ℕ → DiskGuard
disk_guard minimum_gib warning_gib cancellation_gib = record {
  minimum = minimum_gib * gib;
  warning = warning_gib * gib;
  cancellation = cancellation_gib * gib;
}

-- weight in {"heavy", "exclusive"}
unfoldable pub needs_permits : Text → Bool
needs_permits weight = text_eq weight (codes "heavy") || text_eq weight (codes "exclusive")

unfoldable pub admit : DiskGuard → Text → ℕ → Result Error ℕ
admit guard weight free =
    if needs_permits weight && ltb free guard.minimum then err admission_rejected else ok free

pub data Pressure : Type 0 where
  cancel warning healthy : Pressure

unfoldable pub monitor : DiskGuard → ℕ → Pressure
monitor guard free =
    if ltb free guard.cancellation
    then cancel
    else if ltb free guard.warning
    then warning
    else healthy

-- Work that is admitted at a free space which does not fall is not cancelled for want of disk,
-- if the admission threshold is at least the cancellation threshold. Work that is refused is
-- heavy or exclusive, and below the admission threshold.
pub admit-monitor :
    (guard : DiskGuard) (weight : Text) (free later : ℕ)
    → guard.cancellation ≤ guard.minimum
    → needs_permits weight ≡ true
    → free ≤ later
    → (admit guard weight free ≡ ok free → monitor guard later ≢ cancel)
      × (admit guard weight free ≢ ok free → free < guard.minimum)
unfolding admit monitor
admit-monitor guard weight free later order heavy more = (λ h e. ground arith, λ h. ground arith)
