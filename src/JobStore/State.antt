-- ===== src/JobStore/State.antt =====
-- trie_remote/job_store.py: the states of a job and the status record.
pub use remote_worktree_runner.Prelude.{ℤ, pos, negsuc}
use remote_worktree_runner.Prelude.{ℕ, Bool, true, false, Option, none, some, Text}

-- The strings of the source's state machine; `other` is any string that is none of them.
pub data JobState : Type 0 where
  preparing queued running passed failed cancelled : JobState
  other : Text → JobState

-- state in FINAL_STATES
abbrev pub is_final : JobState → Bool
is_final passed = true
is_final failed = true
is_final cancelled = true
is_final _ = false

-- state in TRANSITIONS.get(old_state, frozenset())
unfoldable pub may_transition : JobState → JobState → Bool
may_transition preparing queued = true
may_transition preparing failed = true
may_transition preparing cancelled = true
may_transition queued running = true
may_transition queued failed = true
may_transition queued cancelled = true
may_transition running state = is_final state
may_transition _ _ = false

-- The source writes some times in ISO form and some as seconds since the epoch.
pub data Timestamp : Type 0 where
  iso : Text → Timestamp
  epoch : ℕ → Timestamp

-- The keys that `transition` is called with as `**details`.
pub record Details : Type 0 where
  pub exit_code : Option ℤ
  pub reason : Option Text
  pub finished_at : Option Timestamp
  pub unit : Option Text
  pub admitted_free_bytes : Option ℕ
  pub pid : Option ℕ
  pub started_at : Option Timestamp

abbrev pub no_details : Details
no_details = record {
  exit_code = none;
  reason = none;
  finished_at = none;
  unit = none;
  admitted_free_bytes = none;
  pid = none;
  started_at = none;
}

pub record Status : Type 0 where
  pub state : JobState
  pub created_at : Text
  pub updated_at : Option Text
  pub details : Details

abbrev pub or_else {ℓ} : {A : Type ℓ} → Option A → Option A → Option A
or_else (some a) old = some a
or_else none old = old

-- {**current, **details}
unfoldable pub merge : Details → Details → Details
merge old new = record {
  exit_code = or_else new.exit_code old.exit_code;
  reason = or_else new.reason old.reason;
  finished_at = or_else new.finished_at old.finished_at;
  unit = or_else new.unit old.unit;
  admitted_free_bytes = or_else new.admitted_free_bytes old.admitted_free_bytes;
  pid = or_else new.pid old.pid;
  started_at = or_else new.started_at old.started_at;
}
