-- ===== src/ServerWorkspace/Shallow.antt =====
-- The loop that makes a mirror take shallow pushes.
use remote_worktree_runner.Prelude.{
  ℕ, zero, suc, ◌+◌, ◌*◌, ◌≤◌, ◌<◌, ◌≡◌, inl, inr, true, List, ◌∷◌, arith, Bool-cases, length, Text,
  codes, contains, lower,
}
use remote_worktree_runner.Errors.{mirror_not_ready}
use remote_worktree_runner.Effects.{Ended, done, raised}
use remote_worktree_runner.ServerWorkspace.{
  Event, ran, Host, Work, succeeded, is_enabled, get_command, set_command, run_unchecked,
  next_round, retry, after_setting, after_reading, enable_from, enable_shallow_updates,
}

-- How the loop ends within so many commands: the last one read that the setting is on, or switched
-- it on; or a RuntimeError was raised.
pub data Enabling (host : Host) (mirror : Text) (limit : ℕ) : Ended Event (Unit {0}) → Type 0 where
  was_on :
      {before : List Event}
      → is_enabled (host.run before (get_command mirror)) ≡ true
      → length before < limit
      → Enabling host mirror limit (done tt (ran (get_command mirror) ∷ before))
  switched_on :
      {before : List Event}
      → succeeded (host.run before (set_command mirror)) ≡ true
      → length before < limit
      → Enabling host mirror limit (done tt (ran (set_command mirror) ∷ before))
  gave_up :
      {now : List Event}
      → length now ≤ limit
      → Enabling host mirror limit (raised mirror_not_ready now)

module _ (host : Host) (mirror : Text) where
  next_round-Enabling :
      (rounds limit : ℕ) (again : Work (Unit {0})) (now : List Event)
      → length now + 2 * rounds ≤ limit
      → (0 < rounds → Enabling host mirror limit (again now))
      → Enabling host mirror limit (next_round host rounds again now)
  unfolding next_round
  next_round-Enabling zero limit again now h more = gave_up (omega arith)
  next_round-Enabling (suc rounds) limit again now h more = more (omega arith)

  retry-Enabling :
      (rounds limit : ℕ) (again : Work (Unit {0})) (detail : Text) (now : List Event)
      → length now + 2 * rounds ≤ limit
      → (0 < rounds → Enabling host mirror limit (again now))
      → Enabling host mirror limit (retry host rounds again detail now)
  unfolding retry
  retry-Enabling rounds limit again detail now h more =
      elim (Bool-cases (contains (codes "could not lock config file") (lower detail))) [
        | inr e ↦ rw (e, retry) (gave_up (omega arith))
        | inl e ↦ rw (e, retry) (next_round-Enabling rounds limit again now h more)
      ]

  after_setting-Enabling :
      (rounds limit : ℕ) (again : Work (Unit {0})) (before : List Event)
      → length before + 1 + 2 * rounds ≤ limit
      → (0 < rounds → Enabling host mirror limit (again (ran (set_command mirror) ∷ before)))
      → Enabling host mirror limit (
          after_setting host rounds again
            (host.run before (set_command mirror))
            (ran (set_command mirror) ∷ before))
  unfolding after_setting
  after_setting-Enabling rounds limit again before h more =
      elim (Bool-cases (succeeded (host.run before (set_command mirror)))) [
        | inl e ↦ rw (e, after_setting) (switched_on e (omega arith))
        | inr e ↦
            rw (e, after_setting)
              (retry-Enabling rounds limit again _ (ran (set_command mirror) ∷ before) (omega arith)
                more)
      ]

  enable_from-Enabling :
      (rounds limit : ℕ) (start : List Event)
      → length start + 2 * rounds ≤ limit
      → Enabling host mirror limit (enable_from host rounds mirror start)
  unfolding enable_from run_unchecked after_reading
  enable_from-Enabling zero limit start h = gave_up (omega arith)
  enable_from-Enabling (suc rounds) limit start h =
      let read : List Event = ran (get_command mirror) ∷ start in
      elim (Bool-cases (is_enabled (host.run start (get_command mirror)))) [
        | inl e ↦ rw (e, after_reading) (was_on e (omega arith))
        | inr e ↦
            rw (e, after_reading)
              (after_setting-Enabling rounds limit (enable_from host rounds mirror) read
                (omega arith)
                (λ _.
                  enable_from-Enabling rounds limit (ran (set_command mirror) ∷ read)
                    (omega arith)))
      ]

-- Whatever Git answers, the loop ends within six commands. If it returns, its last command read that
-- shallow pushes are on, or switched them on; else it raises the RuntimeError.
pub enable_shallow_updates-Enabling :
    (host : Host) (mirror : Text) (start : List Event)
    → Enabling host mirror (length start + 6) (enable_shallow_updates host mirror start)
unfolding enable_shallow_updates
enable_shallow_updates-Enabling host mirror start =
    enable_from-Enabling host mirror 3 (length start + 6) start (omega arith)
