-- ===== src/Scheduler/Slots.antt =====
-- trie_remote/scheduler.py: the slot files of `ResourcePool` and the permits of a lease.
use remote_worktree_runner.Prelude.{
  ◌-◌, ◌==◌, ℕ, zero, suc, Bool, true, false, Option, none, some, List, [], ◌∷◌, ◌++◌,
  if◌then◌else◌, Text, text_eq,
}

-- A slot file, in the order of the names: the job whose worker holds its `flock`, and its text.
pub record Slot : Type 0 where
  pub holder : Option Text
  pub content : Text

abbrev pub free_slot : Slot
free_slot = record { holder = none; content = [] }

-- The streams that an admitted worker keeps locked.
pub record ResourceLease : Type 0 where
  pub job : Text
  pub permits : ℕ

-- `touch` of the slot files below `capacity`: those that are there already stay. Up to ten slots
-- the order of the names is the order of the indices.
unfoldable pub touch_slots : ℕ → List Slot → List Slot
touch_slots zero slots = slots
touch_slots (suc n) [] = free_slot ∷ touch_slots n []
touch_slots (suc n) (s ∷ slots) = s ∷ touch_slots n slots

-- The lock is taken and the file is rewritten.
abbrev pub locked : Text → Slot
locked job_id = record { holder = some job_id; content = job_id ++ b'\n' ∷ [] }

-- The loop of `_try_slots`, with what is still to be acquired: whether it returned a lease. It
-- counts after it has locked a slot, so a request of no permits is never met.
unfoldable pub acquire : Text → ℕ → List Slot → Bool × List Slot
acquire job_id n [] = (false, [])
acquire job_id n (s ∷ slots) = elim s.holder [
  | some other ↦ let (done, rest) = acquire job_id n slots in (done, s ∷ rest)
  | none ↦
      let (done, rest) = acquire job_id (n - 1) slots in
      if n == 1 then (true, locked job_id ∷ slots) else (done, locked job_id ∷ rest)
]

-- The acquired streams are unlocked: a slot that was free before is free again.
unfoldable pub roll_back : List Slot → List Slot → List Slot
roll_back [] slots = slots
roll_back (o ∷ old) [] = []
roll_back (o ∷ old) (s ∷ slots) = record s { holder = o.holder } ∷ roll_back old slots

unfoldable pub try_slots : Text → ℕ → List Slot → Option ResourceLease × List Slot
try_slots job_id requested slots =
    let (done, taken) = acquire job_id requested slots in
    if done
    then (some (record { job = job_id; permits = requested }), taken)
    else (none, roll_back slots taken)

abbrev pub is_holder : Text → Slot → Bool
is_holder job_id s = elim s.holder [ none ↦ false | some h ↦ text_eq h job_id ]

-- ResourceLease.release
unfoldable pub release : Text → List Slot → List Slot
release job_id [] = []
release job_id (s ∷ slots) =
    (if is_holder job_id s then record s { holder = none } else s) ∷ release job_id slots

-- How many slots are free, and how many a job holds.
unfoldable pub available : List Slot → ℕ
available [] = 0
available (s ∷ slots) = elim s.holder [ none ↦ suc (available slots) | some h ↦ available slots ]

unfoldable pub held : Text → List Slot → ℕ
held job_id [] = 0
held job_id (s ∷ slots) = if is_holder job_id s then suc (held job_id slots) else held job_id slots
