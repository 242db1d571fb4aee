-- ===== src/Scheduler/Snapshot.antt =====
-- trie_remote/scheduler.py: `ResourcePool._slot_holders` and `ResourcePool.snapshot`.
use remote_worktree_runner.Prelude.{
  ℕ, suc, ◌+◌, ◌-◌, Bool, true, false, Option, none, some, List, [], ◌∷◌, ◌++◌, leb, ◌==◌,
  if◌then◌else◌, length, Text, one_of, Result, ok, err, ◌>>=◌,
}
use remote_worktree_runner.Prelude.{strip_left, strip_right}
use remote_worktree_runner.Errors.{Error, unreadable_ticket, ticket_field_missing}
use remote_worktree_runner.JobStore.State.{ℤ, pos, negsuc}
use remote_worktree_runner.Scheduler.Tickets.{Ticket, Queue}
use remote_worktree_runner.Scheduler.Slots.{Slot}
use remote_worktree_runner.Scheduler.Pool.{ResourcePool, PoolOutcome, prune_pool, is_own}

-- holder = stream.read().decode(…).strip()
abbrev pub holder_name : Slot → Text
holder_name s = strip_right (strip_left s.content)

abbrev pub add_holder : Text → List Text → List Text
add_holder [] holders = holders
add_holder (c ∷ name) holders = (c ∷ name) ∷ holders

-- Who holds the locked slots, and how many slots are free.
unfoldable pub slot_holders : List Slot → List Text × ℕ
slot_holders [] = ([], 0)
slot_holders (s ∷ slots) =
    let (holders, free) = slot_holders slots in
    elim s.holder [
      | none ↦ (holders, suc free)
      | some _ ↦ (add_holder (holder_name s) holders, free)
    ]

-- value[key] of a ticket's object.
abbrev pub field {ℓ} : {A : Type ℓ} → Option A → Result Error A
field none = err ticket_field_missing
field (some a) = ok a

unfoldable pub read_tickets : Queue → Result Error (List Ticket)
read_tickets [] = ok []
read_tickets (f ∷ q) = elim f.body [
  | none ↦ err unreadable_ticket
  | some t ↦ (read_tickets q >>= λ ts. ok (t ∷ ts))
]

-- any(int(ticket["requested_permits"]) == self.capacity for ticket in tickets)
unfoldable pub exclusive_waiting : ℕ → List Ticket → Result Error Bool
exclusive_waiting capacity [] = ok false
exclusive_waiting capacity (t ∷ tickets) =
    let rest = exclusive_waiting capacity tickets in
    field t.requested_permits >>= λ n. if n == capacity then ok true else rest

-- self.capacity - available
unfoldable pub difference : ℕ → ℕ → ℤ
difference a b = if leb b a then pos (a - b) else negsuc (b - suc a)

-- What is reported for the job that is asked about.
pub record Waiter : Type 0 where
  pub queue_position : ℕ
  pub queue_wait_seconds : ℕ
  pub requested_permits : ℕ
  pub blocked_by : List Text

pub record Report : Type 0 where
  pub capacity : ℕ
  pub held_permits : ℤ
  pub available_permits : ℕ
  pub queued_jobs : ℕ
  pub exclusive : Bool
  pub waiter : Option Waiter

-- dict.fromkeys(names): the first of each name; `seen` holds those that stand before.
unfoldable pub without_repeats : List Text → List Text → List Text
without_repeats seen [] = []
without_repeats seen (n ∷ names) =
    let rest = without_repeats (n ∷ seen) names in if one_of n seen then rest else n ∷ rest

-- [str(value["job_id"]) for value in tickets[:index]]
unfoldable pub job_ids : List Ticket → Result Error (List Text)
job_ids [] = ok []
job_ids (t ∷ tickets) = do j ← field t.job_id; js ← job_ids tickets; ok (j ∷ js)

-- `older` are the tickets before `t`; max(0.0, now - created_at) is the subtraction that stops at 0.
unfoldable pub waiter_of : ℕ → List Text → List Ticket → Ticket → Result Error Waiter
waiter_of now holders older t = do
  ids ← job_ids older
  created_at ← field t.created_at
  requested ← field t.requested_permits
  ok (record {
    queue_position = length older + 1;
    queue_wait_seconds = now - created_at;
    requested_permits = requested;
    blocked_by = without_repeats [] (ids ++ holders);
  })

-- The loop over the tickets.
unfoldable pub find_waiter :
    ℕ → List Text → Text → List Ticket → List Ticket → Result Error (Option Waiter)
find_waiter now holders job_id older [] = ok none
find_waiter now holders job_id older (t ∷ tickets) =
    let rest = find_waiter now holders job_id (older ++ t ∷ []) tickets in
    if is_own job_id t then (waiter_of now holders older t >>= λ w. ok (some w)) else rest

unfoldable pub waiter_for : ℕ → List Text → Option Text → List Ticket → Result Error (Option Waiter)
waiter_for now holders none tickets = ok none
waiter_for now holders (some job_id) tickets = find_waiter now holders job_id [] tickets

unfoldable pub report_of : ℕ → Option Text → ResourcePool → List Ticket → Result Error Report
report_of now job_id p tickets =
    let (holders, free) = slot_holders p.slots in
    do
      exclusive ← exclusive_waiting p.capacity tickets
      waiter ← waiter_for now holders job_id tickets
      ok (record {
        capacity = p.capacity;
        held_permits = difference p.capacity free;
        available_permits = free;
        queued_jobs = length tickets;
        exclusive = exclusive;
        waiter = waiter;
      })

abbrev pub report_after : ℕ → Option Text → PoolOutcome (Unit {0}) → PoolOutcome Report
report_after now job_id (err e, p) = (err e, p)
report_after now job_id (ok _, p) = (read_tickets p.queue >>= report_of now job_id p, p)

-- `now` is `time.time()`.
unfoldable pub snapshot : ℕ → Option Text → ResourcePool → PoolOutcome Report
snapshot now job_id p = report_after now job_id (prune_pool p)
