-- ===== src/Scheduler/Pool.antt =====
-- trie_remote/scheduler.py: the class `ResourcePool`. A critical section under `queue.lock` is one
-- function; the other processes act between them.
use remote_worktree_runner.Errors.{
  Error, bad_capacity, bad_weight, scheduler_cancelled, unreadable_ticket,
}
use remote_worktree_runner.Common.{validate_identifier}
use remote_worktree_runner.JobStore.{Store, is_cancel_requested}
use remote_worktree_runner.Scheduler.Disk.{needs_permits}
use remote_worktree_runner.Scheduler.Tickets.{Ticket, Queue, write_ticket, remove_ticket}
use remote_worktree_runner.Scheduler.Stale.{prune, supersede_session}
use remote_worktree_runner.Scheduler.Slots.{Slot, ResourceLease, touch_slots, try_slots}
use remote_worktree_runner.Prelude.{
  ℕ, Bool, false, Option, none, some, List, [], ◌∷◌, ltb, if◌then◌else◌, Text, codes, text_eq,
  Result, ok, err, ◌>>◌,
}

pub record ResourcePool : Type 0 where
  pub capacity : ℕ
  pub store : Option Store
  pub worker_inactive : Option (Text → Bool)
  pub queue : Queue
  pub slots : List Slot

-- ResourcePool.__init__ over the directories `queue` and `slots` as it finds them.
unfoldable pub resource_pool :
    ℕ → Option Store → Option (Text → Bool) → Queue → List Slot → Result Error ResourcePool
resource_pool capacity store worker_inactive queue slots =
    if ltb capacity 1
    then err bad_capacity
    else ok (record {
      capacity = capacity;
      store = store;
      worker_inactive = worker_inactive;
      queue = queue;
      slots = touch_slots capacity slots;
    })

-- What a call returns or raises, and the pool afterwards.
abbrev pub PoolOutcome {ℓ} : Type ℓ → Type ℓ
PoolOutcome A = Result Error A × ResourcePool

unfoldable pub prune_pool : ResourcePool → PoolOutcome (Unit {0})
prune_pool p = let (r, q) = prune p.worker_inactive p.store p.queue in (r, record p { queue = q })

unfoldable pub supersede_pool : Text → Option Text → ResourcePool → PoolOutcome (Unit {0})
supersede_pool job_id session p =
    let (r, q, s) = supersede_session p.worker_inactive job_id session p.queue p.store in
    (r, record p { queue = q; store = s })

-- The two readings of the clock in `_write_ticket`.
pub record Clock : Type 0 where
  pub time_ns : ℕ
  pub time : ℕ

unfoldable pub after {ℓ} :
    {A B : Type ℓ} → PoolOutcome A → (ResourcePool → PoolOutcome B) → PoolOutcome B
after (err e, p) k = (err e, p)
after (ok _, p) k = k p

-- The critical section that files the ticket.
unfoldable pub file_ticket : Text → ℕ → Option Text → Clock → ResourcePool → PoolOutcome (Unit {0})
unfolding after
file_ticket job_id requested session clock p = after (prune_pool p) λ p₁.
    after (supersede_pool job_id session p₁) λ p₂. (
      ok tt,
      record p₂ { queue = write_ticket job_id requested session clock.time_ns clock.time p₂.queue },
    )

-- requested = self.capacity if weight == "exclusive" else 1
unfoldable pub permits_for : Text → ResourcePool → ℕ
permits_for weight p = if text_eq weight (codes "exclusive") then p.capacity else 1

-- What `wait` knows when its loop begins: a lease already, or the permits that it asks for.
pub data Admission : Type 0 where
  admitted : ResourceLease → Admission
  waiting : ℕ → Admission

check_optional : Option Text → Result Error (Unit {0})
check_optional none = ok tt
check_optional (some s) = do validate_identifier s; ok tt

unfoldable pub checked :
    Result Error (Unit {0}) → ResourcePool → PoolOutcome Admission → PoolOutcome Admission
checked (err e) p rest = (err e, p)
checked (ok _) p rest = rest

unfoldable pub filed : PoolOutcome (Unit {0}) → ℕ → PoolOutcome Admission
filed (err e, p) requested = (err e, p)
filed (ok _, p) requested = (ok (waiting requested), p)

-- `wait` down to its loop.
unfoldable pub begin_wait : Text → Text → Option Text → Clock → ResourcePool → PoolOutcome Admission
unfolding checked check_optional filed
begin_wait job_id weight session clock p =
    checked (validate_identifier job_id >> check_optional session) p (
      if text_eq weight (codes "light")
      then (ok (admitted (record { job = job_id; permits = 0 })), p)
      else if needs_permits weight
      then filed (file_ticket job_id (permits_for weight p) session clock p) (permits_for weight p)
      else (err bad_weight, p))

unfoldable pub admit_head :
    Text → Option ResourceLease × List Slot → ResourcePool → PoolOutcome (Option ResourceLease)
admit_head job_id (none, slots) p = (ok none, record p { slots = slots })
admit_head job_id (some lease, slots) p =
    (ok (some lease), record p { slots = slots; queue = remove_ticket job_id p.queue })

-- head.get("job_id") == safe_job
abbrev pub is_own : Text → Ticket → Bool
is_own job_id t = elim t.job_id [ none ↦ false | some j ↦ text_eq j job_id ]

unfoldable pub try_head : Text → ℕ → Queue → ResourcePool → PoolOutcome (Option ResourceLease)
unfolding admit_head
try_head job_id requested [] p = (ok none, p)
try_head job_id requested (f ∷ q) p = elim f.body [
  | none ↦ (err unreadable_ticket, p)
  | some t ↦
      if is_own job_id t
      then admit_head job_id (try_slots job_id requested p.slots) p
      else (ok none, p)
]

-- The critical section of one round: a lease, or none and the loop goes on.
unfoldable pub try_admit : Text → ℕ → ResourcePool → PoolOutcome (Option ResourceLease)
unfolding after try_head
try_admit job_id requested p = after (prune_pool p) λ p₁. try_head job_id requested p₁.queue p₁

-- One round of the loop; `cancelled` is what the callback returns.
unfoldable pub poll : Text → ℕ → Bool → ResourcePool → PoolOutcome (Option ResourceLease)
poll job_id requested cancelled p =
    if cancelled
    then (err scheduler_cancelled, record p { queue = remove_ticket job_id p.queue })
    else try_admit job_id requested p

-- The loop: before each round the other processes change the pool and the store, and `cancelled`
-- is `cancel.requested` of the job, as `run_job` passes it. `none`: the rounds ran out.
unfoldable pub cancel_seen : Text → Option Store → Bool
cancel_seen job_id none = false
cancel_seen job_id (some s) = is_cancel_requested job_id s

unfoldable pub poll_rounds :
    Text
    → ℕ
    → List (ResourcePool → ResourcePool)
    → ResourcePool
    → PoolOutcome (Option ResourceLease)
unfolding cancel_seen
poll_rounds job_id requested [] p = (ok none, p)
poll_rounds job_id requested (others ∷ rounds) p =
    let p₁ = others p in
    let (r, p₂) = poll job_id requested (cancel_seen job_id p₁.store) p₁ in
    elim r [
      | err e ↦ (err e, p₂)
      | ok (some lease) ↦ (ok (some lease), p₂)
      | ok none ↦ poll_rounds job_id requested rounds p₂
    ]

unfoldable pub wait_on :
    Text
    → List (ResourcePool → ResourcePool)
    → PoolOutcome Admission
    → PoolOutcome (Option ResourceLease)
wait_on job_id rounds (err e, p) = (err e, p)
wait_on job_id rounds (ok (admitted lease), p) = (ok (some lease), p)
wait_on job_id rounds (ok (waiting requested), p) = poll_rounds job_id requested rounds p

-- `wait` with the rounds of its loop; `none` if it still waits after them.
unfoldable pub wait :
    Text
    → Text
    → Option Text
    → Clock
    → List (ResourcePool → ResourcePool)
    → ResourcePool
    → PoolOutcome (Option ResourceLease)
unfolding wait_on
wait job_id weight session clock rounds p =
    wait_on job_id rounds (begin_wait job_id weight session clock p)
