-- ===== src/Scheduler/Tests.antt =====
-- The scheduler: concrete queues and slots.
use remote_worktree_runner.Scheduler.Snapshot.{
  without_repeats, slot_holders, job_ids, waiter_of, find_waiter, waiter_for, exclusive_waiting,
  report_of, snapshot, Report, Waiter, read_tickets, difference,
}
use remote_worktree_runner.Prelude.{
  length, ◌≤◌, ◌≡◌, refl, false, none, some, List, [], ◌∷◌, arith, Text, codes, text_eq, ok, lookup,
}
use remote_worktree_runner.Common.{is_identifier, validate_identifier}
use remote_worktree_runner.JobStore.{exists, Store, empty_directory}
use remote_worktree_runner.Scheduler.Stale.{prune, ticket_is_stale, supersede_tickets}
use remote_worktree_runner.Scheduler.Pool.{
  resource_pool, is_own, ResourcePool, Clock, poll, file_ticket, prune_pool,
}
use remote_worktree_runner.JobStore.State.{pos, queued, no_details}
use remote_worktree_runner.Scheduler.Report.{Placed, snapshot-Placed}
use remote_worktree_runner.Scheduler.Slots.{
  Slot, free_slot, locked, touch_slots, try_slots, available,
}
use remote_worktree_runner.Scheduler.Disk.{DiskGuard}
use remote_worktree_runner.Scheduler.Tickets.{Ticket, Queue, new_ticket}
use remote_worktree_runner.Scheduler.Permits.{try_slots_lem}
use remote_worktree_runner.Scheduler.Exclusion.{
  System, polls, here, next, total, poll_step, exclusion,
}
use remote_worktree_runner.Scheduler.Fifo.{Front}
use remote_worktree_runner.Scheduler.Admission.{lease_of, poll_fifo}
use remote_worktree_runner.Scheduler.Confusion.{Extended, confused_never_admitted}
use remote_worktree_runner.Scheduler.Supersession.{others_of, supersede_lem}

abbrev a : Text
a = codes "a"

abbrev b : Text
b = codes "b"

-- The job `b` ends this one's id behind a hyphen.
abbrev ab : Text
ab = codes "a-b"

abbrev guard : DiskGuard
guard = record { minimum = 20; warning = 15; cancellation = 10 }

abbrev two_free : List Slot
two_free = free_slot ∷ locked a ∷ free_slot ∷ []

try_slots_lem_example : (try_slots b 2 two_free).0 ≡ some (record { job = b; permits = 2 })
unfolding available
try_slots_lem_example = ((try_slots_lem b 2 two_free).0 (omega arith, omega arith)).0

-- One ticket, of the job `ab`, in a pool of two slots.
abbrev waiting_queue : Queue
waiting_queue = new_ticket ab 1 (some (codes "s")) 7 7 ∷ []

abbrev pool : ResourcePool
pool = record {
  capacity = 2;
  store = none;
  worker_inactive = none;
  queue = waiting_queue;
  slots = free_slot ∷ free_slot ∷ [];
}

abbrev system : System
system = record { pool = pool; leases = [] }

exclusion_example : total (poll_step ab 2 false system).leases ≤ 2
unfolding resource_pool touch_slots
exclusion_example =
    (exclusion 2 system (poll_step ab 2 false system) (refl, refl) (next here (polls ab 2 false))).0

ab_first : Front none none waiting_queue (new_ticket ab 1 (some (codes "s")) 7 7) (record {
  job_id = some ab;
  requested_permits = some 1;
  created_at = some 7;
  session = some (codes "s");
})
unfolding ticket_is_stale
ab_first = record {
  skipped = [];
  behind = [];
  split = refl;
  dropped = tt;
  readable = refl;
  live = refl;
}

poll_fifo_example : (poll ab 1 false pool).0 ≡ ok (some (lease_of ab 1))
unfolding prune_pool prune ticket_is_stale text_eq available
poll_fifo_example = ((poll_fifo ab 1 pool refl).1 _ _ ab_first refl (omega arith)).0

abbrev clock : Clock
clock = record { time_ns = 8; time = 8 }

b-Extended : Extended b pool.queue
b-Extended = record {
  prefix = a;
  time = 7;
  before = [];
  file = new_ticket ab 1 (some (codes "s")) 7 7;
  behind = [];
  split = refl;
  named = refl;
}

just {ℓ} : {A : Type ℓ} {x y : A} → some x ≡ some y → x ≡ y
just e = cc

b_absent :
    (t : Ticket) → (new_ticket ab 1 (some (codes "s")) 7 7).body ≡ some t → is_own b t ≡ false
unfolding text_eq
b_absent t e = let same = just e in rw (← same) refl

confused_never_admitted_example : file_ticket b 1 none clock pool ≡ (ok tt, pool)
unfolding prune_pool prune ticket_is_stale
confused_never_admitted_example =
    (confused_never_admitted b 1 clock pool b-Extended (b_absent, tt) refl).0

-- The job `ab` waits for the session that `a` now takes.
abbrev store : Store
store =
    (
      ab,
      record empty_directory {
        status =
            some
              (record { state = queued; created_at = []; updated_at = none; details = no_details });
      },
    )
    ∷ []

supersede_lem_example :
    (supersede_tickets none a (codes "s") waiting_queue store).1
    ≡ others_of a (codes "s") waiting_queue
unfolding supersede_tickets text_eq ticket_is_stale exists validate_identifier is_identifier lookup
supersede_lem_example = (supersede_lem none a (codes "s") waiting_queue store refl).0

-- The job `ab` asks where it stands.
abbrev report : Report
report = record {
  capacity = 2;
  held_permits = pos 0;
  available_permits = 2;
  queued_jobs = 1;
  exclusive = false;
  waiter = some (record {
    queue_position = 1;
    queue_wait_seconds = 3;
    requested_permits = 1;
    blocked_by = [];
  });
}

snapshot-Placed_example :
    (tickets : List Ticket) × (read_tickets (prune_pool pool).1.queue ≡ ok tickets)
    × (report.available_permits ≡ available pool.slots)
    × (report.held_permits ≡ difference pool.capacity (available pool.slots))
    × (report.queued_jobs ≡ length tickets)
    × ((w : Waiter) → report.waiter ≡ some w → Placed ab tickets w)
unfolding snapshot prune_pool prune ticket_is_stale read_tickets report_of exclusive_waiting
    waiter_for find_waiter text_eq waiter_of job_ids difference slot_holders without_repeats
snapshot-Placed_example = snapshot-Placed 10 ab pool report refl
