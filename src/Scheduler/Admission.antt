-- ===== src/Scheduler/Admission.antt =====
-- When a round of `wait` admits its job, and what it then leaves.
use remote_worktree_runner.Prelude.{
  ◌<◌, ap, false, ℕ, ◌≤◌, ◌≡◌, refl, inl, inr, true, some, [], ◌∷◌, arith, Option-cases, Text, ok,
}
use remote_worktree_runner.Scheduler.Fifo.{prune-Front, Front-prune, Front}
use remote_worktree_runner.Scheduler.Pool.{
  poll, ResourcePool, is_own, try_head, try_admit, prune_pool,
}
use remote_worktree_runner.Scheduler.Tickets.{Ticket, TicketFile, Queue, remove_ticket}
use remote_worktree_runner.Scheduler.Unfiled.{Unfiled, remove_ticket-Unfiled}
use mathlib.Core.Path.{subst}
use remote_worktree_runner.Scheduler.Slots.{ResourceLease, try_slots, available}
use remote_worktree_runner.Scheduler.Permits.{asked_cases, try_slots_lem}

abbrev pub lease_of : Text → ℕ → ResourceLease
lease_of j n = record { job = j; permits = n }

-- The job's own ticket, readable, at the head.
abbrev HeadIsOwn : Text → Queue → Type 0
HeadIsOwn j q =
    (f : TicketFile) × (rest : Queue) × (t : Ticket) × (q ≡ f ∷ rest)
    × (f.body ≡ some t)
    × (is_own j t ≡ true)

try_head-admits :
    (j : Text) (n : ℕ) (q : Queue) (p : ResourcePool) (l : ResourceLease)
    → (try_head j n q p).0 ≡ ok (some l)
    → HeadIsOwn j q × ((0 < n) × (n ≤ available p.slots))
unfolding try_head
try_head-admits j n [] p l h = absurd (cc)
try_head-admits j n (f ∷ q) p l h = elim (Option-cases f.body) [
  | inl e ↦ absurd (ground arith)
  | inr (t, e) ↦
      let (enough, short, _) = try_slots_lem j n p.slots in
      elim (asked_cases n p.slots) [
        | inl met ↦ ((f, q, t, refl, e, ground arith), met)
        | inr failed ↦ let (nothing, _, _) = short failed in absurd (ground arith)
      ]
]

try_head-own :
    (j : Text) (n : ℕ) (q : Queue) (p : ResourcePool)
    → HeadIsOwn j q
    → (0 < n) × (n ≤ available p.slots)
    → ((try_head j n q p).0 ≡ ok (some (lease_of j n)))
      × ((try_head j n q p).1
          ≡ record p { slots = (try_slots j n p.slots).1; queue = remove_ticket j p.queue })
unfolding try_head
try_head-own j n q p (f, rest, t, e, b, own) h =
    let (lease, _, _) = (try_slots_lem j n p.slots).0 h in rw e (ground arith, ground arith)

-- After pruning a round is `try_head` on what is left.
try_admit-pruned :
    (j : Text) (n : ℕ) (p : ResourcePool)
    → (prune_pool p).0 ≡ ok tt
    → try_admit j n p ≡ try_head j n (prune_pool p).1.queue (prune_pool p).1
unfolding try_admit
try_admit-pruned j n p h = ground arith

-- A round of a job that is not cancelled, over a queue that is pruned without an exception, admits
-- the job exactly if the first ticket that is readable and live is its own, some permits are asked
-- for and as many slots are free: every ticket that was filed before is then unreadable or stale.
-- The lease has the permits asked for and the slots are those of `try_slots`. The queue is the
-- pruned one, which that ticket heads, less the first file whose name ends in `-<job>.json`: the
-- ticket itself where it is named so, as the program names it. Every other file is kept.
pub poll_fifo :
    (j : Text) (n : ℕ) (p : ResourcePool)
    → (prune_pool p).0 ≡ ok tt
    → ((l : ResourceLease)
        → (poll j n false p).0 ≡ ok (some l)
        → (f : TicketFile) × (t : Ticket) × Front p.worker_inactive p.store p.queue f t
          × (is_own j t ≡ true)
          × ((0 < n) × (n ≤ available p.slots)))
      × ((f : TicketFile) (t : Ticket)
          → Front p.worker_inactive p.store p.queue f t
          → is_own j t ≡ true
          → (0 < n) × (n ≤ available p.slots)
          → ((poll j n false p).0 ≡ ok (some (lease_of j n)))
            × ((poll j n false p).1.slots ≡ (try_slots j n p.slots).1)
            × ((rest : Queue) × ((prune_pool p).1.queue ≡ f ∷ rest)
                × Unfiled j (f ∷ rest) (poll j n false p).1.queue))
unfolding poll prune_pool
poll_fifo j n p h =
    let pruned = try_admit-pruned j n p (unfold prune_pool in h) in
    (
      λ l r.
          let ((f, rest, t, e, b, own), enough) = try_head-admits j n _ _ l (rw pruned at r) in
          (f, t, Front-prune p.worker_inactive p.store f t p.queue rest h e b, own, enough),
      λ f t front own enough.
          let (rest, e) = prune-Front p.worker_inactive p.store f t p.queue front in
          let (lease, after) =
            try_head-own j n _ (prune_pool p).1 (f, rest, t, e, front.readable, own) enough in
          (
            rw pruned lease,
            rw pruned (ap (λ (x : ResourcePool). x.slots) after),
            (
              rest,
              e,
              rw (pruned, ap (λ (x : ResourcePool). x.queue) after)
                  (subst (λ q. Unfiled j q (remove_ticket j (prune_pool p).1.queue)) e
                    (remove_ticket-Unfiled j (prune_pool p).1.queue)),
            ),
          ),
    )
