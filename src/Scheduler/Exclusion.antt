-- ===== src/Scheduler/Exclusion.antt =====
-- Mutual exclusion over time: any interleaving of the workers' critical sections and releases.
use remote_worktree_runner.Scheduler.Pool.{
  resource_pool, PoolOutcome, after, try_head, ResourcePool, poll, try_admit, prune_pool,
}
use remote_worktree_runner.Errors.{Error}
use remote_worktree_runner.JobStore.{Store}
use remote_worktree_runner.Scheduler.Tickets.{Queue}
use remote_worktree_runner.Scheduler.Slots.{
  ResourceLease, touch_slots, try_slots, release, available, held,
}
use remote_worktree_runner.Scheduler.Permits.{asked_cases, try_slots_lem, release_lem}
use remote_worktree_runner.Prelude.{
  ℕ, zero, suc, ◌+◌, ◌≤◌, ◌≡◌, refl, ◌∙◌, ◌≢◌, ◌⊎◌, inl, inr, Bool, true, false, Option, none, some,
  List, [], ◌∷◌, arith, if◌then◌else◌, length, Text, text_eq, text_eq_iff, Result, ok, err,
}

-- The pool with the leases that the workers hold.
pub record System : Type 0 where
  pub pool : ResourcePool
  pub leases : List ResourceLease

abbrev add_lease : Option ResourceLease → List ResourceLease → List ResourceLease
add_lease none leases = leases
add_lease (some l) leases = l ∷ leases

abbrev granted : Result Error (Option ResourceLease) → Option ResourceLease
granted (err e) = none
granted (ok o) = o

-- A worker's poll; it keeps the lease that it gets.
pub poll_step : Text → ℕ → Bool → System → System
poll_step job_id requested cancelled y =
    let (r, p) = poll job_id requested cancelled y.pool in
    record { pool = p; leases = add_lease (granted r) y.leases }

pub drop_leases : Text → List ResourceLease → List ResourceLease
drop_leases j [] = []
drop_leases j (l ∷ leases) =
    let rest = drop_leases j leases in if text_eq l.job j then rest else l ∷ rest

-- A worker's release, or its death: the kernel unlocks what it held.
pub release_step : Text → System → System
release_step job_id y = record {
  pool = record y.pool { slots = release job_id y.pool.slots };
  leases = drop_leases job_id y.leases;
}

-- Any process files, prunes and cancels as it likes: the queue and the store may become anything.
pub data Step (y : System) : System → Type 0 where
  polls : (j : Text) (n : ℕ) (cancelled : Bool) → Step y (poll_step j n cancelled y)
  releases : (j : Text) → Step y (release_step j y)
  queues :
      (q : Queue) (s : Option Store)
      → Step y (record y { pool = record y.pool { queue = q; store = s } })

pub data Reach (y : System) : System → Type 0 where
  here : Reach y y
  next : {t u : System} → Reach y t → Step t u → Reach y u

pub total : List ResourceLease → ℕ
total [] = 0
total (l ∷ leases) = l.permits + total leases

pub permits_of : Text → List ResourceLease → ℕ
permits_of j [] = 0
permits_of j (l ∷ leases) =
    if text_eq l.job j then l.permits + permits_of j leases else permits_of j leases

-- The slots are what the leases say.
pub record Inv (size : ℕ) (y : System) : Type 0 where
  pub size_kept : length y.pool.slots ≡ size
  pub balance : total y.leases + available y.pool.slots ≡ size
  pub owned : (k : Text) → held k y.pool.slots ≡ permits_of k y.leases

-- Only `try_slots` changes slots in a poll, and the lease that comes back is its.
abbrev Polled : Text → ℕ → ResourcePool → PoolOutcome (Option ResourceLease) → Type 0
Polled j n p o =
    ((granted o.0 ≡ none) × (o.1.slots ≡ p.slots))
    ⊎ ((granted o.0 ≡ (try_slots j n p.slots).0) × (o.1.slots ≡ (try_slots j n p.slots).1))

try_head-Polled :
    (j : Text) (n : ℕ) (q : Queue) (p : ResourcePool) → Polled j n p (try_head j n q p)
unfolding try_head
try_head-Polled j n [] p = inl (refl, refl)
try_head-Polled j n (f ∷ q) p = ground arith

after-Polled :
    (j : Text) (n : ℕ) (p : ResourcePool) (o : PoolOutcome (Unit {0}))
    → o.1.slots ≡ p.slots
    → Polled j n p (after o (λ p₁. try_head j n p₁.queue p₁))
unfolding after
after-Polled j n p (err e, p₁) h = inl (refl, h)
after-Polled j n p (ok u, p₁) h = ground (arith, try_head-Polled j n p₁.queue p₁)

poll-Polled :
    (j : Text) (n : ℕ) (cancelled : Bool) (p : ResourcePool) → Polled j n p (poll j n cancelled p)
unfolding poll try_admit
poll-Polled j n true p = inl (refl, refl)
poll-Polled j n false p = after-Polled j n p (prune_pool p) (unfold prune_pool in refl)

total-drop_leases :
    (j : Text) (leases : List ResourceLease)
    → total (drop_leases j leases) + permits_of j leases ≡ total leases
unfolding total drop_leases permits_of
total-drop_leases j [] = refl
total-drop_leases j (l ∷ leases) = ground (arith, total-drop_leases j leases)

permits_of-drop_leases :
    (j k : Text) (leases : List ResourceLease)
    → permits_of k (drop_leases j leases) ≡ (if text_eq j k then 0 else permits_of k leases)
unfolding drop_leases permits_of
permits_of-drop_leases j k [] = ground arith
permits_of-drop_leases j k (l ∷ leases) = ground (
  arith,
  permits_of-drop_leases j k leases,
  text_eq_iff l.job j,
  text_eq_iff l.job k,
  text_eq_iff j k,
)

outcome-Inv :
    (size : ℕ) (j : Text) (n : ℕ) (y : System) (o : PoolOutcome (Option ResourceLease))
    → Polled j n y.pool o
    → Inv size y
    → Inv size (record { pool = o.1; leases = add_lease (granted o.0) y.leases })
unfolding total permits_of
outcome-Inv size j n y o (inl (g, s)) v = record {
  size_kept = rw s v.size_kept;
  balance = rw (g, s) v.balance;
  owned = λ k. rw (g, s) (v.owned k);
}
outcome-Inv size j n y o (inr (g, s)) v =
    let (enough, short, len) = try_slots_lem j n y.pool.slots in
    elim (asked_cases n y.pool.slots) [
      | inl e ↦
          let (lease, free, own) = enough e in
          record {
            size_kept = rw s (len ∙ v.size_kept);
            balance = rw (g, s, lease) (omega (arith, v.balance));
            owned = λ k. rw (g, s, lease) (ground (arith, own k, v.owned k));
          }
      | inr e ↦
          let (lease, free, own) = short e in
          record {
            size_kept = rw s (len ∙ v.size_kept);
            balance = rw (g, s, lease, free) v.balance;
            owned = λ k. rw (g, s, lease) (own k ∙ v.owned k);
          }
    ]

poll_step-Inv :
    (size : ℕ) (j : Text) (n : ℕ) (cancelled : Bool) (y : System)
    → Inv size y
    → Inv size (poll_step j n cancelled y)
unfolding poll_step
poll_step-Inv size j n cancelled y v =
    outcome-Inv size j n y (poll j n cancelled y.pool) (poll-Polled j n cancelled y.pool) v

release_step-Inv : (size : ℕ) (j : Text) (y : System) → Inv size y → Inv size (release_step j y)
unfolding release_step
release_step-Inv size j y v =
    let (free, len, own) = release_lem j y.pool.slots in
    record {
      size_kept = omega arith;
      balance = omega (arith, total-drop_leases j y.leases, v.owned j);
      owned = λ k. ground (arith, own k, v.owned k, permits_of-drop_leases j k y.leases);
    }

Step-Inv : {size : ℕ} {y z : System} → Step y z → Inv size y → Inv size z
Step-Inv {size} {y} (polls j n cancelled) v = poll_step-Inv size j n cancelled y v
Step-Inv {size} {y} (releases j) v = release_step-Inv size j y v
Step-Inv (queues q s) v = record { size_kept = v.size_kept; balance = v.balance; owned = v.owned }

Reach-Inv : {size : ℕ} {y z : System} → Inv size y → Reach y z → Inv size z
Reach-Inv v here = v
Reach-Inv v (next r st) = Step-Inv st (Reach-Inv v r)

available-touch_slots : (c : ℕ) → available (touch_slots c []) ≡ c
unfolding available touch_slots
available-touch_slots zero = refl
available-touch_slots (suc c) = ground (arith, available-touch_slots c)

length-touch_slots : (c : ℕ) → length (touch_slots c []) ≡ c
unfolding touch_slots
length-touch_slots zero = refl
length-touch_slots (suc c) = ground (arith, length-touch_slots c)

held-touch_slots : (k : Text) (c : ℕ) → held k (touch_slots c []) ≡ 0
unfolding held touch_slots
held-touch_slots k zero = refl
held-touch_slots k (suc c) = ground (arith, held-touch_slots k c)

-- A pool over an empty directory, and no worker yet.
abbrev pub IsFresh : ℕ → System → Type 0
IsFresh capacity y =
    (resource_pool capacity y.pool.store y.pool.worker_inactive y.pool.queue [] ≡ ok y.pool)
    × (y.leases ≡ [])

IsFresh-Inv : (capacity : ℕ) (y : System) → IsFresh capacity y → Inv capacity y
unfolding resource_pool total permits_of
IsFresh-Inv capacity y (made, none_yet) =
    let slots : y.pool.slots ≡ touch_slots capacity [] = ground arith in
    record {
      size_kept = rw slots (length-touch_slots capacity);
      balance = rw (slots, none_yet) (omega (arith, available-touch_slots capacity));
      owned = λ k. rw (slots, none_yet) (held-touch_slots k capacity);
    }

permits_of-two :
    (j k : Text) (leases : List ResourceLease)
    → j ≢ k
    → permits_of j leases + permits_of k leases ≤ total leases
unfolding permits_of total
permits_of-two j k [] h = omega arith
permits_of-two j k (l ∷ leases) h =
    ground (arith, permits_of-two j k leases h, text_eq_iff l.job j, text_eq_iff l.job k)

-- From a pool over an empty directory, whatever the workers and the clients do and in whatever
-- order: the permits of all leases together never exceed the capacity, each job holds exactly the
-- slots of its leases, and while a job holds the whole capacity no other job holds any permit.
pub exclusion :
    (capacity : ℕ) (y z : System)
    → IsFresh capacity y
    → Reach y z
    → (total z.leases ≤ capacity)
      × ((k : Text) → held k z.pool.slots ≡ permits_of k z.leases)
      × ((j k : Text) → j ≢ k → permits_of j z.leases ≡ capacity → permits_of k z.leases ≡ 0)
exclusion capacity y z fresh r =
    let v = Reach-Inv (IsFresh-Inv capacity y fresh) r in
    (
      omega (arith, v.balance),
      v.owned,
      λ j k ne all. omega (arith, v.balance, permits_of-two j k z.leases ne),
    )
