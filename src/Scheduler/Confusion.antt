-- ===== src/Scheduler/Confusion.antt =====
-- A job whose id ends another queued job's id behind a hyphen: `_find_ticket` takes the other
-- job's ticket for its own.
use remote_worktree_runner.Scheduler.Tickets.{
  Ticket, TicketFile, Queue, ticket_suffix, ticket_name, find_ticket, unlink, remove_ticket,
  write_ticket,
}
use remote_worktree_runner.Scheduler.Stale.{supersede_session}
use remote_worktree_runner.Scheduler.Slots.{ResourceLease}
use remote_worktree_runner.Scheduler.Pool.{
  ResourcePool, PoolOutcome, Clock, is_own, try_head, after, poll, try_admit, prune_pool,
  supersede_pool, file_ticket, poll_rounds, cancel_seen,
}
use remote_worktree_runner.Scheduler.Fifo.{prune-All}
use remote_worktree_runner.Scheduler.Names.{ends_with-ticket_name}
use remote_worktree_runner.Prelude.{
  ℕ, ◌≡◌, refl, ap, ◌≢◌, inl, inr, Bool, true, false, Option, none, some, List, [], ◌∷◌, ◌++◌,
  arith, Bool-cases, Option-cases, All, Text, text_eq, text_eq_cases, ends_with, ok, err,
}

-- The queue holds no ticket of the job `j`.
abbrev pub Absent : Text → Queue → Type 0
Absent j q = All (λ f. (t : Ticket) → f.body ≡ some t → is_own j t ≡ false) q

-- The queue holds a ticket of a job whose id is `j` behind a hyphen.
pub record Extended (j : Text) (q : Queue) : Type 0 where
  pub prefix : Text
  pub time : ℕ
  pub before : Queue
  pub file : TicketFile
  pub behind : Queue
  pub split : q ≡ before ++ file ∷ behind
  pub named : file.name ≡ ticket_name time (prefix ++ b'-' ∷ j)

find_ticket-append :
    (j : Text) (a b : Queue) (f : TicketFile)
    → ends_with f.name (ticket_suffix j) ≡ true
    → (g : TicketFile) × (find_ticket j (a ++ f ∷ b) ≡ some g)
unfolding find_ticket
find_ticket-append j [] b f h = (f, ground arith)
find_ticket-append j (g ∷ a) b f h = elim (Bool-cases (ends_with g.name (ticket_suffix j))) [
  | inl e ↦ (g, ground arith)
  | inr e ↦ let (g', found) = find_ticket-append j a b f h in (g', ground arith)
]

-- No ticket is written for the job.
write_ticket-Extended :
    (j : Text) (n : ℕ) (session : Option Text) (time_ns created_at : ℕ) (q : Queue)
    → Extended j q
    → write_ticket j n session time_ns created_at q ≡ q
unfolding write_ticket
write_ticket-Extended j n session time_ns created_at q v =
    let matches =
      (ends_with-ticket_name v.time (v.prefix ++ b'-' ∷ j) j).1 (inr (v.prefix, refl)) in
    let (g, found) = find_ticket-append j v.before v.behind v.file (rw v.named matches) in
    rw v.split (ground arith)

unlink-All {ℓ} :
    (P : TicketFile → Type ℓ) (name : Text) (q : Queue) → All P q → All P (unlink name q)
unfolding unlink
unlink-All P name [] h = h
unlink-All P name (f ∷ q) (p, h) =
    let rest = unlink-All P name q h in
    elim (Bool-cases (text_eq f.name name)) [ inl e ↦ rw e rest | inr e ↦ rw e (p, rest) ]

remove_ticket-All {ℓ} :
    (P : TicketFile → Type ℓ) (j : Text) (q : Queue) → All P q → All P (remove_ticket j q)
unfolding remove_ticket
remove_ticket-All P j q h = elim (Option-cases (find_ticket j q)) [
  | inl e ↦ rw (e, remove_ticket) h
  | inr (f, e) ↦ rw (e, remove_ticket) (unlink-All P f.name q h)
]

try_head-Absent :
    (j : Text) (n : ℕ) (q : Queue) (p : ResourcePool)
    → Absent j q
    → ((l : ResourceLease) → (try_head j n q p).0 ≢ ok (some l)) × ((try_head j n q p).1 ≡ p)
unfolding try_head
try_head-Absent j n [] p h = (λ l e. cc, refl)
try_head-Absent j n (f ∷ q) p (other, h) = elim (Option-cases f.body) [
  | inl e ↦ (λ l x. ground arith, ground arith)
  | inr (t, e) ↦ let theirs = other t e in (λ l x. ground arith, ground arith)
]

after-Absent :
    (j : Text) (n : ℕ) (o : PoolOutcome (Unit {0}))
    → Absent j o.1.queue
    → ((l : ResourceLease) → (after o (λ p. try_head j n p.queue p)).0 ≢ ok (some l))
      × Absent j (after o (λ p. try_head j n p.queue p)).1.queue
unfolding after
after-Absent j n (err e, p) h = (λ l x. cc, h)
after-Absent j n (ok u, p) h =
    let (never, same) = try_head-Absent j n p.queue p h in (never, rw same h)

-- A round of a job without a ticket does not admit it, and files none.
poll-Absent :
    (j : Text) (n : ℕ) (cancelled : Bool) (p : ResourcePool)
    → Absent j p.queue
    → ((l : ResourceLease) → (poll j n cancelled p).0 ≢ ok (some l))
      × Absent j (poll j n cancelled p).1.queue
unfolding poll try_admit
poll-Absent j n true p h = (λ l e. cc, remove_ticket-All _ j p.queue h)
poll-Absent j n false p h =
    after-Absent j n (prune_pool p)
      (unfold prune_pool in prune-All p.worker_inactive p.store _ p.queue h)

-- The other processes file no ticket for the job `j`: they have other job ids.
abbrev pub NotFor : Text → (ResourcePool → ResourcePool) → Type 0
NotFor j others = (p : ResourcePool) → Absent j p.queue → Absent j (others p).queue

poll_rounds-Absent :
    (j : Text) (n : ℕ) (rounds : List (ResourcePool → ResourcePool)) (p : ResourcePool)
    → All (NotFor j) rounds
    → Absent j p.queue
    → (l : ResourceLease) → (poll_rounds j n rounds p).0 ≢ ok (some l)
unfolding poll_rounds
poll_rounds-Absent j n [] p v h l e = cc
poll_rounds-Absent j n (others ∷ rounds) p (v, vs) h l e =
    let cancelled : Bool = cancel_seen j (others p).store in
    let (never, absent) = poll-Absent j n cancelled (others p) (v p h) in
    let ih = poll_rounds-Absent j n rounds (poll j n cancelled (others p)).1 vs absent l in
    ground (arith, never l)

file_ticket-Extended :
    (j : Text) (n : ℕ) (clock : Clock) (p : ResourcePool)
    → Extended j p.queue
    → prune_pool p ≡ (ok tt, p)
    → file_ticket j n none clock p ≡ (ok tt, p)
unfolding file_ticket supersede_pool supersede_session
file_ticket-Extended j n clock p v fresh = rw fresh (
    ap (λ (q : Queue). (ok tt, record p { queue = q }))
      (write_ticket-Extended j n none clock.time_ns clock.time p.queue v))

-- If a queued job's id ends in `-j`, then filing a ticket for `j` (with no session, over a queue
-- where nothing is stale) writes none, and `wait` never returns a lease to `j`: not in any number
-- of rounds, whatever the other processes do meanwhile, also when that ticket has gone.
pub confused_never_admitted :
    (j : Text) (n : ℕ) (clock : Clock) (p : ResourcePool)
    → Extended j p.queue
    → Absent j p.queue
    → prune_pool p ≡ (ok tt, p)
    → (file_ticket j n none clock p ≡ (ok tt, p))
      × ((rounds : List (ResourcePool → ResourcePool)) (l : ResourceLease)
          → All (NotFor j) rounds
          → (poll_rounds j n rounds (file_ticket j n none clock p).1).0 ≢ ok (some l))
confused_never_admitted j n clock p v h fresh =
    let unchanged : file_ticket j n none clock p ≡ (ok tt, p) =
      file_ticket-Extended j n clock p v fresh in
    (unchanged, λ rounds l vs. rw unchanged (poll_rounds-Absent j n rounds p vs h l))

find_ticket-first :
    (j : Text) (a b : Queue) (f : TicketFile)
    → find_ticket j a ≡ none
    → ends_with f.name (ticket_suffix j) ≡ true
    → find_ticket j (a ++ f ∷ b) ≡ some f
unfolding find_ticket
find_ticket-first j [] b f e h = ground arith
find_ticket-first j (g ∷ a) b f e h = ground (arith, find_ticket-first j a b f)

unlink-gone : (name : Text) (q : Queue) → All (λ f. f.name ≢ name) (unlink name q)
unfolding unlink
unlink-gone name [] = tt
unlink-gone name (f ∷ q) =
    let rest = unlink-gone name q in
    elim (text_eq_cases f.name name) [ inl (e, _) ↦ rw e rest | inr (e, ne) ↦ rw e (ne, rest) ]

remove_ticket-found :
    (j : Text) (q : Queue) (f : TicketFile)
    → find_ticket j q ≡ some f
    → remove_ticket j q ≡ unlink f.name q
unfolding remove_ticket
remove_ticket-found j q f e = rw (e, remove_ticket)

-- A cancelled job whose id ends another queued id behind a hyphen removes that other ticket.
pub cancel_confused :
    (j : Text) (n : ℕ) (p : ResourcePool) (v : Extended j p.queue)
    → find_ticket j v.before ≡ none
    → All (λ f. f.name ≢ v.file.name) (poll j n true p).1.queue
unfolding poll
cancel_confused j n p v first =
    let matches =
      (ends_with-ticket_name v.time (v.prefix ++ b'-' ∷ j) j).1 (inr (v.prefix, refl)) in
    let found : find_ticket j p.queue ≡ some v.file =
      rw v.split (find_ticket-first j v.before v.behind v.file first (rw v.named matches)) in
    rw (remove_ticket-found j p.queue v.file found) (unlink-gone v.file.name p.queue)
