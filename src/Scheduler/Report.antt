-- ===== src/Scheduler/Report.antt =====
-- What a snapshot of the pool says of the permits and of a waiting job.
use remote_worktree_runner.Scheduler.Pool.{PoolOutcome, ResourcePool, is_own, prune_pool}
use remote_worktree_runner.Prelude.{
  ℕ, ◌+◌, ◌≡◌, refl, sym, ap, ◌∙◌, inl, inr, true, false, Option, none, some, List, [], ◌∷◌, ◌++◌,
  arith, Bool-cases, length, All, All-append, All-map, Text, text_eq_refl, text_eq_cases, one_of,
  ok, err, >>=-eq-ok,
}
use mathlib.Core.Path.{subst}
use mathlib.Core.List.{append_assoc}
use remote_worktree_runner.Scheduler.Tickets.{Ticket}
use remote_worktree_runner.Scheduler.Slots.{Slot, available}
use remote_worktree_runner.Scheduler.Snapshot.{
  slot_holders, field, read_tickets, exclusive_waiting, difference, Waiter, without_repeats,
  job_ids, waiter_of, find_waiter, waiter_for, report_of, report_after, Report, snapshot,
}

slot_holders-available : (slots : List Slot) → (slot_holders slots).1 ≡ available slots
unfolding slot_holders available
slot_holders-available [] = refl
slot_holders-available (s ∷ slots) = ground (arith, slot_holders-available slots)

one_of-append : (i : Text) (xs ys : List Text) → one_of i xs ≡ true → one_of i (xs ++ ys) ≡ true
unfolding one_of
one_of-append i [] ys h = absurd (cc)
one_of-append i (x ∷ xs) ys h = ground (arith, one_of-append i xs ys)

one_of-without_repeats :
    (i : Text) (names seen : List Text)
    → one_of i names ≡ true
    → one_of i seen ≡ false
    → one_of i (without_repeats seen names) ≡ true
unfolding one_of without_repeats
one_of-without_repeats i [] seen h s = absurd (cc)
one_of-without_repeats i (n ∷ names) seen h s = elim (text_eq_cases i n) [
  | inl (e, same) ↦ let absent : one_of n seen ≡ false = rw same at s in ground arith
  | inr (e, ne) ↦
      ground (arith, one_of-without_repeats i names seen, one_of-without_repeats i names (n ∷ seen))
]

-- The ticket has a job id, and the list names it.
abbrev pub NamedIn : List Text → Ticket → Type 0
NamedIn names t = (i : Text) × (t.job_id ≡ some i) × (one_of i names ≡ true)

field-eq-ok : (o : Option Text) (i : Text) → field o ≡ ok i → o ≡ some i
field-eq-ok none i h = absurd (cc)
field-eq-ok (some j) i h = cc

NamedIn-cons : (j : Text) (names : List Text) (t : Ticket) → NamedIn names t → NamedIn (j ∷ names) t
unfolding one_of
NamedIn-cons j names t (i, e, h) = (i, e, ground arith)

job_ids-NamedIn :
    (tickets : List Ticket) (ids : List Text) → job_ids tickets ≡ ok ids → All (NamedIn ids) tickets
unfolding job_ids one_of
job_ids-NamedIn [] ids h = tt
job_ids-NamedIn (t ∷ tickets) ids h =
    let (j, here, h₁) = >>=-eq-ok (field t.job_id) _ h in
    let (js, others, h₂) = >>=-eq-ok (job_ids tickets) _ h₁ in
    let same : j ∷ js ≡ ids = cc in
    let first : one_of j (j ∷ js) ≡ true = ground (arith, text_eq_refl j) in
    subst (λ names. All (NamedIn names) (t ∷ tickets)) same
      (
        (j, field-eq-ok t.job_id j here, first),
        All-map _ _ (NamedIn-cons j js) tickets (job_ids-NamedIn tickets js others),
      )

-- What is said of a job: the tickets before its first one are those of other jobs, the position
-- counts them, and all their jobs are named as blocking it.
abbrev pub Placed : Text → List Ticket → Waiter → Type 0
Placed j tickets w =
    (before : List Ticket) × (t : Ticket) × (behind : List Ticket) × (tickets
      ≡ before ++ t ∷ behind)
    × (is_own j t ≡ true)
    × All (λ u. is_own j u ≡ false) before
    × (w.queue_position ≡ length before + 1)
    × All (NamedIn w.blocked_by) before

blocked_by-NamedIn :
    (ids holders : List Text) (t : Ticket)
    → NamedIn ids t
    → NamedIn (without_repeats [] (ids ++ holders)) t
blocked_by-NamedIn ids holders t (i, e, h) = (
  i,
  e,
  one_of-without_repeats i (ids ++ holders) [] (one_of-append i ids holders h)
      (unfold one_of in refl),
)

module _ (now : ℕ) (holders : List Text) (j : Text) where
  waiter_of-lem :
      (older : List Ticket) (t : Ticket) (w : Waiter)
      → waiter_of now holders older t ≡ ok w
      → (w.queue_position ≡ length older + 1) × All (NamedIn w.blocked_by) older
  unfolding waiter_of
  waiter_of-lem older t w h =
      let (ids, named, h₁) = >>=-eq-ok (job_ids older) _ h in
      let (created, _, h₂) = >>=-eq-ok (field t.created_at) _ h₁ in
      let (requested, _, h₃) = >>=-eq-ok (field t.requested_permits) _ h₂ in
      let blocked : without_repeats [] (ids ++ holders) ≡ w.blocked_by = ground arith in
      (
        ground arith,
        subst (λ names. All (NamedIn names) older) blocked
            (All-map _ _ (blocked_by-NamedIn ids holders) older (job_ids-NamedIn older ids named)),
      )

  find_waiter-Placed :
      (older tickets : List Ticket) (w : Waiter)
      → All (λ u. is_own j u ≡ false) older
      → find_waiter now holders j older tickets ≡ ok (some w)
      → Placed j (older ++ tickets) w
  unfolding find_waiter
  find_waiter-Placed older [] w before h = absurd (cc)
  find_waiter-Placed older (t ∷ tickets) w before h = elim (Bool-cases (is_own j t)) [
    | inl own ↦
        let (w', made, h') = >>=-eq-ok (waiter_of now holders older t) _ (rw own at h) in
        let same : w' ≡ w = cc in
        let (position, blocked) = waiter_of-lem older t w (rw same at made) in
        (older, t, tickets, refl, own, before, position, blocked)
    | inr other ↦ rw (← append_assoc older (t ∷ []) tickets) (
        find_waiter-Placed (older ++ t ∷ []) tickets w
          (All-append _ older (t ∷ []) before (other, tt)) (rw other at h))
  ]

waiter_for-Placed :
    (now : ℕ) (holders : List Text) (j : Text) (tickets : List Ticket) (w : Waiter)
    → waiter_for now holders (some j) tickets ≡ ok (some w)
    → Placed j tickets w
unfolding waiter_for
waiter_for-Placed now holders j tickets w h = find_waiter-Placed now holders j [] tickets w tt h

report_of-lem :
    (now : ℕ) (j : Text) (p : ResourcePool) (tickets : List Ticket) (r : Report)
    → report_of now (some j) p tickets ≡ ok r
    → (r.available_permits ≡ available p.slots)
      × (r.held_permits ≡ difference p.capacity (available p.slots))
      × (r.queued_jobs ≡ length tickets)
      × ((w : Waiter) → r.waiter ≡ some w → Placed j tickets w)
unfolding report_of
report_of-lem now j p tickets r h =
    let holders = (slot_holders p.slots).0 in
    let free = slot_holders-available p.slots in
    let (exclusive, _, h₁) = >>=-eq-ok (exclusive_waiting p.capacity tickets) _ h in
    let (waiter, asked, h₂) = >>=-eq-ok (waiter_for now holders (some j) tickets) _ h₁ in
    let made : record {
      capacity = p.capacity;
      held_permits = difference p.capacity (slot_holders p.slots).1;
      available_permits = (slot_holders p.slots).1;
      queued_jobs = length tickets;
      exclusive = exclusive;
      waiter = waiter;
    }
        ≡ r =
      cc in
    (
      sym (ap (λ (x : Report). x.available_permits) made) ∙ free,
      sym (ap (λ (x : Report). x.held_permits) made) ∙ ap (difference p.capacity) free,
      sym (ap (λ (x : Report). x.queued_jobs) made),
      λ w e.
          let given : waiter ≡ some w = ap (λ (x : Report). x.waiter) made ∙ e in
          waiter_for-Placed now holders j tickets w (rw given at asked),
    )

report_after-read :
    (now : ℕ) (j : Text) (o : PoolOutcome (Unit {0})) (r : Report)
    → (report_after now (some j) o).0 ≡ ok r
    → (tickets : List Ticket) × (read_tickets o.1.queue ≡ ok tickets)
      × (report_of now (some j) o.1 tickets ≡ ok r)
report_after-read now j (err e, p) r h = absurd (cc)
report_after-read now j (ok u, p) r h = >>=-eq-ok (read_tickets p.queue) _ h

-- A snapshot that is returned for a job, behind a pruning that raised nothing, is about the
-- tickets that pruning left. It counts them and the free slots, and says what the capacity exceeds
-- the free slots by. If it places the job, then all tickets before the job's first one are those of
-- other jobs, the position counts them, and each of their jobs is named as blocking it.
pub snapshot-Placed :
    (now : ℕ) (j : Text) (p : ResourcePool) (r : Report)
    → (snapshot now (some j) p).0 ≡ ok r
    → (tickets : List Ticket) × (read_tickets (prune_pool p).1.queue ≡ ok tickets)
      × (r.available_permits ≡ available p.slots)
      × (r.held_permits ≡ difference p.capacity (available p.slots))
      × (r.queued_jobs ≡ length tickets)
      × ((w : Waiter) → r.waiter ≡ some w → Placed j tickets w)
unfolding snapshot prune_pool
snapshot-Placed now j p r h =
    let (tickets, there, made) = report_after-read now j (prune_pool p) r h in
    let (free, held, counted, placed) = report_of-lem now j (prune_pool p).1 tickets r made in
    (tickets, there, free, held, counted, placed)
