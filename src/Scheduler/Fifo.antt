-- ===== src/Scheduler/Fifo.antt =====
-- First in, first out: whose ticket a round admits.
use remote_worktree_runner.Errors.{Error}
use remote_worktree_runner.JobStore.{Store}
use remote_worktree_runner.Scheduler.Tickets.{Ticket, TicketFile, Queue}
use remote_worktree_runner.Scheduler.Stale.{ticket_is_stale, job_of, prune}
use remote_worktree_runner.Prelude.{
  ◌≡◌, refl, ap, ◌⊎◌, inl, inr, Bool, true, false, Option, none, some, [], ◌∷◌, ◌++◌, arith,
  Option-cases, All, Text, Result, ok, err,
}

-- A file that pruning unlinks: it cannot be read, or its job is gone, final or without a worker.
abbrev pub Dropped : Option (Text → Bool) → Option Store → TicketFile → Type 0
Dropped w s f =
    (f.body ≡ none)
    ⊎ ((t : Ticket) × (f.body ≡ some t) × (ticket_is_stale w s (job_of t) ≡ ok true))

-- The queue begins, behind files that pruning unlinks, with the live ticket `t` in the file `f`.
pub record Front (w : Option (Text → Bool)) (s : Option Store) (q : Queue) (f : TicketFile)
    (t : Ticket) : Type 0 where
  pub skipped : Queue
  pub behind : Queue
  pub split : q ≡ skipped ++ f ∷ behind
  pub dropped : All (Dropped w s) skipped
  pub readable : f.body ≡ some t
  pub live : ticket_is_stale w s (job_of t) ≡ ok false

module _ (w : Option (Text → Bool)) (s : Option Store) where
  prune-skip : (f : TicketFile) (q : Queue) → Dropped w s f → prune w s (f ∷ q) ≡ prune w s q
  unfolding prune
  prune-skip f q (inl e) = rw (e, prune)
  prune-skip f q (inr (t, e, stale)) = rw (e, prune) (rw stale)

  prune-keep :
      (f : TicketFile) (t : Ticket) (q : Queue)
      → f.body ≡ some t
      → ticket_is_stale w s (job_of t) ≡ ok false
      → ((prune w s (f ∷ q)).1 ≡ f ∷ (prune w s q).1) × ((prune w s (f ∷ q)).0 ≡ (prune w s q).0)
  unfolding prune
  prune-keep f t q e live = (ground arith, ground arith)

  prune-raise :
      (f : TicketFile) (t : Ticket) (q : Queue) (x : Error)
      → f.body ≡ some t
      → ticket_is_stale w s (job_of t) ≡ err x
      → ((prune w s (f ∷ q)).0 ≡ err x) × ((prune w s (f ∷ q)).1 ≡ f ∷ q)
  unfolding prune
  prune-raise f t q x e raised = (ground arith, ground arith)

  -- Pruning puts the first live ticket at the head.
  pub prune-Front :
      (f : TicketFile) (t : Ticket) (q : Queue)
      → Front w s q f t
      → (rest : Queue) × ((prune w s q).1 ≡ f ∷ rest)
  prune-Front f t q v = at_head v.skipped v.dropped q v.split
    where
      at_head :
          (skipped : Queue)
          → All (Dropped w s) skipped
          → (q : Queue) → q ≡ skipped ++ f ∷ v.behind
          → (rest : Queue) × ((prune w s q).1 ≡ f ∷ rest)
      at_head [] d q e =
          let (queue, _) = prune-keep f t v.behind v.readable v.live in
          ((prune w s v.behind).1, rw e queue)
      at_head (g ∷ gs) (dg, d) q e =
          let (rest, r) = at_head gs d (gs ++ f ∷ v.behind) refl in
          (rest, rw e (rw (prune-skip g (gs ++ f ∷ v.behind) dg) r))

  Front-skip :
      (g f : TicketFile) (t : Ticket) (q : Queue)
      → Dropped w s g
      → Front w s q f t
      → Front w s (g ∷ q) f t
  Front-skip g f t q d v = record {
    skipped = g ∷ v.skipped;
    behind = v.behind;
    split = ap (λ r. g ∷ r) v.split;
    dropped = (d, v.dropped);
    readable = v.readable;
    live = v.live;
  }

  -- How pruning treats the first file.
  first-cases :
      (g : TicketFile)
      → Dropped w s g
        ⊎ ((u : Ticket) × (g.body ≡ some u) × (ticket_is_stale w s (job_of u) ≡ ok false))
        ⊎ ((u : Ticket) × (x : Error) × (g.body ≡ some u)
            × (ticket_is_stale w s (job_of u) ≡ err x))
  first-cases g = elim (Option-cases g.body) [
    | inl e ↦ inl (inl e)
    | inr (u, e) ↦ by_stale u e _ refl
  ]
    where
      by_stale :
          (u : Ticket)
          → g.body ≡ some u
          → (r : Result Error Bool) → ticket_is_stale w s (job_of u) ≡ r
          → Dropped w s g
            ⊎ ((u : Ticket) × (g.body ≡ some u) × (ticket_is_stale w s (job_of u) ≡ ok false))
            ⊎ ((u : Ticket) × (x : Error) × (g.body ≡ some u)
                × (ticket_is_stale w s (job_of u) ≡ err x))
      by_stale u e (ok true) h = inl (inr (u, e, h))
      by_stale u e (ok false) h = inr (inl (u, e, h))
      by_stale u e (err x) h = inr (inr (u, x, e, h))

  -- What stands at the head after pruning was the first live ticket.
  pub Front-prune :
      (f : TicketFile) (t : Ticket) (q rest : Queue)
      → (prune w s q).0 ≡ ok tt
      → (prune w s q).1 ≡ f ∷ rest
      → f.body ≡ some t
      → Front w s q f t
  Front-prune f t [] rest h e b = absurd (unfold prune in cc)
  Front-prune f t (g ∷ q) rest h e b = elim (first-cases g) [
    | inl d ↦
        let same = prune-skip g q d in
        Front-skip g f t q d (Front-prune f t q rest (rw same at h) (rw same at e) b)
    | inr (inl (u, eu, live)) ↦
        let (queue, _) = prune-keep g u q eu live in
        let first : g ≡ f = cc (queue, e) in
        record {
          skipped = [];
          behind = q;
          split = ap (λ x. x ∷ q) first;
          dropped = tt;
          readable = b;
          live = let same : u ≡ t = cc (eu, b, first) in rw (← same) live;
        }
    | inr (inr (u, x, eu, raised)) ↦ absurd (cc ((prune-raise g u q x eu raised).0, h))
  ]

  -- Pruning only takes files away.
  pub prune-All {ℓ} : (P : TicketFile → Type ℓ) (q : Queue) → All P q → All P (prune w s q).1
  prune-All P [] h = unfold prune in h
  prune-All P (g ∷ q) (p, h) = elim (first-cases g) [
    | inl d ↦ rw (prune-skip g q d) (prune-All P q h)
    | inr (inl (u, e, live)) ↦ rw (prune-keep g u q e live).0 (p, prune-All P q h)
    | inr (inr (u, x, e, raised)) ↦ rw (prune-raise g u q x e raised).1 (p, h)
  ]
