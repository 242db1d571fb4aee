-- ===== src/Scheduler/Superseding.antt =====
-- The loop of `_supersede_queued_session`, one file at a time.
use remote_worktree_runner.Prelude.{
  ◌≡◌, refl, sym, ◌⊎◌, inl, inr, Bool, true, false, Option, none, some, [], ◌∷◌, arith,
  if◌then◌else◌, Bool-cases, Option-cases, All, All-map, Text, Result, ok, err,
}
use mathlib.Core.Path.{subst}
use remote_worktree_runner.Errors.{Error}
use remote_worktree_runner.JobStore.{Store, request_cancel, is_cancel_requested}
use remote_worktree_runner.JobStore.Cancel.{
  request_cancel-seen, request_cancel-keeps, exists-request_cancel,
}
use remote_worktree_runner.JobStore.Life.{status-request_cancel}
use remote_worktree_runner.Scheduler.Tickets.{Ticket, TicketFile, Queue}
use remote_worktree_runner.Scheduler.Stale.{
  ticket_is_stale, job_of, is_other, Superseded, supersede_tickets,
}

-- The readable tickets that the code passes over.
unfoldable pub kept_by : Text → Text → Queue → Queue
kept_by j session [] = []
kept_by j session (f ∷ q) = elim f.body [
  | none ↦ kept_by j session q
  | some t ↦ if is_other j session t then f ∷ kept_by j session q else kept_by j session q
]

module _ (w : Option (Text → Bool)) (j session : Text) where
  abbrev pub Cleared : Store → Store → TicketFile → Type 0
  Cleared s s' f =
      (t : Ticket)
      → f.body ≡ some t
      → is_other j session t ≡ false
      → (ticket_is_stale w (some s) (job_of t) ≡ ok true)
        ⊎ (is_cancel_requested (job_of t) s' ≡ true)

  stale-request_cancel :
      (k i : Text) (s : Store)
      → ticket_is_stale w (some (request_cancel k s).1) i ≡ ticket_is_stale w (some s) i
  unfolding ticket_is_stale
  stale-request_cancel k i s =
      ground (arith, exists-request_cancel k s i, status-request_cancel k i s)

  supersede_keeps :
      (q : Queue) (s : Store) (k : Text)
      → is_cancel_requested k s ≡ true
      → is_cancel_requested k (supersede_tickets w j session q s).2 ≡ true
  unfolding supersede_tickets
  supersede_keeps [] s k h = h
  supersede_keeps (f ∷ q) s k h = elim (Option-cases f.body) [
    | inl e ↦ ground (arith, supersede_keeps q s k h)
    | inr (t, e) ↦
        let more = request_cancel-keeps (job_of t) s k h in
        ground
          (arith, supersede_keeps q s k h, supersede_keeps q (request_cancel (job_of t) s).1 k more)
  ]

  module _ (f : TicketFile) (q : Queue) (s : Store) where
    at_none :
        f.body ≡ none → supersede_tickets w j session (f ∷ q) s ≡ supersede_tickets w j session q s
    unfolding supersede_tickets
    at_none e = ground arith

    module _ (t : Ticket) (readable : f.body ≡ some t) where
      at_other :
          is_other j session t ≡ true
          → supersede_tickets w j session (f ∷ q) s ≡ (
            (supersede_tickets w j session q s).0,
            f ∷ (supersede_tickets w j session q s).1,
            (supersede_tickets w j session q s).2,
          )
      unfolding supersede_tickets
      at_other o = ground arith

      module _ (own : is_other j session t ≡ false) where
        at_stale :
            ticket_is_stale w (some s) (job_of t) ≡ ok true
            → supersede_tickets w j session (f ∷ q) s ≡ supersede_tickets w j session q s
        unfolding supersede_tickets
        at_stale e = ground arith

        at_raised :
            (x : Error)
            → ticket_is_stale w (some s) (job_of t) ≡ err x
            → (supersede_tickets w j session (f ∷ q) s).0 ≡ err x
        unfolding supersede_tickets
        at_raised x e = ground arith

        module _ (live : ticket_is_stale w (some s) (job_of t) ≡ ok false) where
          at_live :
              (name : Text)
              → (request_cancel (job_of t) s).0 ≡ ok name
              → supersede_tickets w j session (f ∷ q) s
                ≡ supersede_tickets w j session q (request_cancel (job_of t) s).1
          unfolding supersede_tickets
          at_live name e = ground arith

          at_failed :
              (x : Error)
              → (request_cancel (job_of t) s).0 ≡ err x
              → (supersede_tickets w j session (f ∷ q) s).0 ≡ err x
          unfolding supersede_tickets
          at_failed x e = ground arith

  abbrev Ends : Queue → Store → Superseded → Type 0
  Ends q s o = o.0 ≡ ok tt → (o.1 ≡ kept_by j session q) × All (Cleared s o.2) q

  abbrev Settles : Queue → Store → Type 0
  Settles q s = Ends q s (supersede_tickets w j session q s)

  module _ (f : TicketFile) (q : Queue) (s : Store) where
    settle_none : f.body ≡ none → Settles q s → Settles (f ∷ q) s
    unfolding kept_by
    settle_none e ih =
        subst (Ends (f ∷ q) s) (sym (at_none f q s e))
          (λ h. (ground (arith, (ih h).0), ((λ t et _. absurd (cc)), (ih h).1)))

    module _ (t : Ticket) (readable : f.body ≡ some t) where
      settle_other : is_other j session t ≡ true → Settles q s → Settles (f ∷ q) s
      unfolding kept_by
      settle_other o ih =
          subst (Ends (f ∷ q) s) (sym (at_other f q s t readable o))
            (λ h. (ground (arith, (ih h).0), ((λ u eu own. absurd (ground arith)), (ih h).1)))

      module _ (own : is_other j session t ≡ false) where
        settle_stale :
            ticket_is_stale w (some s) (job_of t) ≡ ok true → Settles q s → Settles (f ∷ q) s
        unfolding kept_by
        settle_stale e ih = subst (Ends (f ∷ q) s) (sym (at_stale f q s t readable own e)) (λ h. (
          ground (arith, (ih h).0),
          (
            (λ u eu _. inl (
                let same : t ≡ u = cc (readable, eu) in
                subst (λ x. ticket_is_stale w (some s) (job_of x) ≡ ok true) same e)),
            (ih h).1,
          ),
        ))

        settle_live :
            ticket_is_stale w (some s) (job_of t) ≡ ok false
            → (r : Result Error Text) → (request_cancel (job_of t) s).0 ≡ r
            → Settles q (request_cancel (job_of t) s).1
            → Settles (f ∷ q) s
        unfolding kept_by
        settle_live live (err x) e ih =
            λ h. absurd (cc (at_failed f q s t readable own live x e, h))
        settle_live live (ok name) e ih =
            let seen = request_cancel-seen (job_of t) s name e in
            subst (Ends (f ∷ q) s) (sym (at_live f q s t readable own live name e)) (λ h. (
              ground (arith, (ih h).0),
              (
                (λ u eu _. inr (
                    let same : t ≡ u = cc (readable, eu) in
                    supersede_keeps q (request_cancel (job_of t) s).1 (job_of u) (
                      subst
                        (λ x. is_cancel_requested (job_of x) (request_cancel (job_of t) s).1 ≡ true)
                        same seen))),
                All-map _ _
                    (λ g v u eu own'.
                      rw (stale-request_cancel (job_of t) (job_of u) s) at (v u eu own'))
                    q (ih h).1,
              ),
            ))

  pub supersede_kept :
      (q : Queue) (s : Store)
      → (supersede_tickets w j session q s).0 ≡ ok tt
      → ((supersede_tickets w j session q s).1 ≡ kept_by j session q)
        × All (Cleared s (supersede_tickets w j session q s).2) q
  supersede_kept [] s = λ h. (unfold supersede_tickets kept_by in refl, tt)
  supersede_kept (f ∷ q) s = elim (Option-cases f.body) [
    | inl e ↦ settle_none f q s e (supersede_kept q s)
    | inr (t, e) ↦
        let live = settle_live f q s t e in
        elim (Bool-cases (is_other j session t)) [
          | inl o ↦ settle_other f q s t e o (supersede_kept q s)
          | inr own ↦
              by_stale t e own _ refl (supersede_kept q s)
                (supersede_kept q (request_cancel (job_of t) s).1)
        ]
  ]
    where
      by_stale :
          (t : Ticket)
          → f.body ≡ some t
          → is_other j session t ≡ false
          → (r : Result Error Bool) → ticket_is_stale w (some s) (job_of t) ≡ r
          → Settles q s
          → Settles q (request_cancel (job_of t) s).1
          → Settles (f ∷ q) s
      by_stale t e own (ok true) h ih ih' = settle_stale f q s t e own h ih
      by_stale t e own (ok false) h ih ih' = settle_live f q s t e own h _ refl ih'
      by_stale t e own (err x) h ih ih' = λ p. absurd (cc (at_raised f q s t e own x h, p))
