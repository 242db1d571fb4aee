-- ===== src/Scheduler/Supersession.antt =====
-- Superseding the queued work of a session.
use remote_worktree_runner.JobStore.{Store, is_cancel_requested}
use remote_worktree_runner.Scheduler.Tickets.{Ticket, TicketFile, Queue}
use remote_worktree_runner.Scheduler.Stale.{ticket_is_stale, job_of, is_other, supersede_tickets}
use remote_worktree_runner.Scheduler.Superseding.{kept_by, supersede_kept}
use remote_worktree_runner.Prelude.{
  ◌≡◌, refl, ◌∙◌, ◌≢◌, ◌⊎◌, inl, inr, Bool, true, false, Option, none, some, [], ◌∷◌, arith,
  if◌then◌else◌, Bool-cases, Option-cases, All, All-map, Text, text_eq, text_eq_refl, text_eq→eq,
  ok,
}

-- The ticket is of no session, of another session, or of the job itself.
stays : Text → Text → Ticket → Bool
stays j session t = elim t.session [
  | none ↦ true
  | some s ↦ if text_eq s session then text_eq (job_of t) j else true
]

-- The readable tickets that stay, in their order.
pub others_of : Text → Text → Queue → Queue
others_of j session [] = []
others_of j session (f ∷ q) = elim f.body [
  | none ↦ others_of j session q
  | some t ↦ if stays j session t then f ∷ others_of j session q else others_of j session q
]

module _ (w : Option (Text → Bool)) (j session : Text) where
  -- A ticket of the session for another job: stale in the store `s`, or cancelled in the store
  -- `s'`.
  abbrev pub Settled : Store → Store → TicketFile → Type 0
  Settled s s' f =
      (t : Ticket)
      → f.body ≡ some t
      → t.session ≡ some session
      → job_of t ≢ j
      → (ticket_is_stale w (some s) (job_of t) ≡ ok true)
        ⊎ (is_cancel_requested (job_of t) s' ≡ true)

  is_other-stays : (t : Ticket) → is_other j session t ≡ stays j session t
  unfolding stays
  is_other-stays t = elim (Option-cases t.session) [
    | inl e ↦ elim (Bool-cases (text_eq (job_of t) j)) [
      | inl f ↦ rw (e, f) refl
      | inr f ↦ rw (e, f) refl
    ]
    | inr (s, e) ↦ ground arith
  ]

  kept_by-others_of : (q : Queue) → kept_by j session q ≡ others_of j session q
  unfolding kept_by others_of
  kept_by-others_of [] = refl
  kept_by-others_of (f ∷ q) = elim (Option-cases f.body) [
    | inl e ↦ rw e (kept_by-others_of q)
    | inr (t, e) ↦ rw (e, is_other-stays t, kept_by-others_of q) refl
  ]

  is_other-session :
      (t : Ticket) → t.session ≡ some session → job_of t ≢ j → is_other j session t ≡ false
  is_other-session t e n = elim (Bool-cases (text_eq (job_of t) j)) [
    | inl f ↦ absurd (n (text_eq→eq (job_of t) j f))
    | inr f ↦ rw (f, e, text_eq_refl session) refl
  ]

  -- If superseding raises nothing, the queue keeps exactly the readable tickets of the job itself,
  -- of other sessions and of none, in order. Every other readable ticket of the session belonged to
  -- a stale job, or its job has a cancellation request now.
  pub supersede_lem :
      (q : Queue) (s : Store)
      → (supersede_tickets w j session q s).0 ≡ ok tt
      → ((supersede_tickets w j session q s).1 ≡ others_of j session q)
        × All (Settled s (supersede_tickets w j session q s).2) q
  supersede_lem q s h =
      let (kept, cleared) = supersede_kept w j session q s h in
      (
        kept ∙ kept_by-others_of q,
        All-map _ _ (λ f c t e own other. c t e (is_other-session t own other)) q cleared,
      )
