-- ===== src/Scheduler/Unfiled.antt =====
-- What `_remove_ticket` leaves in the queue.
use remote_worktree_runner.Scheduler.Tickets.{
  TicketFile, Queue, ticket_suffix, find_ticket, unlink, remove_ticket,
}
use remote_worktree_runner.Prelude.{
  ◌≡◌, refl, ◌≢◌, inl, inr, true, false, none, some, [], ◌∷◌, ◌++◌, Bool-cases, All, Text, codes,
  text_eq, text_eq_refl, text_eq→eq, ends_with,
}

-- The file is named for the job: its name ends in `-<job>.json`.
abbrev pub IsNamedFor : Text → TicketFile → Type 0
IsNamedFor j f = ends_with f.name (b'-' ∷ (j ++ codes ".json")) ≡ true

abbrev pub NotNamedFor : Text → TicketFile → Type 0
NotNamedFor j f = ends_with f.name (b'-' ∷ (j ++ codes ".json")) ≡ false

-- The first file that is named for the job is gone, where there is one, and every other file is
-- kept in its place.
pub record Unfiled (j : Text) (q q' : Queue) : Type 0 where
  pub absent : All (NotNamedFor j) q → q' ≡ q
  pub first :
      (before : Queue) (f : TicketFile) (behind : Queue)
      → q ≡ before ++ f ∷ behind
      → All (NotNamedFor j) before
      → IsNamedFor j f
      → All (λ g. g.name ≢ f.name) behind
      → q' ≡ before ++ behind

module _ (j : Text) where
  find_ticket-absent : (q : Queue) → All (NotNamedFor j) q → find_ticket j q ≡ none
  unfolding find_ticket ticket_suffix
  find_ticket-absent [] h = refl
  find_ticket-absent (f ∷ q) (n, h) = rw n (find_ticket-absent q h)

  find_ticket-first :
      (before : Queue) (f : TicketFile) (behind : Queue)
      → All (NotNamedFor j) before
      → IsNamedFor j f
      → find_ticket j (before ++ f ∷ behind) ≡ some f
  unfolding find_ticket ticket_suffix
  find_ticket-first [] f behind h n = rw n refl
  find_ticket-first (g ∷ before) f behind (m, h) n = rw m (find_ticket-first before f behind h n)

  unlink-absent :
      (name : Text) (q : Queue) → All (λ (g : TicketFile). g.name ≢ name) q → unlink name q ≡ q
  unfolding unlink
  unlink-absent name [] h = refl
  unlink-absent name (g ∷ q) (n, h) = elim (Bool-cases (text_eq g.name name)) [
    | inl e ↦ absurd (n (text_eq→eq g.name name e))
    | inr e ↦ rw (e, unlink-absent name q h) refl
  ]

  unlink-first :
      (before : Queue) (f : TicketFile) (behind : Queue)
      → All (NotNamedFor j) before
      → IsNamedFor j f
      → All (λ (g : TicketFile). g.name ≢ f.name) behind
      → unlink f.name (before ++ f ∷ behind) ≡ before ++ behind
  unfolding unlink
  unlink-first [] f behind h n others =
      rw (text_eq_refl f.name, unlink-absent f.name behind others) refl
  unlink-first (g ∷ before) f behind (m, h) n others = elim (Bool-cases (text_eq g.name f.name)) [
    | inl e ↦ absurd (let same = text_eq→eq g.name f.name e in cc)
    | inr e ↦ rw (e, unlink-first before f behind h n others) refl
  ]

  pub remove_ticket-Unfiled : (q : Queue) → Unfiled j q (remove_ticket j q)
  unfolding remove_ticket
  remove_ticket-Unfiled q = record {
    absent = λ h. rw (find_ticket-absent q h) refl;
    first = λ before f behind e h n others.
        rw e (rw (find_ticket-first before f behind h n) (unlink-first before f behind h n others));
  }
