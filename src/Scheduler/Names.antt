-- ===== src/Scheduler/Names.antt =====
-- Ticket names: which job a name is found for, and how names follow the clock.
use mathlib.Core.Path.{subst}
use mathlib.Core.List.{append_cancel_right, append_assoc}
use remote_worktree_runner.Scheduler.Tickets.{
  Ticket, TicketFile, Queue, decimal, ticket_suffix, ticket_name, find_ticket, put, new_ticket,
  write_ticket,
}
use remote_worktree_runner.Prelude.{
  ℕ, zero, suc, ◌%◌, ◌^◌, ◌≡◌, refl, sym, ap, ◌∙◌, ◌≢◌, ◌↔◌, ◌⊎◌, inl, inr, true, Option, none,
  some, [], ◌∷◌, ◌++◌, arith, Bool-cases, Option-cases, All, Text, codes, text_eq, text_eq_refl,
  text_eq→eq, ends_with,
}

ends_with-split : (s t : Text) → ends_with s t ≡ true → (p : Text) × (s ≡ p ++ t)
unfolding ends_with
ends_with-split [] t h = ([], text_eq→eq [] t h)
ends_with-split (c ∷ s) t h = elim (Bool-cases (text_eq (c ∷ s) t)) [
  | inl e ↦ ([], text_eq→eq (c ∷ s) t e)
  | inr e ↦ let (p, q) = ends_with-split s t (ground arith) in (c ∷ p, ap (λ r. c ∷ r) q)
]

pub ends_with-append : (p t : Text) → ends_with (p ++ t) t ≡ true
unfolding ends_with
ends_with-append [] [] = refl
ends_with-append [] (c ∷ t) = ground (arith, text_eq_refl (c ∷ t))
ends_with-append (c ∷ p) t = ground (arith, ends_with-append p t)

no_hyphen : (w n : ℕ) → All (λ c. c ≢ b'-') (decimal w n)
unfolding decimal
no_hyphen zero n = tt
no_hyphen (suc w) n = (omega arith, no_hyphen w (n % 10 ^ w))

-- A hyphen after text without one is the first, or lies behind it.
split_cases :
    (d p x y : Text)
    → All (λ c. c ≢ b'-') d
    → d ++ b'-' ∷ x ≡ p ++ b'-' ∷ y
    → (x ≡ y) ⊎ ((r : Text) × (x ≡ r ++ b'-' ∷ y))
split_cases [] [] x y h e = inl (cc)
split_cases [] (c ∷ p) x y h e = inr (p, cc)
split_cases (c ∷ d) [] x y (ne, h) e = absurd (ne (cc))
split_cases (c ∷ d) (c' ∷ p) x y (ne, h) e = split_cases d p x y h (cc)

-- `_find_ticket` takes a name for a job's if the job id in it is that job's, or ends in it behind
-- a hyphen, and for no other job's.
pub ends_with-ticket_name :
    (time : ℕ) (k j : Text)
    → (ends_with (ticket_name time k) (ticket_suffix j) ≡ true)
      ↔ ((k ≡ j) ⊎ ((r : Text) × (k ≡ r ++ b'-' ∷ j)))
unfolding ticket_name ticket_suffix
ends_with-ticket_name time k j = (
  λ h.
      let (p, e) = ends_with-split (ticket_name time k) (ticket_suffix j) h in
      elim (split_cases (decimal 20 time) p (k ++ json) (j ++ json) (no_hyphen 20 time) e) [
        | inl same ↦ inl (append_cancel_right k j json same)
        | inr (r, longer) ↦ inr (
          r,
          append_cancel_right k (r ++ b'-' ∷ j) json
              (longer ∙ sym (append_assoc r (b'-' ∷ j) json)),
        )
      ],
  λ h. elim h [
    | inl e ↦ rw e (ends_with-append (decimal 20 time) (ticket_suffix j))
    | inr (r, e) ↦ rw e (
        rw (append_assoc r (b'-' ∷ j) json) (
          rw (← append_assoc (decimal 20 time) (b'-' ∷ r) (ticket_suffix j))
            (ends_with-append (decimal 20 time ++ b'-' ∷ r) (ticket_suffix j))))
  ],
)
  where
    json : Text
    json = codes ".json"

-- A file that `_write_ticket` made for the job `k`.
pub record Filed (k : Text) (f : TicketFile) : Type 0 where
  pub time : ℕ
  pub ticket : Ticket
  pub named : f.name ≡ ticket_name time k
  pub readable : f.body ≡ some ticket
  pub job : ticket.job_id ≡ some k

abbrev pub IsFiled : TicketFile → Type 0
IsFiled f = (k : Text) × Filed k f

-- No queued job's id ends in the id `j` behind a hyphen.
abbrev pub NoExtension : Text → Queue → Type 0
NoExtension j q = All (λ f. (r : Text) → ¬ Filed (r ++ b'-' ∷ j) f) q

Filed-found :
    (j k : Text) (f : TicketFile)
    → Filed k f
    → ((r : Text) → ¬ Filed (r ++ b'-' ∷ j) f)
    → ends_with f.name (ticket_suffix j) ≡ true
    → Filed j f
Filed-found j k f v free h = elim ((ends_with-ticket_name v.time k j).0 (rw v.named at h)) [
  | inl same ↦ subst (λ i. Filed i f) same v
  | inr (r, longer) ↦ absurd (free r (subst (λ i. Filed i f) longer v))
]

Filed-matches : (j : Text) (f : TicketFile) → Filed j f → ends_with f.name (ticket_suffix j) ≡ true
Filed-matches j f v = rw v.named ((ends_with-ticket_name v.time j j).1 (inl refl))

-- Where no queued id extends `-j`, the search for `j` finds a ticket of `j` if one is queued, and
-- no other job's.
find_ticket_exact :
    (j : Text) (q : Queue)
    → All IsFiled q
    → NoExtension j q
    → ((f : TicketFile) → find_ticket j q ≡ some f → Filed j f)
      × (find_ticket j q ≡ none → All (λ f. ¬ Filed j f) q)
unfolding find_ticket
find_ticket_exact j [] v free = (λ f h. absurd (cc), λ h. tt)
find_ticket_exact j (f ∷ q) ((k, v), vs) (free, frees) =
    let (found, missing) = find_ticket_exact j q vs frees in
    elim (Bool-cases (ends_with f.name (ticket_suffix j))) [
      | inl e ↦ (
        λ g h. let same : f ≡ g = ground arith in subst (Filed j) same (Filed-found j k f v free e),
        λ h. absurd (ground arith),
      )
      | inr e ↦ (
        λ g h. found g (ground arith),
        λ h. (λ w. cc (Filed-matches j f w, e), missing (ground arith)),
      )
    ]

find_ticket-put :
    (j : Text) (f : TicketFile) (q : Queue)
    → find_ticket j q ≡ none
    → ends_with f.name (ticket_suffix j) ≡ true
    → find_ticket j (put f q) ≡ some f
unfolding find_ticket put
find_ticket-put j f [] h e = ground arith
find_ticket-put j f (g ∷ q) h e = ground (arith, find_ticket-put j f q)

new_ticket-Filed :
    (j : Text) (n : ℕ) (session : Option Text) (time_ns created_at : ℕ)
    → Filed j (new_ticket j n session time_ns created_at)
new_ticket-Filed j n session time_ns created_at = record {
  time = time_ns;
  ticket = _;
  named = refl;
  readable = refl;
  job = refl;
}

-- Where no queued id extends `-j`, filing leaves a ticket of `j` in the queue, and it is the one
-- that the search for `j` finds.
pub write_ticket-Filed :
    (j : Text) (n : ℕ) (session : Option Text) (time_ns created_at : ℕ) (q : Queue)
    → All IsFiled q
    → NoExtension j q
    → (f : TicketFile) × (find_ticket j (write_ticket j n session time_ns created_at q) ≡ some f)
      × Filed j f
unfolding write_ticket
write_ticket-Filed j n session time_ns created_at q v free = elim (Option-cases (find_ticket j q)) [
  | inr (f, e) ↦ (f, ground arith, (find_ticket_exact j q v free).0 f e)
  | inl e ↦
      let made = new_ticket-Filed j n session time_ns created_at in
      (
        new_ticket j n session time_ns created_at,
        ground (
          arith,
          find_ticket-put j (new_ticket j n session time_ns created_at) q,
          Filed-matches j _ made,
        ),
        made,
      )
]
