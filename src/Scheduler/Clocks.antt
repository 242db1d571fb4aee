-- ===== src/Scheduler/Clocks.antt =====
-- The order of the ticket names is the order of the clock.
use native.Mathlib.Nat.{div-add-mod, mod-lt, pow-suc}
use remote_worktree_runner.Scheduler.Tickets.{
  TicketFile, Queue, decimal, ticket_suffix, ticket_name, put, new_ticket,
}
use remote_worktree_runner.Prelude.{
  ℕ, zero, suc, ◌/◌, ◌%◌, ◌^◌, ◌≤◌, ◌<◌, ◌≡◌, refl, true, false, Option, [], ◌∷◌, ◌++◌, arith, All,
  All-map, Text, text_eq_iff, text_ltb,
}

ten_pow_pos : (w : ℕ) → 0 < 10 ^ w
ten_pow_pos zero = omega arith
ten_pow_pos (suc w) = grind (arith, ten_pow_pos w, pow-suc 10 w)

quotients : (p n m : ℕ) → 0 < p → n < m → n / p ≤ m / p
quotients p n m h lt = grind arith

remainders : (p n m : ℕ) → 0 < p → n < m → n / p ≡ m / p → n % p < m % p
remainders p n m h lt e = grind (arith, div-add-mod n p, div-add-mod m p)

-- At one width, the order of the digits is the order of the numbers, whatever follows.
text_ltb-decimal :
    (w n m : ℕ) (x y : Text)
    → n < m
    → m < 10 ^ w
    → text_ltb (decimal w n ++ x) (decimal w m ++ y) ≡ true
unfolding text_ltb decimal
text_ltb-decimal zero n m x y h b = absurd (omega arith)
text_ltb-decimal (suc w) n m x y h b = ground (
  arith,
  quotients (10 ^ w) n m (ten_pow_pos w) h,
  remainders (10 ^ w) n m (ten_pow_pos w) h,
  mod-lt m {m = 10 ^ w} (ten_pow_pos w),
  text_ltb-decimal w (n % 10 ^ w) (m % 10 ^ w) x y,
)

-- A ticket filed at a later time, by the nanosecond clock, has a later name, whatever the jobs, up
-- to the year 5138.
text_ltb-ticket_name :
    (n m : ℕ) (j k : Text)
    → n < m
    → m < 10 ^ 20
    → text_ltb (ticket_name n j) (ticket_name m k) ≡ true
unfolding ticket_name
text_ltb-ticket_name n m j k h b = text_ltb-decimal 20 n m (ticket_suffix j) (ticket_suffix k) h b

text_ltb_irrefl : (s : Text) → text_ltb s s ≡ false
unfolding text_ltb
text_ltb_irrefl [] = refl
text_ltb_irrefl (c ∷ s) = ground (arith, text_ltb_irrefl s)

text_ltb-asym : (s t : Text) → text_ltb s t ≡ true → text_ltb t s ≡ false
unfolding text_ltb
text_ltb-asym [] [] h = refl
text_ltb-asym [] (d ∷ t) h = refl
text_ltb-asym (c ∷ s) [] h = absurd (cc)
text_ltb-asym (c ∷ s) (d ∷ t) h = ground (arith, text_ltb-asym s t)

-- Every file of the queue was made by `_write_ticket` before the time `now`.
abbrev pub FiledBefore : ℕ → Queue → Type 0
FiledBefore now q =
    All (λ f. (time : ℕ) × (job : Text) × (f.name ≡ ticket_name time job) × (time < now)) q

put-last :
    (f : TicketFile) (q : Queue)
    → All (λ g. text_ltb g.name f.name ≡ true) q
    → put f q ≡ q ++ f ∷ []
unfolding put
put-last f [] h = refl
put-last f (g ∷ q) (e, h) = ground (
  arith,
  put-last f q h,
  text_ltb-asym g.name f.name e,
  text_ltb_irrefl g.name,
  text_eq_iff f.name g.name,
)

-- A ticket that is filed after all queued tickets, by the nanosecond clock, goes to the end of
-- the queue, and the others keep their places.
pub put-FiledBefore :
    (j : Text) (n : ℕ) (session : Option Text) (now created_at : ℕ) (q : Queue)
    → FiledBefore now q
    → now < 10 ^ 20
    → put (new_ticket j n session now created_at) q
      ≡ q ++ new_ticket j n session now created_at ∷ []
put-FiledBefore j n session now created_at q h b =
    put-last (new_ticket j n session now created_at) q (
      All-map _ _
        (λ f (time, job, named, earlier). rw named (text_ltb-ticket_name time now job j earlier b))
        q h)
