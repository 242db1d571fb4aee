-- ===== src/PreviewRegistry/Polling.antt =====
-- The loops that wait for the gateway come to an end after twenty requests.
use mathlib.Core.List.{append_assoc}
use remote_worktree_runner.Errors.{Error, http_failed, encode_failed}
use remote_worktree_runner.Effects.Laws.{done_injective}
use remote_worktree_runner.Prelude.{
  ℕ, zero, suc, ◌+◌, ◌≤◌, ◌≡◌, refl, sym, ap, ◌∙◌, ◌⊎◌, inl, inr, Bool, true, false, ◌&&◌, ◌||◌,
  List, [], ◌∷◌, ◌++◌, arith, leb, Bool-cases, length,
}
use remote_worktree_runner.Effects.{done, raised}
use remote_worktree_runner.PreviewRegistry.Probe.{
  Event, request, HttpAnswer, status, os_failure, http_failure, value_failure, Outside, Request,
  Run, poll_round, poll_status, gateway_status, wait_for_status,
}

-- The exceptions of a request that the loops do not catch: those of `http.client`, and the
-- ValueError for a path that cannot be encoded.
abbrev pub IsHttpError : Error → Type 0
IsHttpError e = (e ≡ http_failed) ⊎ (e ≡ encode_failed)

-- How such a loop of at most `n` requests ends: with a status that it waited for; with one that it
-- did not wait for, and then all the requests were made; or with an exception of a request that is
-- no OSError.
pub data Polled (stop : ℕ → Bool) (n : ℕ) (start : List Event) : Run ℕ → Type 0 where
  stopped :
      {code : ℕ} {now : List Event}
      → stop code ≡ true
      → length now ≤ length start + n
      → Polled stop n start (done code now)
  exhausted :
      {code : ℕ} {now : List Event}
      → stop code ≡ false
      → length now ≡ length start + n
      → Polled stop n start (done code now)
  failed :
      {e : Error} {now : List Event}
      → IsHttpError e
      → length now ≤ length start + n
      → Polled stop n start (raised e now)

pub Polled-raised :
    {stop : ℕ → Bool} {n : ℕ} {start now : List Event} {run : Run ℕ} {e : Error}
    → Polled stop n start run
    → run ≡ raised e now
    → IsHttpError e
Polled-raised (stopped s h) p = absurd (cc)
Polled-raised (exhausted s h) p = absurd (cc)
Polled-raised (failed (inl x) h) p = inl (cc)
Polled-raised (failed (inr x) h) p = inr (cc)

module _ (outside : Outside) (stop : ℕ → Bool) (r : Request) where
  one_more :
      (n : ℕ) (start : List Event) (run : Run ℕ)
      → Polled stop n (request r ∷ start) run
      → Polled stop (suc n) start run
  one_more n start _ (stopped s h) = stopped s (omega arith)
  one_more n start _ (exhausted s h) = exhausted s (omega arith)
  one_more n start _ (failed x h) = failed x (omega arith)

  poll_round-Polled :
      (n last : ℕ) (start : List Event) (answer : HttpAnswer)
      → stop last ≡ false
      → ((last' : ℕ) (begin : List Event)
          → stop last' ≡ false
          → Polled stop n begin (poll_status outside n stop r last' begin))
      → Polled stop n
          (request r ∷ start)
          (poll_round stop (poll_status outside n stop r) last answer (request r ∷ start))
  unfolding poll_round
  poll_round-Polled n last start (status code) e again = elim (Bool-cases (stop code)) [
    | inl s ↦ rw (s, poll_round) (stopped s (omega arith))
    | inr s ↦ rw (s, poll_round) (again code (request r ∷ start) s)
  ]
  poll_round-Polled n last start os_failure e again = again last (request r ∷ start) e
  poll_round-Polled n last start http_failure e again = failed (inl refl) (omega arith)
  poll_round-Polled n last start value_failure e again = failed (inr refl) (omega arith)

  poll_status-Polled :
      (n last : ℕ) (start : List Event)
      → stop last ≡ false
      → Polled stop n start (poll_status outside n stop r last start)
  unfolding poll_status
  poll_status-Polled zero last start e = exhausted e (omega arith)
  poll_status-Polled (suc n) last start e =
      one_more n start _ (poll_round-Polled n last start _ e (poll_status-Polled n))

  -- The answer that ends a loop is that of its last request.
  pub record Answered (code : ℕ) (start now : List Event) : Type 0 where
    pub between : List Event
    pub last : now ≡ request r ∷ (between ++ start)
    pub answer : outside.http_status (between ++ start) r ≡ status code

  later-Answered :
      (code : ℕ) (start now : List Event)
      → Answered code (request r ∷ start) now
      → Answered code start now
  later-Answered code start now a =
      let same : a.between ++ request r ∷ start ≡ (a.between ++ request r ∷ []) ++ start =
        sym (append_assoc a.between (request r ∷ []) start) in
      record {
        between = a.between ++ request r ∷ [];
        last = a.last ∙ ap (λ (t : List Event). request r ∷ t) same;
        answer = rw (← same) a.answer;
      }

  poll_round-Answered :
      (n last : ℕ) (start now : List Event) (code : ℕ) (answer : HttpAnswer)
      → outside.http_status start r ≡ answer
      → stop last ≡ false
      → stop code ≡ true
      → ((last' : ℕ)
          → stop last' ≡ false
          → poll_status outside n stop r last' (request r ∷ start) ≡ done code now
          → Answered code (request r ∷ start) now)
      → poll_round stop (poll_status outside n stop r) last answer (request r ∷ start)
        ≡ done code now
      → Answered code start now
  unfolding poll_round
  poll_round-Answered n last start now code (status c) h e s again p = elim (Bool-cases (stop c)) [
    | inl stops ↦
        (let same : done c (request r ∷ start) ≡ done code now = rw (stops, poll_round) at p in
          let (one, two) = done_injective same in
          record { between = []; last = sym two; answer = h ∙ ap status one })
    | inr more ↦ later-Answered code start now (again c more (rw (more, poll_round) at p))
  ]
  poll_round-Answered n last start now code os_failure h e s again p =
      later-Answered code start now (again last e p)
  poll_round-Answered n last start now code http_failure h e s again p = absurd (cc)
  poll_round-Answered n last start now code value_failure h e s again p = absurd (cc)

  pub poll_status-Answered :
      (n last : ℕ) (start now : List Event) (code : ℕ)
      → stop last ≡ false
      → stop code ≡ true
      → poll_status outside n stop r last start ≡ done code now
      → Answered code start now
  unfolding poll_status
  poll_status-Answered zero last start now code e s p =
      absurd (cc (ap stop ((done_injective p).0), e, s))
  poll_status-Answered (suc n) last start now code e s p =
      poll_round-Answered n last start now code _ refl e s
        (λ last' f q. poll_status-Answered n last' (request r ∷ start) now code f s q) p

-- The wait after a publication makes at most twenty requests. It ends with a status from 200 to 399
-- or from 500 on; or with another status, after all twenty; or with an exception of a request that is no
-- OSError.
pub gateway_status-Polled :
    (outside : Outside) (r : Request) (start : List Event)
    → Polled
        (λ code. (leb 200 code && leb code 399) || leb 500 code)
        20
        start
        (gateway_status outside r start)
unfolding gateway_status
gateway_status-Polled outside r start =
    poll_status-Polled outside (λ code. (leb 200 code && leb code 399) || leb 500 code) r 20 0 start
      refl

-- So does the wait for an expected status, which 0 must not be.
pub wait_for_status-Polled :
    (outside : Outside) (r : Request) (expected : ℕ → Bool) (start : List Event)
    → expected 0 ≡ false
    → Polled expected 20 start (wait_for_status outside r expected start)
unfolding wait_for_status
wait_for_status-Polled outside r expected start e =
    poll_status-Polled outside expected r 20 0 start e
