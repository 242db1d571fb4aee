-- ===== src/Effects/Laws.antt =====
-- Taking a sequence of steps apart.
use remote_worktree_runner.Prelude.{◌≡◌, refl, List, Result, ok, err}
use remote_worktree_runner.Errors.{Error}
use remote_worktree_runner.Effects.{Ended, done, raised, Step, ◌>>=◌, lift}

module _ {ℓ κ μ} {E : Type ℓ} {A : Type κ} {B : Type μ} where
  after_run :
      (run : Ended E A) (continue : A → Step E B) (b : B) (now : List E)
      → elim run as (λ _. Ended E B) [ done a h ↦ continue a h | raised e h ↦ raised e h ]
        ≡ done b now
      → (a : A) × (h : List E) × (run ≡ done a h) × (continue a h ≡ done b now)
  after_run (done a h) continue b now e = (a, h, refl, e)
  after_run (raised x h) continue b now e = absurd (cc)

  -- What follows a step runs only if the step came back.
  pub >>=-done :
      (step : Step E A) (continue : A → Step E B) (start : List E) {b : B} {now : List E}
      → (step >>= continue) start ≡ done b now
      → (a : A) × (h : List E) × (step start ≡ done a h) × (continue a h ≡ done b now)
  >>=-done step continue start {b} {now} e = after_run (step start) continue b now e

  pub >>=-after :
      (step : Step E A) (continue : A → Step E B) (start now : List E) (a : A)
      → step start ≡ done a now
      → (step >>= continue) start ≡ continue a now
  >>=-after step continue start now a h = rw (h, ◌>>=◌)

  pub >>=-failed :
      (step : Step E A) (continue : A → Step E B) (start now : List E) (e : Error)
      → step start ≡ raised e now
      → (step >>= continue) start ≡ raised e now
  >>=-failed step continue start now e h = rw (h, ◌>>=◌)

pub lift_ok {ℓ κ} :
    {E : Type ℓ} {A : Type κ} (result : Result Error A) (a : A) (start : List E)
    → result ≡ ok a
    → lift result start ≡ done a start
lift_ok result a start h = rw h

pub lift_err {ℓ κ} :
    {E : Type ℓ} {A : Type κ} (result : Result Error A) (e : Error) (start : List E)
    → result ≡ err e
    → lift result start ≡ raised e start
lift_err result e start h = rw h

pub lift-done {ℓ κ} :
    {E : Type ℓ} {A : Type κ} (result : Result Error A) (start : List E) {a : A} {now : List E}
    → lift result start ≡ done a now
    → (result ≡ ok a) × (now ≡ start)
lift-done (ok a) start e = (cc, cc)
lift-done (err x) start e = absurd (cc)

pub done_injective {ℓ κ} :
    {E : Type ℓ} {A : Type κ} {a b : A} {h k : List E} → done a h ≡ done b k → (a ≡ b) × (h ≡ k)
done_injective e = (cc, cc)
