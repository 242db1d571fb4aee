-- ===== src/Effects/Emits.antt =====
-- What a step adds to the events: a predicate that holds of every event before it holds of every
-- event after it.
use remote_worktree_runner.Prelude.{List, All, Result, ok, err}
use remote_worktree_runner.Errors.{Error}
use remote_worktree_runner.Effects.{Ended, done, raised, Step, ◌>>=◌, pure, lift}

unfoldable pub events {ℓ κ} : {E : Type ℓ} {A : Type κ} → Ended E A → List E
events (done a now) = now
events (raised e now) = now

-- The step adds events of `P` only.
abbrev pub Emits {ℓ κ μ} : {E : Type ℓ} {A : Type κ} → (E → Type μ) → Step E A → Type (ℓ ⊔ μ)
Emits {E = E} P step = (start : List E) → All P start → All P (events (step start))

module _ {ℓ κ μ} {E : Type ℓ} {A : Type κ} (P : E → Type μ) where
  pub pure-Emits : (a : A) → Emits P (pure a)
  unfolding events
  pure-Emits a start all = all

  pub lift-Emits : (result : Result Error A) → Emits P (lift result)
  unfolding events
  lift-Emits (ok a) start all = all
  lift-Emits (err e) start all = all

module _ {ℓ κ μ ν} {E : Type ℓ} {A : Type κ} {B : Type ν} (P : E → Type μ) where
  continue-Emits :
      (run : Ended E A) (continue : A → Step E B)
      → ((a : A) → Emits P (continue a))
      → All P (events run)
      → All P (
          events
            (elim run as (λ _. Ended E B) [ done a h ↦ continue a h | raised e h ↦ raised e h ]))
  unfolding events
  continue-Emits (done a h) continue more all = more a h all
  continue-Emits (raised e h) continue more all = all

  pub >>=-Emits :
      (step : Step E A) (continue : A → Step E B)
      → Emits P step
      → ((a : A) → Emits P (continue a))
      → Emits P (step >>= continue)
  >>=-Emits step continue first more start all =
      continue-Emits (step start) continue more (first start all)
