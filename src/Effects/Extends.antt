-- ===== src/Effects/Extends.antt =====
-- A step only adds events to those that happened before it.
use mathlib.Core.List.{append_assoc}
use remote_worktree_runner.Prelude.{◌≡◌, refl, sym, ap, ◌∙◌, List, [], ◌++◌, Result, ok, err}
use remote_worktree_runner.Errors.{Error}
use remote_worktree_runner.Effects.{Ended, done, raised, Step, ◌>>=◌, lift}
use remote_worktree_runner.Effects.Emits.{events}

abbrev pub Later {ℓ} : {E : Type ℓ} → List E → List E → Type ℓ
Later {E = E} now start = (more : List E) × (now ≡ more ++ start)

pub Later-trans {ℓ} :
    {E : Type ℓ} (last now start : List E) → Later last now → Later now start → Later last start
Later-trans last now start (more, e) (few, f) =
    (more ++ few, e ∙ ap (λ t. more ++ t) f ∙ sym (append_assoc more few start))

abbrev pub Extends {ℓ κ} : {E : Type ℓ} {A : Type κ} → Step E A → Type ℓ
Extends {E = E} step = (start : List E) → Later (events (step start)) start

module _ {ℓ κ} {E : Type ℓ} {A : Type κ} where
  pub lift-Extends : (result : Result Error A) → Extends (lift {E = E} result)
  unfolding events
  lift-Extends (ok a) start = ([], refl)
  lift-Extends (err e) start = ([], refl)

module _ {ℓ κ μ} {E : Type ℓ} {A : Type κ} {B : Type μ} where
  continue-Extends :
      (run : Ended E A) (continue : A → Step E B) (start : List E)
      → ((a : A) → Extends (continue a))
      → Later (events run) start
      → Later
          (events
            (elim run as (λ _. Ended E B) [ done a h ↦ continue a h | raised e h ↦ raised e h ]))
          start
  unfolding events
  continue-Extends (done a h) continue start more later = Later-trans _ h start (more a h) later
  continue-Extends (raised e h) continue start more later = later

  pub >>=-Extends :
      (step : Step E A) (continue : A → Step E B)
      → Extends step
      → ((a : A) → Extends (continue a))
      → Extends (step >>= continue)
  >>=-Extends step continue first more start =
      continue-Extends (step start) continue start more (first start)
