-- ===== src/RunnerConfig/Laws.antt =====
-- What the other parts rely on of a configuration.
use mathlib.Core.Path.{subst}
use remote_worktree_runner.Prelude.{
  ℕ, ◌≤◌, ◌≡◌, refl, Bool, true, false, Option, List, [], ◌∷◌, arith, ltb, All, Text, ok, require,
  require-ok, >>=-eq-ok, Dict, ℤ, pos, negsuc, strip, ok_injective,
}
use remote_worktree_runner.Errors.{no_repositories}
use remote_worktree_runner.Common.{is_identifier, validate_identifier}
use remote_worktree_runner.Common.Laws.{validate_identifier-eq-ok}
use remote_worktree_runner.RunnerConfig.{
  RunnerConfig, repository_items, is_nonempty, integer, positive, load_config,
}
use remote_worktree_runner.JobStore.{Store}
use remote_worktree_runner.Scheduler.Tickets.{Queue}
use remote_worktree_runner.Scheduler.Slots.{Slot, touch_slots}
use remote_worktree_runner.Scheduler.Pool.{ResourcePool, resource_pool}

positive-ok : (n : ℤ) (k : ℕ) → positive n ≡ ok k → 1 ≤ k
unfolding positive
positive-ok (pos n) k h = ground arith
positive-ok (negsuc n) k h = absurd (cc)

abbrev pub AreIdentifiers : List Text → Type 0
AreIdentifiers = All (λ r. is_identifier r ≡ true)

next_item :
    (item : Text) (items found : List Text) (name : Text)
    → strip item ≡ name
    → repository_items (item ∷ items) ≡ ok found
    → ((more : List Text) → repository_items items ≡ ok more → AreIdentifiers more)
    → AreIdentifiers found
unfolding repository_items
next_item item items found [] e h rest = rest found (rw (e, repository_items) at h)
next_item item items found (c ∷ name) e h rest =
    let (safe, e1, h1) =
      >>=-eq-ok (validate_identifier (c ∷ name)) _ (rw (e, repository_items) at h) in
    let (more, e2, h2) = >>=-eq-ok (repository_items items) _ h1 in
    let (valid, same) = validate_identifier-eq-ok (c ∷ name) safe e1 in
    subst AreIdentifiers (ok_injective h2) (rw same valid, rest more e2)

checked_items : (items found : List Text) → repository_items items ≡ ok found → AreIdentifiers found
unfolding repository_items
checked_items [] found h = subst AreIdentifiers (ok_injective h) tt
checked_items (item ∷ items) found h =
    next_item item items found (strip item) refl h (checked_items items)

-- The scheduler's pool can be built for so many jobs, whatever it finds on the disk.
abbrev pub Builds : ℕ → Type 0
Builds jobs =
    (store : Option Store) (inactive : Option (Text → Bool)) (queue : Queue) (slots : List Slot)
    → (pool : ResourcePool) × (resource_pool jobs store inactive queue slots ≡ ok pool)
      × (pool.capacity ≡ jobs)

abbrev pub Usable : RunnerConfig → Type 0
Usable config =
    AreIdentifiers config.allowed_repositories
    × (is_nonempty config.allowed_repositories ≡ true)
    × (1 ≤ config.max_heavy_jobs)
    × Builds config.max_heavy_jobs

pool_built : (jobs : ℕ) → 1 ≤ jobs → Builds jobs
unfolding resource_pool
pool_built jobs h store inactive queue slots =
    let some_job : ltb jobs 1 ≡ false = ground arith in
    (
      record {
        capacity = jobs;
        store = store;
        worker_inactive = inactive;
        queue = queue;
        slots = touch_slots jobs slots;
      },
      rw some_job,
      refl,
    )

-- A configuration that loads is usable: every repository of its list is an identifier and there is
-- one at least; at least one heavy job may run, so that the scheduler's pool can be built.
pub load_config-Usable :
    (environ : Dict Text) (config : RunnerConfig) → load_config environ ≡ ok config → Usable config
unfolding load_config
load_config-Usable environ config h =
    let (repositories, e1, h1) = >>=-eq-ok (repository_items _) _ h in
    let (_, e2, h2) = >>=-eq-ok (require (is_nonempty repositories) no_repositories) _ h1 in
    let (heavy, e3, h3) = >>=-eq-ok (integer _) _ h2 in
    let (jobs, e4, h4) = >>=-eq-ok (positive heavy) _ h3 in
    let (low, e5, h5) = >>=-eq-ok (integer _) _ h4 in
    let (warn, e6, h6) = >>=-eq-ok (integer _) _ h5 in
    let (cancel, e7, h7) = >>=-eq-ok (integer _) _ h6 in
    let same = ok_injective h7 in
    subst Usable same (
      checked_items _ repositories e1,
      require-ok _ no_repositories e2,
      positive-ok heavy jobs e4,
      pool_built jobs (positive-ok heavy jobs e4),
    )
