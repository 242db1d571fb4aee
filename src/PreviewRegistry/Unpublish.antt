-- ===== src/PreviewRegistry/Unpublish.antt =====
-- trie_remote/preview_registry.py: `PreviewRegistry.unpublish` and `assert_cleanup_allowed`.
use remote_worktree_runner.Prelude.{
  ℕ, Bool, true, false, ◌&&◌, Option, none, some, List, [], ◌∷◌, ◌==◌, if◌then◌else◌, Text, text_eq,
  Result, ok, err, ◌>>=◌, ◌>>◌, require, Dict, lookup,
}
use remote_worktree_runner.Errors.{
  Error, not_published, not_preview_owner, still_active, owns_previews,
}
use remote_worktree_runner.Common.{validate_identifier}
use remote_worktree_runner.Preview.{GatewayRuntime}
use remote_worktree_runner.Preview.Routes.{PreviewRoute, Python, parse_route, render_route}
use remote_worktree_runner.Effects.{done, raised}
use remote_worktree_runner.PreviewRegistry.Probe.{Run, wait_for_status}
use remote_worktree_runner.PreviewRegistry.Site.{
  Entry, file, World, Site, lock, gateway, route_path, write_route, load_routes,
}
use remote_worktree_runner.PreviewRegistry.Containers.{disconnect_if_unused}
use remote_worktree_runner.PreviewRegistry.Publish.{gateway_request, Outcome, probed}

-- The route file of the slot, its route and the gateway.
pub record Owned : Type 0 where
  pub name : Text
  pub route : PreviewRoute
  pub runtime : GatewayRuntime

unfoldable pub published_route : Python → Option Entry → Result Error PreviewRoute
published_route python (some (file content)) = parse_route python content
published_route python _ = err not_published

unfoldable pub after_disconnect : Owned → Run (Unit {0}) → World → Outcome PreviewRoute
after_disconnect o (raised e now) w = (err e, probed now w)
after_disconnect o (done _ now) w = (ok o.route, probed now w)

-- The gateway still answers: the file is written again.
unfoldable pub after_rewrite : Outcome (Unit {0}) → Outcome PreviewRoute
after_rewrite (err e, w) = (err e, w)
after_rewrite (ok _, w) = (err still_active, w)

-- [route.slot for route in routes if route.job_id == job]
unfoldable pub owned_slots : Text → List PreviewRoute → List Text
owned_slots job [] = []
owned_slots job (r ∷ routes) =
    let rest = owned_slots job routes in if text_eq r.job_id job then r.slot ∷ rest else rest

unfoldable pub refuse_owned : List Text → Result Error (Unit {0})
refuse_owned [] = ok tt
refuse_owned (slot ∷ slots) = err owns_previews

module _ (site : Site) where
  -- All that stands before the file is removed.
  unfoldable pub find_owned : Text → Text → Dict Entry → Result Error Owned
  unfolding published_route
  find_owned job_id slot routes = do
    job ← validate_identifier job_id
    safe_slot ← validate_identifier slot
    lock site
    name ← route_path safe_slot routes
    route ← published_route site.python (lookup name routes)
    require (text_eq route.job_id job) not_preview_owner
    runtime ← gateway site
    ok (record { name = name; route = route; runtime = runtime })

  unfoldable pub after_wait : Owned → Run ℕ → World → Outcome PreviewRoute
  unfolding after_disconnect after_rewrite
  after_wait o (raised e now) w = (err e, probed now w)
  after_wait o (done code now) w = elim (code == 404) [
    | true ↦
        after_disconnect o (disconnect_if_unused site o.runtime o.route.container_id w.routes now) w
    | false ↦
        after_rewrite (write_route site.outside o.name (some (render_route o.route)) (probed now w))
  ]

  unfoldable pub after_removal : Owned → Outcome (Unit {0}) → Outcome PreviewRoute
  unfolding after_wait
  after_removal o (err e, w) = (err e, w)
  after_removal o (ok _, w) =
      after_wait o
        (wait_for_status site.outside (gateway_request o.runtime o.route) (λ code. code == 404)
          w.events)
        w

  unfoldable pub withdraw : Result Error Owned → World → Outcome PreviewRoute
  unfolding after_removal
  withdraw (err e) w = (err e, w)
  withdraw (ok o) w = after_removal o (write_route site.outside o.name none w)

  unfoldable pub unpublish : Text → Text → World → Outcome PreviewRoute
  unfolding find_owned withdraw
  unpublish job_id slot w = withdraw (find_owned job_id slot w.routes) w

  abbrev pub has_slots : Bool
  has_slots = elim site.slots [ none ↦ false | some content ↦ true ]

  unfoldable pub assert_cleanup_allowed : Text → Dict Entry → Result Error (Unit {0})
  unfolding refuse_owned owned_slots
  assert_cleanup_allowed job_id routes = do
    job ← validate_identifier job_id
    elim (site.gateway_there && has_slots) [
      | false ↦ ok tt
      | true ↦
          (lock site >> (load_routes site routes >>= λ found. refuse_owned (owned_slots job found)))
    ]
