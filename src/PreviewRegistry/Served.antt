-- ===== src/PreviewRegistry/Served.antt =====
-- The answers that a handoff and a withdrawal wait for, and the events behind them.
use remote_worktree_runner.Prelude.{
  ℕ, ◌≡◌, refl, Bool, true, false, ◌&&◌, List, [], ◌∷◌, ◌++◌, leb, Option, none, some, Text, codes,
  ok, Dict,
}
use remote_worktree_runner.Preview.{GatewayRuntime}
use remote_worktree_runner.Preview.Routes.{PreviewRoute, render_route}
use remote_worktree_runner.Errors.{docker_failed}
use remote_worktree_runner.Effects.{Ended, raised, done, pure, lift}
use remote_worktree_runner.Effects.Emits.{events}
use remote_worktree_runner.Effects.Extends.{Later, Extends, lift-Extends, >>=-Extends}
use remote_worktree_runner.PreviewRegistry.Probe.{
  docker, Event, wrote, request, Request, status, run_docker,
}
use remote_worktree_runner.PreviewRegistry.Site.{Entry, Site, gateway, load_routes}
use remote_worktree_runner.PreviewRegistry.Containers.{disconnect, disconnect_if_unused}

-- What is asked of the gateway for a route.
abbrev pub asked : GatewayRuntime → PreviewRoute → Request
asked runtime r = record {
  address = runtime.bind_host;
  port = runtime.bind_port;
  path = r.check_path;
  host = r.hostname;
}

-- After the route file was written with `content`, the configured gateway, asked for the route,
-- answered with the status `code`; all of this happened after `start` and is among the events `now`.
pub record Reply (site : Site) (name : Text) (content : Option Text) (r : PreviewRoute) (code : ℕ)
    (start now : List Event) : Type 0 where
  pub runtime : GatewayRuntime
  pub configured : gateway site ≡ ok runtime
  pub earlier : List Event
  pub since : Later earlier start
  pub between : List Event
  pub answer :
      site.outside.http_status (between ++ wrote name content ∷ earlier) (asked runtime r)
      ≡ status code
  pub happened : Later now (request (asked runtime r) ∷ (between ++ wrote name content ∷ earlier))

-- The gateway answered for the written route with a status from 200 to 399.
abbrev pub Served : Site → Text → PreviewRoute → List Event → List Event → Type 0
Served site name r start now =
    (code : ℕ) × ((leb 200 code && leb code 399) ≡ true)
    × Reply site name (some (render_route r)) r code start now

-- The gateway answered 404 for the route whose file was removed.
abbrev pub Gone : Site → Text → PreviewRoute → List Event → List Event → Type 0
Gone site name r start now = Reply site name none r 404 start now

module _ (site : Site) where
  pub run_docker-Extends : (arguments : List Text) → Extends (run_docker site.outside arguments)
  unfolding run_docker events
  run_docker-Extends arguments start =
      elim (site.outside.run_docker start arguments)
        as (λ o.
          Later
            (events (elim o as (λ _. Ended Event Text) [
              | none ↦ raised docker_failed (docker arguments ∷ start)
              | some output ↦ done output (docker arguments ∷ start)
            ]))
            start) [
              | none ↦ (docker arguments ∷ [], refl)
              | some output ↦ (docker arguments ∷ [], refl)
            ]

  disconnect-Extends :
      (runtime : GatewayRuntime) (id : Text) (used : Bool)
      → Extends (disconnect site runtime id used)
  unfolding disconnect events
  disconnect-Extends runtime id true start = ([], refl)
  disconnect-Extends runtime id false start =
      >>=-Extends
        (run_docker site.outside
          (codes "network" ∷ codes "disconnect" ∷ runtime.edge_network ∷ id ∷ []))
        (λ _. pure (tt {0})) (run_docker-Extends _) (λ _ begin. ([], refl)) start

  pub disconnect_if_unused-Extends :
      (runtime : GatewayRuntime) (id : Text) (routes : Dict Entry)
      → Extends (disconnect_if_unused site runtime id routes)
  unfolding disconnect_if_unused
  disconnect_if_unused-Extends runtime id routes =
      >>=-Extends (lift {E = Event} (load_routes site routes)) _
        (lift-Extends (load_routes site routes)) (λ active. disconnect-Extends runtime id _)
