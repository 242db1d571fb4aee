-- ===== src/PreviewRegistry/Publish.antt =====
-- trie_remote/preview_registry.py: `PreviewRegistry.publish`.
use remote_worktree_runner.Effects.{done, raised, ◌>>=◌, ◌>>◌, pure, lift}
use remote_worktree_runner.PreviewRegistry.Probe.{
  Event, Request, Run, Probe, single_status, gateway_status, wait_for_status, successful,
}
use remote_worktree_runner.Prelude.{
  ℕ, Bool, true, false, Option, none, some, List, Text, text_eq, Result, ok, err, require, Dict,
  lookup,
}
use remote_worktree_runner.Errors.{Error, check_failed}
use remote_worktree_runner.Preview.{PreviewSlot, GatewayRuntime}
use remote_worktree_runner.Preview.Routes.{PreviewRoute, preview_route, asdict, render_route}
use remote_worktree_runner.PreviewRegistry.Site.{
  Entry, World, Site, gateway, route_path, write_route,
}
use remote_worktree_runner.PreviewRegistry.Authority.{
  Handoff, authorize, read_previous, same_handoff, is_caught,
}
use remote_worktree_runner.PreviewRegistry.Containers.{
  resolve_container, connect_candidate, disconnect_if_unused,
}

-- What is known when the `try` begins: the route file's name, what it held, the gateway, where the
-- container answers, whether it was connected just now, and the new route.
pub record Prepared : Type 0 where
  pub name : Text
  pub previous : Option (Text × PreviewRoute)
  pub runtime : GatewayRuntime
  pub address : Text
  pub connected_now : Bool
  pub candidate : PreviewRoute

-- _status(address, port, route)
abbrev pub request_of : Text → ℕ → PreviewRoute → Request
request_of address port route = record {
  address = address;
  port = port;
  path = route.check_path;
  host = route.hostname;
}

abbrev pub gateway_request : GatewayRuntime → PreviewRoute → Request
gateway_request runtime route = request_of runtime.bind_host runtime.bind_port route

abbrev pub previous_content : Option (Text × PreviewRoute) → Option Text
previous_content none = none
previous_content (some (content, r)) = some content

-- What an operation returns or raises, and the world afterwards.
abbrev pub Outcome {ℓ} : Type ℓ → Type ℓ
Outcome A = Result Error A × World

-- A probe between two changes of the route files.
abbrev pub probed : List Event → World → World
probed now w = record w { events = now }

unfoldable pub after_gateway : Run ℕ → World → Outcome (Unit {0})
after_gateway (raised e now) w = (err e, probed now w)
after_gateway (done code now) w = (require (successful code) check_failed, probed now w)

-- The error of the `try`, unless one of the steps that undo it raises another.
unfoldable pub after_undo : Error → Run (Unit {0}) → World → Outcome PreviewRoute
after_undo e (raised other now) w = (err other, probed now w)
after_undo e (done _ now) w = (err e, probed now w)

unfoldable pub after_release : Prepared → Run (Unit {0}) → World → Outcome PreviewRoute
after_release p (raised e now) w = (err e, probed now w)
after_release p (done _ now) w = (ok p.candidate, probed now w)

module _ (site : Site) where
  abbrev pub candidate_of : Handoff → PreviewSlot → ℕ → Text → Text → PreviewRoute
  candidate_of q configured port id alias = record {
    slot = q.slot;
    hostname = configured.hostname;
    repository = configured.repository;
    job_id = q.job_id;
    project = q.project;
    service = q.service;
    container_id = id;
    network_alias = alias;
    port = port;
    check_path = q.check_path;
    published_at = site.now;
  }

  -- All that stands before the comparison with the previous route.
  unfoldable pub prepare : Handoff → Dict Entry → Probe Prepared
  unfolding authorize read_previous
  prepare q routes = do
    authority ← lift (authorize site q)
    id ← resolve_container site q.project q.service
    name ← lift (route_path q.slot routes)
    previous ← lift (read_previous site.python (lookup name routes))
    runtime ← lift (gateway site)
    place ← connect_candidate site runtime q.slot id
    candidate ←
        lift
          (preview_route site.python (asdict (candidate_of q authority.0 authority.1 id place.0)))
    pure (record {
      name = name;
      previous = previous;
      runtime = runtime;
      address = place.1;
      connected_now = place.2;
      candidate = candidate;
    })

  unfoldable pub after_write : Prepared → Outcome (Unit {0}) → Outcome (Unit {0})
  unfolding after_gateway
  after_write p (err e, w) = (err e, w)
  after_write p (ok _, w) =
      after_gateway (gateway_status site.outside (gateway_request p.runtime p.candidate) w.events) w

  unfoldable pub after_direct : Prepared → Run ℕ → World → Outcome (Unit {0})
  unfolding after_write
  after_direct p (raised e now) w = (err e, probed now w)
  after_direct p (done code now) w = elim (successful code) [
    | false ↦ (err check_failed, probed now w)
    | true ↦
        after_write p
          (write_route site.outside p.name (some (render_route p.candidate)) (probed now w))
  ]

  -- The body of the `try`: the container's own answer, the new route file, the gateway's answer.
  unfoldable pub attempt : Prepared → World → Outcome (Unit {0})
  unfolding after_direct
  attempt p w =
      after_direct p
        (single_status site.outside (request_of p.address p.candidate.port p.candidate) w.events) w

  unfoldable pub wait_for_previous :
      GatewayRuntime → Option (Text × PreviewRoute) → Probe (Unit {0})
  wait_for_previous runtime none = pure tt
  wait_for_previous runtime (some (content, r)) = do
    wait_for_status site.outside (gateway_request runtime r) successful
    pure tt

  unfoldable pub disconnect_new : Prepared → Dict Entry → Bool → Probe (Unit {0})
  disconnect_new p routes false = pure tt
  disconnect_new p routes true = disconnect_if_unused site p.runtime p.candidate.container_id routes

  unfoldable pub after_restore : Prepared → Error → Outcome (Unit {0}) → Outcome PreviewRoute
  unfolding wait_for_previous disconnect_new after_undo
  after_restore p e (err other, w) = (err other, w)
  after_restore p e (ok _, w) =
      let undo : Probe (Unit {0}) =
        wait_for_previous p.runtime p.previous >> disconnect_new p w.routes p.connected_now in
      after_undo e (undo w.events) w

  -- The handler of the `try`.
  unfoldable pub roll_back : Prepared → Error → World → Outcome PreviewRoute
  unfolding after_restore
  roll_back p e w = elim (is_caught e) [
    | true ↦ after_restore p e (write_route site.outside p.name (previous_content p.previous) w)
    | false ↦ (err e, w)
  ]

  unfoldable pub release_container :
      Prepared → Option (Text × PreviewRoute) → Dict Entry → Probe (Unit {0})
  release_container p none routes = pure tt
  release_container p (some (content, r)) routes =
      elim (text_eq r.container_id p.candidate.container_id) [
        | true ↦ pure tt
        | false ↦ disconnect_if_unused site p.runtime r.container_id routes
      ]

  -- What follows the `try`, by how it ended.
  unfoldable pub settle : Prepared → Outcome (Unit {0}) → Outcome PreviewRoute
  unfolding roll_back release_container after_release
  settle p (err e, w) = roll_back p e w
  settle p (ok _, w) = after_release p (release_container p p.previous w.routes w.events) w

  -- A handoff that changes nothing returns the route that stands.
  unfoldable pub hand_over : Prepared → Option (Text × PreviewRoute) → World → Outcome PreviewRoute
  unfolding attempt settle
  hand_over p none w = settle p (attempt p w)
  hand_over p (some (content, r)) w = elim (same_handoff r p.candidate) [
    | true ↦ (ok r, w)
    | false ↦ settle p (attempt p w)
  ]

  unfoldable pub after_prepare : Run Prepared → World → Outcome PreviewRoute
  unfolding hand_over
  after_prepare (raised e now) w = (err e, probed now w)
  after_prepare (done p now) w = hand_over p p.previous (probed now w)

  unfoldable pub publish : Handoff → World → Outcome PreviewRoute
  unfolding prepare after_prepare
  publish q w = after_prepare (prepare q w.routes w.events) w
