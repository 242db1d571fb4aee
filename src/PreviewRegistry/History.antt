-- ===== src/PreviewRegistry/History.antt =====
-- What a handoff asks before its first write only adds to the events.
use remote_worktree_runner.Prelude.{
  ℕ, refl, true, false, Option, none, some, [], ◌∷◌, Text, Dict, lookup, err,
}
use remote_worktree_runner.Errors.{bad_networks, os_error, http_failed, encode_failed}
use remote_worktree_runner.Preview.{GatewayRuntime}
use remote_worktree_runner.Preview.Routes.{preview_route, asdict}
use remote_worktree_runner.Effects.{Ended, raised, done, pure}
use remote_worktree_runner.Effects.Emits.{events}
use remote_worktree_runner.Effects.Extends.{Later, Extends, lift-Extends, >>=-Extends}
use remote_worktree_runner.PreviewRegistry.Probe.{
  Event, request, Request, status, os_failure, http_failure, value_failure, HttpAnswer,
  single_status,
}
use remote_worktree_runner.PreviewRegistry.Site.{
  route_path, gateway, Entry, Site, Attachment, attached, null, other,
}
use remote_worktree_runner.PreviewRegistry.Containers.{
  resolve_container, container_networks, connect_now, connect_from, connect_candidate,
  preview_alias, alias_among, address_of,
}
use remote_worktree_runner.PreviewRegistry.Authority.{Handoff, authorize, read_previous}
use remote_worktree_runner.PreviewRegistry.Publish.{prepare, candidate_of}
use remote_worktree_runner.PreviewRegistry.Served.{run_docker-Extends}

module _ (site : Site) where
  pub single_status-Extends : (r : Request) → Extends (single_status site.outside r)
  unfolding single_status events
  single_status-Extends r start = by_answer (site.outside.http_status start r)
    where
      by_answer :
          (answer : HttpAnswer)
          → Later
              (events (elim answer as (λ _. Ended Event ℕ) [
                | status code ↦ done code (request r ∷ start)
                | os_failure ↦ raised os_error (request r ∷ start)
                | http_failure ↦ raised http_failed (request r ∷ start)
                | value_failure ↦ raised encode_failed (request r ∷ start)
              ]))
              start
      by_answer (status code) = (request r ∷ [], refl)
      by_answer os_failure = (request r ∷ [], refl)
      by_answer http_failure = (request r ∷ [], refl)
      by_answer value_failure = (request r ∷ [], refl)

  pure-Extends {ℓ} : {A : Type ℓ} (a : A) → Extends (pure {E = Event} a)
  unfolding events
  pure-Extends a start = ([], refl)

  resolve_container-Extends :
      (project service : Text) → Extends (resolve_container site project service)
  unfolding resolve_container
  resolve_container-Extends project service = >>=-Extends _ _ (run_docker-Extends site _) λ output.
      >>=-Extends _ _ (lift-Extends _) λ id. >>=-Extends _ _ (run_docker-Extends site _) λ running.
        >>=-Extends _ _ (lift-Extends _) λ _.
          >>=-Extends _ _ (run_docker-Extends site _)
            λ health. >>=-Extends _ _ (lift-Extends _) λ _. pure-Extends id

  container_networks-Extends : (id : Text) → Extends (container_networks site id)
  unfolding container_networks
  container_networks-Extends id =
      >>=-Extends _ _ (run_docker-Extends site _) λ output. lift-Extends _

  connect_now-Extends :
      (runtime : GatewayRuntime) (alias id : Text) → Extends (connect_now site runtime alias id)
  unfolding connect_now
  connect_now-Extends runtime alias id = >>=-Extends _ _ (run_docker-Extends site _) λ _.
      >>=-Extends _ _ (run_docker-Extends site _) λ _.
        >>=-Extends _ _ (container_networks-Extends id) λ networks.
          >>=-Extends _ _ (lift-Extends _) λ address. pure-Extends (alias, address, true)

  connect_from-Extends :
      (runtime : GatewayRuntime) (alias id : Text) (place : Option Attachment)
      → Extends (connect_from site runtime alias id place)
  unfolding connect_from
  connect_from-Extends runtime alias id (some (attached aliases address)) =
      >>=-Extends _ _ (lift-Extends (alias_among alias aliases)) λ known.
        >>=-Extends _ _ (lift-Extends (address_of address))
          λ place. pure-Extends (known, place, false)
  connect_from-Extends runtime alias id (some other) = lift-Extends (err bad_networks)
  connect_from-Extends runtime alias id (some null) = connect_now-Extends runtime alias id
  connect_from-Extends runtime alias id none = connect_now-Extends runtime alias id

  connect_candidate-Extends :
      (runtime : GatewayRuntime) (slot id : Text) → Extends (connect_candidate site runtime slot id)
  unfolding connect_candidate
  connect_candidate-Extends runtime slot id =
      >>=-Extends _ _ (container_networks-Extends id) λ networks.
        connect_from-Extends runtime (preview_alias slot id) id
          (lookup runtime.edge_network networks)

  pub prepare-Extends : (q : Handoff) (routes : Dict Entry) → Extends (prepare site q routes)
  unfolding prepare
  prepare-Extends q routes = >>=-Extends _ _ (lift-Extends (authorize site q)) λ authority.
      >>=-Extends _ _ (resolve_container-Extends q.project q.service) λ id.
        >>=-Extends _ _ (lift-Extends (route_path q.slot routes)) λ name.
          >>=-Extends _ _ (lift-Extends (read_previous site.python (lookup name routes)))
            λ previous. >>=-Extends _ _ (lift-Extends (gateway site)) λ runtime.
              >>=-Extends _ _ (connect_candidate-Extends runtime q.slot id) λ place.
                >>=-Extends _ _
                  (lift-Extends (
                    preview_route site.python
                      (asdict (candidate_of site q authority.0 authority.1 id place.0))))
                  λ candidate. pure-Extends (record {
                    name = name;
                    previous = previous;
                    runtime = runtime;
                    address = place.1;
                    connected_now = place.2;
                    candidate = candidate;
                  })
