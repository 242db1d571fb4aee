-- ===== src/PreviewRegistry/Prepared.antt =====
-- What has been checked when the `try` of `publish` begins.
use mathlib.Core.Path.{subst}
use remote_worktree_runner.Prelude.{
  ◌∙◌, sym, ℕ, ◌≡◌, ap, Bool, Option, List, arith, Text, text_eq, ok, >>=-eq-ok, Dict, lookup,
}
use remote_worktree_runner.Preview.{PreviewSlot, GatewayRuntime, validate_port}
use remote_worktree_runner.Common.{validate_identifier}
use remote_worktree_runner.Preview.Routes.{
  PreviewRoute, Python, preview_route, owner_fields, target_fields, timestamp_field, identifier_of,
  asdict,
}
use remote_worktree_runner.Preview.Routes.RoundTrip.{preview_route-asdict}
use remote_worktree_runner.Effects.{done, lift}
use remote_worktree_runner.PreviewRegistry.Probe.{Event}
use remote_worktree_runner.PreviewRegistry.Site.{Entry, Site, route_path, gateway}
use remote_worktree_runner.PreviewRegistry.Authority.{Handoff, authorize, read_previous}
use remote_worktree_runner.PreviewRegistry.Containers.{resolve_container, connect_candidate}
use remote_worktree_runner.PreviewRegistry.Publish.{Prepared, candidate_of, prepare}
use remote_worktree_runner.Effects.Laws.{>>=-done, lift-done, done_injective}

owner_fields_self :
    (r : PreviewRoute) {o : Text × Text × Text × Text × Text × Text}
    → owner_fields (asdict r) ≡ ok o
    → o ≡ (r.slot, r.hostname, r.repository, r.job_id, r.project, r.service)
unfolding owner_fields identifier_of validate_identifier asdict lookup text_eq
owner_fields_self r h = ground arith

target_fields_self :
    (r : PreviewRoute) {t : Text × Text × ℕ × Text}
    → target_fields (asdict r) ≡ ok t
    → t ≡ (r.container_id, r.network_alias, r.port, r.check_path)
unfolding target_fields identifier_of validate_identifier validate_port asdict lookup text_eq
target_fields_self r h = ground arith

timestamp_field_self :
    (python : Python) (r : PreviewRoute) {t : Text}
    → timestamp_field python (asdict r) ≡ ok t
    → t ≡ r.published_at
unfolding timestamp_field asdict lookup text_eq
timestamp_field_self python r h = ground arith

-- The constructor returns its arguments, or raises.
pub preview_route_self :
    (python : Python) (r s : PreviewRoute) → preview_route python (asdict r) ≡ ok s → s ≡ r
unfolding preview_route
preview_route_self python r s h =
    let (owner, e1, h1) = >>=-eq-ok (owner_fields (asdict r)) _ h in
    let (target, e2, h2) = >>=-eq-ok (target_fields (asdict r)) _ h1 in
    let (time, e3, h3) = >>=-eq-ok (timestamp_field python (asdict r)) _ h2 in
    ground
      (arith, owner_fields_self r e1, target_fields_self r e2, timestamp_field_self python r e3)

-- The checks that were passed, on the routes that stood then.
pub record IsPrepared (site : Site) (q : Handoff) (routes : Dict Entry) (p : Prepared)
    : Type 0 where
  pub configured : PreviewSlot
  pub port : ℕ
  pub alias : Text
  pub before : List Event
  pub after : List Event
  pub authorized : authorize site q ≡ ok (configured, port)
  pub resolved :
      resolve_container site q.project q.service before ≡ done p.candidate.container_id after
  pub named : route_path q.slot routes ≡ ok p.name
  pub read : read_previous site.python (lookup p.name routes) ≡ ok p.previous
  pub served_by : gateway site ≡ ok p.runtime
  pub candidate_is :
      p.candidate ≡ candidate_of site q configured port p.candidate.container_id alias
  pub made : preview_route site.python (asdict p.candidate) ≡ ok p.candidate

assemble :
    (site : Site) (q : Handoff) (routes : Dict Entry) (authority : PreviewSlot × ℕ)
    (id name alias address : Text) (previous : Option (Text × PreviewRoute))
    (runtime : GatewayRuntime) (connected : Bool) (candidate : PreviewRoute)
    (before after : List Event)
    → authorize site q ≡ ok authority
    → resolve_container site q.project q.service before ≡ done id after
    → route_path q.slot routes ≡ ok name
    → read_previous site.python (lookup name routes) ≡ ok previous
    → gateway site ≡ ok runtime
    → preview_route site.python (asdict (candidate_of site q authority.0 authority.1 id alias))
      ≡ ok candidate
    → IsPrepared site q routes (record {
      name = name;
      previous = previous;
      runtime = runtime;
      address = address;
      connected_now = connected;
      candidate = candidate;
    })
assemble site q routes authority id name alias address previous runtime connected candidate before
      after allowed found path held known made =
    let same : candidate ≡ candidate_of site q authority.0 authority.1 id alias =
      preview_route_self site.python _ candidate made in
    let own : candidate.container_id ≡ id = ap (λ (r : PreviewRoute). r.container_id) same in
    record {
      configured = authority.0;
      port = authority.1;
      alias = alias;
      before = before;
      after = after;
      authorized = allowed;
      resolved = rw own found;
      named = path;
      read = held;
      served_by = known;
      candidate_is = same ∙ ap (λ t. candidate_of site q authority.0 authority.1 t alias) (sym own);
      made = preview_route-asdict site.python _ candidate made;
    }

pub prepare-IsPrepared :
    (site : Site) (q : Handoff) (routes : Dict Entry) (start now : List Event) (p : Prepared)
    → prepare site q routes start ≡ done p now
    → IsPrepared site q routes p
unfolding prepare
prepare-IsPrepared site q routes start now p h =
    let (authority, t1, e1, h1) = >>=-done (lift (authorize site q)) _ start h in
    let (id, t2, e2, h2) = >>=-done (resolve_container site q.project q.service) _ t1 h1 in
    let (name, t3, e3, h3) = >>=-done (lift (route_path q.slot routes)) _ t2 h2 in
    let (previous, t4, e4, h4) =
      >>=-done (lift (read_previous site.python (lookup name routes))) _ t3 h3 in
    let (runtime, t5, e5, h5) = >>=-done (lift (gateway site)) _ t4 h4 in
    let (place, t6, e6, h6) = >>=-done (connect_candidate site runtime q.slot id) _ t5 h5 in
    let (candidate, t7, e7, h7) =
      >>=-done
        (lift (
          preview_route site.python
            (asdict (candidate_of site q authority.0 authority.1 id place.0))))
        _ t6 h6 in
    subst (IsPrepared site q routes) ((done_injective h7).0) (
      assemble site q routes authority id name place.0 place.1 previous runtime place.2 candidate t1
        t2 ((lift-done _ start e1).0) e2 ((lift-done _ t2 e3).0) ((lift-done _ t3 e4).0)
        ((lift-done _ t4 e5).0) ((lift-done _ t6 e7).0))
