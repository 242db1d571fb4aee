-- ===== src/PreviewRegistry/LongSlot.antt =====
-- A slot name that leaves no room for the network alias.
use remote_worktree_runner.Effects.Laws.{
  lift_err, >>=-failed, lift_ok, >>=-after, >>=-done, done_injective,
}
use remote_worktree_runner.Prelude.{
  ℕ, zero, suc, ◌+◌, ◌≤◌, ◌<◌, ◌≡◌, refl, sym, ap, ◌∙◌, Bool, true, false, Option, none, some, List,
  [], ◌∷◌, ◌++◌, arith, length, take, Text, codes, text_eq, Result, ok, err, >>=-eq-ok, lookup,
}
use remote_worktree_runner.Errors.{Error}
use remote_worktree_runner.Common.{is_identifier, validate_identifier}
use remote_worktree_runner.Preview.{PreviewSlot, GatewayRuntime}
use remote_worktree_runner.Preview.Routes.{
  PreviewRoute, Python, preview_route, owner_fields, target_fields, identifier_of, asdict,
  is_container_id,
}
use remote_worktree_runner.Effects.{done, raised, lift}
use remote_worktree_runner.PreviewRegistry.Probe.{run_docker, Event}
use remote_worktree_runner.PreviewRegistry.Site.{
  World, Site, Attachment, null, attached, other, gateway, route_path,
}
use remote_worktree_runner.PreviewRegistry.Authority.{Handoff, authorize, read_previous}
use remote_worktree_runner.PreviewRegistry.Containers.{
  resolve_container, connect_candidate, connect_from, connect_now, container_networks,
  preview_alias, alias_among, address_of, attached_address,
}
use remote_worktree_runner.PreviewRegistry.Publish.{
  probed, candidate_of, prepare, after_prepare, publish,
}

length-append : (s t : Text) → length (s ++ t) ≡ length s + length t
length-append [] t = omega arith
length-append (c ∷ s) t = omega (arith, length-append s t)

length-take : (n : ℕ) (s : Text) → n ≤ length s → length (take n s) ≡ n
length-take zero s h = refl
length-take (suc n) [] h = absurd (omega arith)
length-take (suc n) (c ∷ s) h = omega (arith, length-take n s (omega arith))

is_identifier-length : (s : Text) → is_identifier s ≡ true → length s ≤ 63
unfolding is_identifier
is_identifier-length [] h = absurd (cc)
is_identifier-length (c ∷ s) h = ground arith

target_fields-made :
    (r : PreviewRoute) {t : Text × Text × ℕ × Text}
    → target_fields (asdict r) ≡ ok t
    → (is_identifier r.network_alias ≡ true) × (length r.container_id ≡ 64)
unfolding target_fields identifier_of validate_identifier is_container_id asdict lookup text_eq
target_fields-made r h = ground arith

made-fits :
    (python : Python) (r s : PreviewRoute)
    → preview_route python (asdict r) ≡ ok s
    → (is_identifier r.network_alias ≡ true) × (length r.container_id ≡ 64)
unfolding preview_route
made-fits python r s h =
    let (_, e1, h1) = >>=-eq-ok (owner_fields (asdict r)) _ h in
    let (_, e2, h2) = >>=-eq-ok (target_fields (asdict r)) _ h1 in target_fields-made r e2

-- With an alias that names the slot, a route can be made only for a slot of at most 42 characters.
alias-fits :
    (python : Python) (r s : PreviewRoute) (slot : Text)
    → r.network_alias ≡ preview_alias slot r.container_id
    → preview_route python (asdict r) ≡ ok s
    → length slot ≤ 42
alias-fits python r s slot e h =
    let (valid, long) = made-fits python r s h in
    omega (
      arith,
      ap length e,
      is_identifier-length r.network_alias valid,
      length-append slot (b'-' ∷ take 12 r.container_id),
      length-take 12 r.container_id (omega arith),
    )

module _ (site : Site) where
  connect_now-alias :
      (runtime : GatewayRuntime) (alias id : Text) (start now : List Event)
      (place : Text × Text × Bool)
      → connect_now site runtime alias id start ≡ done place now
      → place.0 ≡ alias
  unfolding connect_now
  connect_now-alias runtime alias id start now place h =
      let (_, t1, _, h1) =
        >>=-done
          (run_docker site.outside (codes "network" ∷ codes "inspect" ∷ runtime.edge_network ∷ []))
          _ start h in
      let (_, t2, _, h2) =
        >>=-done
          (run_docker site.outside (
            codes "network"
            ∷ codes "connect"
            ∷ codes "--alias"
            ∷ alias
            ∷ runtime.edge_network
            ∷ id
            ∷ []))
          _ t1 h1 in
      let (networks, t3, _, h3) = >>=-done (container_networks site id) _ t2 h2 in
      let (address, t4, _, h4) =
        >>=-done (lift (attached_address (lookup runtime.edge_network networks))) _ t3 h3 in
      ap (λ (x : Text × Text × Bool). x.0) (sym ((done_injective h4).0))

  connect_from-alias :
      (runtime : GatewayRuntime) (alias id : Text) (o : Option Attachment) (start now : List Event)
      (place : Text × Text × Bool)
      → connect_from site runtime alias id o start ≡ done place now
      → place.2 ≡ true
      → place.0 ≡ alias
  unfolding connect_from
  connect_from-alias runtime alias id (some (attached aliases address)) start now place h new =
      let (known, t1, _, h1) = >>=-done (lift (alias_among alias aliases)) _ start h in
      let (found, t2, _, h2) = >>=-done (lift (address_of address)) _ t1 h1 in
      let old : place.2 ≡ false =
        ap (λ (x : Text × Text × Bool). x.2) (sym ((done_injective h2).0)) in
      absurd (cc (old, new))
  connect_from-alias runtime alias id (some other) start now place h new = absurd (cc)
  connect_from-alias runtime alias id (some null) start now place h new =
      connect_now-alias runtime alias id start now place h
  connect_from-alias runtime alias id none start now place h new =
      connect_now-alias runtime alias id start now place h

  connect_candidate-alias :
      (runtime : GatewayRuntime) (slot id : Text) (start now : List Event)
      (place : Text × Text × Bool)
      → connect_candidate site runtime slot id start ≡ done place now
      → place.2 ≡ true
      → place.0 ≡ preview_alias slot id
  unfolding connect_candidate
  connect_candidate-alias runtime slot id start now place h new =
      let (networks, t1, _, h1) = >>=-done (container_networks site id) _ start h in
      connect_from-alias runtime (preview_alias slot id) id (lookup runtime.edge_network networks)
        t1 now place h1 new

-- The constructor raises for a candidate whose alias does not fit.
too_long :
    (python : Python) (r : PreviewRoute) (slot : Text)
    → r.network_alias ≡ preview_alias slot r.container_id
    → 42 < length slot
    → (result : Result Error PreviewRoute) → preview_route python (asdict r) ≡ result
    → (e : Error) × (result ≡ err e)
too_long python r slot e long (err x) h = (x, refl)
too_long python r slot e long (ok s) h =
    let short = alias-fits python r s slot e h in absurd (omega arith)

-- The handoff of a slot whose name has more than 42 characters, to a container that is not yet in
-- the gateway's network: once all the checks have passed and the container has been connected under
-- its alias, making the route raises, which stands before the `try`. So nothing is undone: the
-- events end with those of the connection, and the container stays connected.
pub publish-long_slot :
    (site : Site) (q : Handoff) (w : World) (configured : PreviewSlot) (port : ℕ) (id name : Text)
    (resolved connected : List Event) (previous : Option (Text × PreviewRoute))
    (runtime : GatewayRuntime) (alias address : Text)
    → 42 < length q.slot
    → authorize site q ≡ ok (configured, port)
    → resolve_container site q.project q.service w.events ≡ done id resolved
    → route_path q.slot w.routes ≡ ok name
    → read_previous site.python (lookup name w.routes) ≡ ok previous
    → gateway site ≡ ok runtime
    → connect_candidate site runtime q.slot id resolved ≡ done (alias, address, true) connected
    → (e : Error) × (publish site q w ≡ (err e, probed connected w))
unfolding publish prepare after_prepare
publish-long_slot site q w configured port id name resolved connected previous runtime alias address
      long h1 h2 h3 h4 h5 h6 =
    let r : PreviewRoute = candidate_of site q configured port id alias in
    let (e, fails) =
      too_long site.python r q.slot
        (connect_candidate-alias site runtime q.slot id resolved connected _ h6 refl) long _ refl in
    let raises : prepare site q w.routes w.events ≡ raised e connected =
      >>=-after (lift (authorize site q)) _ w.events _ _ (lift_ok (authorize site q) _ w.events h1)
      ∙ (>>=-after (resolve_container site q.project q.service) _ w.events _ _ h2
          ∙ (>>=-after (lift (route_path q.slot w.routes)) _ resolved _ _ (lift_ok _ _ resolved h3)
              ∙ (>>=-after (lift (read_previous site.python (lookup name w.routes))) _ resolved _ _
                    (lift_ok _ _ resolved h4)
                  ∙ (>>=-after (lift (gateway site)) _ resolved _ _ (lift_ok _ _ resolved h5)
                      ∙ (>>=-after (connect_candidate site runtime q.slot id) _ resolved _ _ h6
                          ∙ >>=-failed (lift (preview_route site.python (asdict r))) _ connected _ _
                              (lift_err _ e connected fails)))))) in
    (e, ap (λ t. after_prepare site t w) raises)
