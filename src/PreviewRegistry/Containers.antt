-- ===== src/PreviewRegistry/Containers.antt =====
-- trie_remote/preview_registry.py: the container behind a preview, and its place in the gateway's
-- network.
use Prim.Native.String.{String}
use remote_worktree_runner.Prelude.{
  Bool, true, false, Option, none, some, List, [], ◌∷◌, ◌++◌, if◌then◌else◌, any_of, take, Text,
  codes, text_eq, one_of, text_ltb, starts_with, Result, ok, err, require, Dict, lookup, strip,
}
use remote_worktree_runner.Errors.{Error, bad_container, bad_networks}
use remote_worktree_runner.Preview.{GatewayRuntime}
use remote_worktree_runner.Preview.Gateway.{split_lines}
use remote_worktree_runner.Preview.Routes.{PreviewRoute, is_container_id}
use remote_worktree_runner.Effects.{◌>>=◌, ◌>>◌, pure, lift}
use remote_worktree_runner.PreviewRegistry.Probe.{Probe, run_docker}
use remote_worktree_runner.PreviewRegistry.Site.{
  Entry, Site, Attachment, null, attached, other, load_routes,
}

abbrev pub is_blank : Text → Bool
is_blank [] = true
is_blank (c ∷ s) = false

-- [line.strip() for line in lines if line.strip()]
unfoldable pub stripped_lines : List Text → List Text
stripped_lines [] = []
stripped_lines (line ∷ lines) =
    let rest = stripped_lines lines in if is_blank (strip line) then rest else strip line ∷ rest

unfoldable pub only_container : List Text → Result Error Text
only_container (id ∷ []) = if is_container_id id then ok id else err bad_container
only_container _ = err bad_container

abbrev pub label_filters : Text → Text → List Text
label_filters project service =
    codes "--filter"
    ∷ (codes "label=com.docker.compose.project=" ++ project)
    ∷ codes "--filter"
    ∷ (codes "label=com.docker.compose.service=" ++ service)
    ∷ []

abbrev pub inspect : String → Text → List Text
inspect format container_id = codes "inspect" ∷ codes "--format" ∷ codes format ∷ container_id ∷ []

unfoldable pub networks_of : Option (Dict Attachment) → Result Error (Dict Attachment)
networks_of none = err bad_networks
networks_of (some networks) = ok networks

-- f"preview-{slot}-{container_id[:12]}"
abbrev pub preview_alias : Text → Text → Text
preview_alias slot id = codes "preview-" ++ (slot ++ b'-' ∷ take 12 id)

-- The aliases of other slots, that may be used again.
unfoldable pub reusable : List (Option Text) → List Text
reusable [] = []
reusable (none ∷ aliases) = reusable aliases
reusable (some a ∷ aliases) =
    let rest = reusable aliases in if starts_with a (codes "preview-") then a ∷ rest else rest

-- sorted(first, *rest)[0]
unfoldable pub least : Text → List Text → Text
least first [] = first
least first (a ∷ rest) = least (if text_ltb a first then a else first) rest

abbrev pub is_alias : Text → List (Option Text) → Bool
is_alias alias aliases =
    any_of (λ (o : Option Text). elim o [ none ↦ false | some a ↦ text_eq alias a ]) aliases

unfoldable pub first_reusable : List Text → Result Error Text
unfolding least
first_reusable [] = err bad_networks
first_reusable (a ∷ rest) = ok (least a rest)

unfoldable pub alias_among : Text → List (Option Text) → Result Error Text
unfolding first_reusable reusable
alias_among alias aliases =
    if is_alias alias aliases then ok alias else first_reusable (reusable aliases)

unfoldable pub address_of : Option Text → Result Error Text
address_of (some (c ∷ s)) = ok (c ∷ s)
address_of _ = err bad_networks

unfoldable pub attached_address : Option Attachment → Result Error Text
unfolding address_of
attached_address (some (attached aliases address)) = address_of address
attached_address _ = err bad_networks

module _ (site : Site) where
  -- PreviewRegistry._resolve_container
  unfoldable pub resolve_container : Text → Text → Probe Text
  unfolding run_docker split_lines stripped_lines only_container
  resolve_container project service = do
    output ← run_docker site.outside (
        codes "ps"
        ∷ codes "--all"
        ∷ codes "--no-trunc"
        ∷ codes "--quiet"
        ∷ label_filters project service)
    id ← lift (only_container (stripped_lines (split_lines output)))
    running ← run_docker site.outside (inspect "{{.State.Running}}" id)
    lift (require (text_eq (strip running) (codes "true")) bad_container)
    health ←
        run_docker site.outside
          (inspect "{{if .State.Health}}{{.State.Health.Status}}{{else}}none{{end}}" id)
    lift (require (one_of (strip health) (codes "none" ∷ codes "healthy" ∷ [])) bad_container)
    pure id

  -- PreviewRegistry._container_networks
  unfoldable pub container_networks : Text → Probe (Dict Attachment)
  unfolding run_docker networks_of
  container_networks id = do
    output ← run_docker site.outside (inspect "{{json .NetworkSettings.Networks}}" id)
    lift (networks_of (site.read_networks output))

  unfoldable pub disconnect : GatewayRuntime → Text → Bool → Probe (Unit {0})
  unfolding run_docker
  disconnect runtime id true = pure tt
  disconnect runtime id false = do
    run_docker site.outside (codes "network" ∷ codes "disconnect" ∷ runtime.edge_network ∷ id ∷ [])
    pure tt

  -- PreviewRegistry._disconnect_if_unused, on the routes that stand.
  unfoldable pub disconnect_if_unused : GatewayRuntime → Text → Dict Entry → Probe (Unit {0})
  unfolding disconnect
  disconnect_if_unused runtime id routes = do
    active ← lift (load_routes site routes)
    disconnect runtime id (any_of (λ (r : PreviewRoute). text_eq r.container_id id) active)

  -- The network is there, and the container joins it under the alias.
  unfoldable pub connect_now : GatewayRuntime → Text → Text → Probe (Text × Text × Bool)
  unfolding run_docker container_networks attached_address
  connect_now runtime alias id = do
    run_docker site.outside (codes "network" ∷ codes "inspect" ∷ runtime.edge_network ∷ [])
    run_docker site.outside (
        codes "network"
        ∷ codes "connect"
        ∷ codes "--alias"
        ∷ alias
        ∷ runtime.edge_network
        ∷ id
        ∷ [])
    networks ← container_networks id
    address ← lift (attached_address (lookup runtime.edge_network networks))
    pure (alias, address, true)

  -- On the container's present attachment; a value `null` counts as none.
  unfoldable pub connect_from :
      GatewayRuntime → Text → Text → Option Attachment → Probe (Text × Text × Bool)
  unfolding connect_now alias_among address_of
  connect_from runtime alias id (some (attached aliases address)) = do
    known ← lift (alias_among alias aliases)
    place ← lift (address_of address)
    pure (known, place, false)
  connect_from runtime alias id (some other) = lift (err bad_networks)
  connect_from runtime alias id (some null) = connect_now runtime alias id
  connect_from runtime alias id none = connect_now runtime alias id

  -- PreviewRegistry._connect_candidate: the alias, the address and whether it connected now.
  unfoldable pub connect_candidate : GatewayRuntime → Text → Text → Probe (Text × Text × Bool)
  unfolding container_networks connect_from
  connect_candidate runtime slot id = do
    networks ← container_networks id
    connect_from runtime (preview_alias slot id) id (lookup runtime.edge_network networks)
