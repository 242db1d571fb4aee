-- ===== src/PreviewRegistry/Tests.antt =====
-- A server with two slots, one of them with a long name, and one job whose container is not yet in
-- the gateway's network.
use remote_worktree_runner.Preview.{
  validate_check_path, validate_port, split_netloc, urlsplit, without_blanks, PreviewSlot,
  GatewayRuntime, preview_slot, validate_hostname, is_host_label, is_label_rest,
}
use remote_worktree_runner.Preview.Gateway.{load_gateway_runtime}
use remote_worktree_runner.PreviewRegistry.Authority.{read_previous, known_slot, Handoff, authorize}
use remote_worktree_runner.PreviewRegistry.Site.{
  file, World, Attachment, attached, Site, route_name, list_routes, configured_slots, load_routes,
  load_each, load_route, is_route_name, route_path, matches_slot, sort_routes, place_route,
  add_projects, allowed_projects,
}
use remote_worktree_runner.Preview.Routes.{
  is_container_id, preview_route, parse_route, PreviewRoute, asdict, render_route,
}
use remote_worktree_runner.Prelude.{
  false, ◌≡◌, refl, ◌≢◌, true, ◌&&◌, ◌||◌, Option, none, some, List, [], ◌∷◌, ◌++◌, arith, leb,
  ◌==◌, if◌then◌else◌, length, All, Text, codes, text_eq, one_of, text_ltb, starts_with, ends_with,
  partition, split, ok, err, Dict, lookup, insert, pos, strip_left, strip_right, parse_int,
}
use remote_worktree_runner.JobStore.Spec.{
  from_dict, build, check_roles, check_session, is_command, is_subset, post_init, to_dict, JobSpec,
}
use remote_worktree_runner.JobEnvironment.{job_resource_name}
use remote_worktree_runner.JobStore.{load, job_directory, empty_directory}
use remote_worktree_runner.Errors.{Error}
use remote_worktree_runner.Common.{validate_identifier, is_identifier, is_alnum, is_identifier_char}
use remote_worktree_runner.Effects.{done}
use remote_worktree_runner.Preview.Slots.{
  mapping, slot_mapping, sorted_items, load_slot_configuration, read_slots, same_keys,
  validated_slots, validated_from, insert_sorted,
}
use remote_worktree_runner.Preview.Routes.Authentic.{parse_route-render_route}
use remote_worktree_runner.PreviewRegistry.Probe.{Event, docker, Request, status, gateway_status}
use remote_worktree_runner.PreviewRegistry.Containers.{
  preview_alias, label_filters, inspect, resolve_container, connect_candidate,
}
use remote_worktree_runner.PreviewRegistry.Publish.{publish, probed}
use remote_worktree_runner.PreviewRegistry.Unpublish.{
  unpublish, assert_cleanup_allowed, refuse_owned, owned_slots,
}
use remote_worktree_runner.PreviewRegistry.Polling.{Polled, gateway_status-Polled}
use remote_worktree_runner.PreviewRegistry.Transaction.{Ends}
use remote_worktree_runner.PreviewRegistry.Published.{publish-Ends}
use remote_worktree_runner.PreviewRegistry.Withdrawn.{Withdrawal, unpublish-Withdrawal}
use remote_worktree_runner.PreviewRegistry.Listed.{Configured, OneHost, ShownWith}
use remote_worktree_runner.PreviewRegistry.Cleared.{
  list_routes-OneHost, assert_cleanup_allowed-unowned,
}
use remote_worktree_runner.PreviewRegistry.LongSlot.{publish-long_slot}

abbrev job : Text
job = codes "job-1"

abbrev shop : PreviewSlot
shop = record {
  slot = codes "shop";
  hostname = codes "shop.example.org";
  repository = codes "center";
}

-- A name of 43 characters.
abbrev long : PreviewSlot
long = record {
  slot = codes "a123456789b123456789c123456789d123456789e12";
  hostname = codes "long.example.org";
  repository = codes "center";
}

abbrev spec : JobSpec
spec = record {
  job_id = job;
  repository = codes "center";
  workspace = codes "/w/center";
  workspaces = (codes "primary", codes "/w/center") ∷ [];
  includes = [];
  weight = codes "heavy";
  argv = codes "make" ∷ [];
  created_at = codes "2026-01-01T00:00:00+00:00";
  commits = [];
  overlays = [];
  workload = codes "generic";
  session = none;
}

abbrev id : Text
id = codes "0123456789abcdef0123456789abcdef0123456789abcdef0123456789abcdef"

-- What Docker prints at each moment: the container, that it runs without a health check, no
-- networks, and, once it was connected, the gateway's network.
abbrev answer : List Event → List Text → Option Text
answer happened arguments =
    if length happened == 0
    then some id
    else if length happened == 1
    then some (codes "true")
    else if length happened == 2
    then some (codes "none")
    else if length happened == 6
    then some (codes "attached")
    else some (codes "{}")

abbrev networks : Text → Option (Dict Attachment)
networks output =
    if text_eq output (codes "attached")
    then some ((codes "edge", attached [] (some (codes "10.0.0.9"))) ∷ [])
    else some []

abbrev route : PreviewRoute
route = record {
  slot = codes "shop";
  hostname = codes "shop.example.org";
  repository = codes "center";
  job_id = codes "job-2";
  project = codes "trie-center-job-2";
  service = codes "web";
  container_id = id;
  network_alias = codes "preview-shop-0123456789ab";
  port = 8080;
  check_path = codes "/health";
  published_at = codes "2026-01-01T00:00:00+00:00";
}

abbrev site : Site
site = record {
  gateway_there = true;
  dynamic_there = true;
  slots = some (
      some
        ((shop.slot, mapping (slot_mapping shop)) ∷ (long.slot, mapping (slot_mapping long)) ∷ []));
  runtime = some (
      codes "GATEWAY_BIND_HOST=127.0.0.1"
      ++ 10 ∷ (codes "GATEWAY_BIND_PORT=8080" ++ 10 ∷ codes "GATEWAY_EDGE_NETWORK=edge"));
  store = (job, record empty_directory { metadata = some spec }) ∷ [];
  now = codes "2026-01-01T12:00:00+00:00";
  python = record {
    loads = λ _. some (sorted_items (asdict route));
    fromisoformat = λ _. some true;
  };
  outside = record {
    run_docker = answer;
    http_status = λ happened r. status 200;
    write_fails = λ happened name content. false;
  };
  read_networks = networks;
}

abbrev empty_world : World
empty_world = record { routes = []; events = [] }

abbrev handoff : Text → Handoff
handoff slot = record {
  job_id = job;
  slot = slot;
  project = codes "trie-center-job-1";
  service = codes "web";
  port = pos 8080;
  check_path = codes "/health";
}

publish-Ends_example :
    Ends site (route_name shop.slot) empty_world (publish site (handoff shop.slot) empty_world)
publish-Ends_example = publish-Ends site (handoff shop.slot) empty_world

abbrev published : World
published = record { routes = (route_name shop.slot, file (render_route route)) ∷ []; events = [] }

unpublish-Withdrawal_example :
    Withdrawal site
      (codes "job-2")
      (route_name shop.slot)
      published
      (unpublish site (codes "job-2") shop.slot published)
unpublish-Withdrawal_example = unpublish-Withdrawal site (codes "job-2") shop.slot published

abbrev asked : Request
asked = record {
  address = codes "127.0.0.1";
  port = 8080;
  path = codes "/health";
  host = shop.hostname;
}

gateway_status-Polled_example :
    Polled
      (λ code. (leb 200 code && leb code 399) || leb 500 code)
      20
      []
      (gateway_status site.outside asked [])
gateway_status-Polled_example = gateway_status-Polled site.outside asked []

made : preview_route site.python (asdict route) ≡ ok route
unfolding preview_route lookup asdict text_eq validate_identifier is_identifier validate_hostname
    ends_with split validate_port validate_check_path starts_with partition
made = refl

read : parse_route site.python (render_route route) ≡ ok route
read = parse_route-render_route site.python (asdict route) route made refl

listed : list_routes site published.routes ≡ ok (route ∷ [])
unfolding list_routes load_routes configured_slots load_slot_configuration read_slots same_keys
    validated_slots validated_from preview_slot one_of text_eq validate_identifier is_identifier
    is_alnum is_identifier_char validate_hostname is_host_label is_label_rest lookup split insert
    starts_with ends_with load_each load_route is_route_name route_path route_name matches_slot
    sort_routes place_route sorted_items insert_sorted text_ltb
listed = rw read

list_routes-OneHost_example :
    (slots : Dict PreviewSlot) × (configured_slots site ≡ ok slots)
    × All (Configured slots) (route ∷ [])
    × All (OneHost (route ∷ [])) (route ∷ [])
list_routes-OneHost_example = list_routes-OneHost site published.routes (route ∷ []) listed

cleared : assert_cleanup_allowed site job published.routes ≡ ok tt
unfolding assert_cleanup_allowed refuse_owned owned_slots load_routes configured_slots
    load_slot_configuration read_slots same_keys validated_slots validated_from preview_slot one_of
    text_eq validate_identifier is_identifier is_alnum is_identifier_char validate_hostname
    is_host_label is_label_rest lookup split insert starts_with ends_with load_each load_route
    is_route_name route_path route_name matches_slot sort_routes place_route sorted_items
    insert_sorted text_ltb
cleared = rw read

assert_cleanup_allowed-unowned_example :
    All (ShownWith site.python (λ r. r.job_id ≢ job)) published.routes
assert_cleanup_allowed-unowned_example =
    assert_cleanup_allowed-unowned site job published.routes refl refl cleared

abbrev resolved : List Event
resolved =
    docker (inspect "{{if .State.Health}}{{.State.Health.Status}}{{else}}none{{end}}" id)
    ∷ docker (inspect "{{.State.Running}}" id)
    ∷ docker (
        codes "ps"
        ∷ codes "--all"
        ∷ codes "--no-trunc"
        ∷ codes "--quiet"
        ∷ label_filters (codes "trie-center-job-1") (codes "web"))
    ∷ []

abbrev connected : List Event
connected =
    docker (inspect "{{json .NetworkSettings.Networks}}" id)
    ∷ docker (
        codes "network"
        ∷ codes "connect"
        ∷ codes "--alias"
        ∷ preview_alias long.slot id
        ∷ codes "edge"
        ∷ id
        ∷ [])
    ∷ docker (codes "network" ∷ codes "inspect" ∷ codes "edge" ∷ [])
    ∷ docker (inspect "{{json .NetworkSettings.Networks}}" id)
    ∷ resolved

abbrev runtime : GatewayRuntime
runtime = record { bind_host = codes "127.0.0.1"; bind_port = 8080; edge_network = codes "edge" }

authorized : authorize site (handoff long.slot) ≡ ok (long, 8080)
unfolding authorize validate_identifier is_identifier validate_port validate_check_path starts_with
    partition configured_slots load_slot_configuration one_of text_eq lookup ends_with split insert
    load from_dict is_alnum is_identifier_char job_resource_name build check_roles check_session
    is_command is_subset post_init to_dict job_directory read_slots same_keys validated_from
    validated_slots is_host_label is_label_rest preview_slot split_netloc urlsplit validate_hostname
    without_blanks known_slot add_projects allowed_projects
authorized = refl

found : resolve_container site (codes "trie-center-job-1") (codes "web") [] ≡ done id resolved
unfolding resolve_container strip_right strip_left is_container_id text_eq one_of
found = refl

joined :
    connect_candidate site runtime long.slot id resolved
    ≡ done (preview_alias long.slot id, codes "10.0.0.9", true) connected
unfolding connect_candidate text_eq lookup
joined = refl

publish-long_slot_example :
    (e : Error) × (publish site (handoff long.slot) empty_world
      ≡ (err e, probed connected empty_world))
unfolding route_path validate_identifier is_identifier lookup read_previous load_gateway_runtime
    partition one_of text_eq insert parse_int strip_right strip_left
publish-long_slot_example =
    publish-long_slot site (handoff long.slot) empty_world long 8080 id (route_name long.slot)
      resolved connected none runtime (preview_alias long.slot id) (codes "10.0.0.9") (omega arith)
      authorized found refl refl refl joined
