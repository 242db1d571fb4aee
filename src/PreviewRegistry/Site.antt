-- ===== src/PreviewRegistry/Site.antt =====
-- trie_remote/preview_registry.py: the gateway's directory, and the routes that stand in it.
use remote_worktree_runner.Prelude.{
  Bool, true, false, not, ◌&&◌, Option, none, some, List, [], ◌∷◌, ◌++◌, if◌then◌else◌, drop, Text,
  codes, text_eq, text_ltb, starts_with, ends_with, Result, ok, err, ◌>>=◌, ◌>>◌, require, Dict,
  lookup, insert, remove,
}
use remote_worktree_runner.Errors.{Error, no_gateway, bad_route_path, bad_route, os_error}
use remote_worktree_runner.Common.{validate_identifier}
use remote_worktree_runner.JobEnvironment.{job_resource_name}
use remote_worktree_runner.JobStore.{JobFiles, Store}
use remote_worktree_runner.Preview.{PreviewSlot, GatewayRuntime}
use remote_worktree_runner.Preview.Slots.{SlotItem, load_slot_configuration, sorted_items}
use remote_worktree_runner.Preview.Gateway.{load_gateway_runtime}
use remote_worktree_runner.Preview.Routes.{PreviewRoute, Python, parse_route}
use remote_worktree_runner.PreviewRegistry.Probe.{Event, wrote, Outside}

-- What stands under a name of the directory `dynamic`.
pub data Entry : Type 0 where
  file : Text → Entry
  symlink directory : Entry

-- The directory `dynamic`, by file names, and what has happened.
pub record World : Type 0 where
  pub routes : Dict Entry
  pub events : List Event

-- A JSON value under `.NetworkSettings.Networks`: null, an object by the two members that are read,
-- or anything else. An alias that is no text is `none`; so is an address that is none.
pub data Attachment : Type 0 where
  null : Attachment
  attached : List (Option Text) → Option Text → Attachment
  other : Attachment

-- What the operations read and do not change; two fields say whether the directories are there. `slots` is `none` if the slot file is missing, and
-- `some none` if it cannot be used; `now` is what `datetime.now(timezone.utc).isoformat()` returns.
pub record Site : Type 0 where
  pub gateway_there : Bool
  pub dynamic_there : Bool
  pub slots : Option (Option (Dict SlotItem))
  pub runtime : Option Text
  pub store : Store
  pub now : Text
  pub python : Python
  pub outside : Outside
  pub read_networks : Text → Option (Dict Attachment)

-- PreviewRegistry._lock: the directories must be there.
abbrev pub lock : Site → Result Error (Unit {0})
lock site = require (site.gateway_there && site.dynamic_there) no_gateway

abbrev pub slot_items : Option (Option (Dict SlotItem)) → Option (Dict SlotItem)
slot_items none = none
slot_items (some content) = content

-- PreviewRegistry._slots
unfoldable pub configured_slots : Site → Result Error (Dict PreviewSlot)
configured_slots site = load_slot_configuration (slot_items site.slots)

-- PreviewRegistry._runtime
abbrev pub gateway : Site → Result Error GatewayRuntime
gateway site = load_gateway_runtime site.runtime

-- f"preview-{safe}.yaml"
unfoldable pub route_name : Text → Text
route_name slot = codes "preview-" ++ (slot ++ codes ".yaml")

abbrev pub is_symlink : Option Entry → Bool
is_symlink (some symlink) = true
is_symlink _ = false

-- PreviewRegistry._route_path
unfoldable pub route_path : Text → Dict Entry → Result Error Text
unfolding route_name
route_path slot routes = do
  safe ← validate_identifier slot
  require (not (is_symlink (lookup (route_name safe) routes))) bad_route_path
  ok (route_name safe)

-- path.glob("preview-*.yaml"), one name.
unfoldable pub is_route_name : Text → Bool
is_route_name name = starts_with name (codes "preview-") && ends_with (drop 8 name) (codes ".yaml")

abbrev pub content_of : Entry → Result Error Text
content_of (file content) = ok content
content_of _ = err bad_route_path

-- The slot file names the route's slot, with its host name and repository.
unfoldable pub matches_slot : Option PreviewSlot → PreviewRoute → Bool
matches_slot none route = false
matches_slot (some configured) route =
    text_eq route.hostname configured.hostname && text_eq route.repository configured.repository

-- One round of the loop of `_load_routes`.
unfoldable pub load_route :
    Python → Dict PreviewSlot → Dict Entry → Text → Entry → Result Error PreviewRoute
unfolding route_path matches_slot
load_route python slots routes name entry = do
  content ← content_of entry
  route ← parse_route python content
  path ← route_path route.slot routes
  require (text_eq name path) bad_route_path
  require (matches_slot (lookup route.slot slots) route) bad_route
  ok route

unfoldable pub load_each :
    Python → Dict PreviewSlot → Dict Entry → Dict Entry → Result Error (List PreviewRoute)
unfolding load_route is_route_name
load_each python slots routes [] = ok []
load_each python slots routes ((name, entry) ∷ more) = elim (is_route_name name) [
  | false ↦ load_each python slots routes more
  | true ↦
      (load_route python slots routes name entry >>= λ route.
      load_each python slots routes more >>= λ others. ok (route ∷ others))
]

-- sorted(routes, key=lambda route: route.slot)
unfoldable pub place_route : PreviewRoute → List PreviewRoute → List PreviewRoute
place_route r [] = r ∷ []
place_route r (s ∷ routes) =
    let later = place_route r routes in if text_ltb r.slot s.slot then r ∷ s ∷ routes else s ∷ later

unfoldable pub sort_routes : List PreviewRoute → List PreviewRoute
unfolding place_route
sort_routes [] = []
sort_routes (r ∷ routes) = place_route r (sort_routes routes)

-- PreviewRegistry._load_routes
unfoldable pub load_routes : Site → Dict Entry → Result Error (List PreviewRoute)
unfolding configured_slots load_each sort_routes sorted_items
load_routes site routes = do
  slots ← configured_slots site
  found ← load_each site.python slots routes (sorted_items routes)
  ok (sort_routes found)

-- PreviewRegistry.list
unfoldable pub list_routes : Site → Dict Entry → Result Error (List PreviewRoute)
unfolding load_routes
list_routes site routes = do lock site; load_routes site routes

-- The names that are added to the job's own project.
unfoldable pub add_projects : List Text → List Text → Result Error (List Text)
add_projects projects [] = ok projects
add_projects projects (p ∷ recorded) = do
  safe ← validate_identifier p
  add_projects (safe ∷ projects) recorded

abbrev pub recorded_projects : Option JobFiles → List Text
recorded_projects none = []
recorded_projects (some d) = elim d.compose_projects [ none ↦ [] | some projects ↦ projects ]

-- PreviewRegistry._allowed_projects
unfoldable pub allowed_projects : Text → Text → Store → Result Error (List Text)
unfolding add_projects
allowed_projects job_id repository store = do
  own ← job_resource_name repository job_id
  add_projects (own ∷ []) (recorded_projects (lookup job_id store))

-- A file in place of what is there, or `None` for none; a directory is in the way of both.
unfoldable pub write_entry :
    Option Entry → Text → Option Text → World → Result Error (Unit {0}) × World
write_entry (some directory) name content w = (err os_error, w)
write_entry _ name content w = (
  ok tt,
  record {
    routes = elim content [ none ↦ remove name w.routes | some t ↦ insert name (file t) w.routes ];
    events = wrote name content ∷ w.events;
  },
)

-- PreviewRegistry._write_route. The file is written whole beside its place and then moved there, so
-- a write that the file system refuses changes nothing.
unfoldable pub write_route : Outside → Text → Option Text → World → Result Error (Unit {0}) × World
unfolding write_entry
write_route outside name content w = elim (outside.write_fails w.events name content) [
  | true ↦ (err os_error, w)
  | false ↦ write_entry (lookup name w.routes) name content w
]
