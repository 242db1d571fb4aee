-- ===== src/Preview/Tests.antt =====
-- Two slots in a file, and a route that is written and read back.
use remote_worktree_runner.Preview.{
  validate_check_path, validate_port, validate_hostname, preview_slot, PreviewSlot,
}
use remote_worktree_runner.Common.{is_identifier, validate_identifier}
use remote_worktree_runner.Prelude.{
  ◌≡◌, refl, ◌↔◌, true, some, List, [], ◌∷◌, codes, text_eq, one_of, starts_with, ends_with,
  partition, split, ok, Dict, lookup, insert,
}
use remote_worktree_runner.Preview.Slots.{
  SlotItem, validated_slots, load_slot_configuration, write_slot_configuration, sorted_items,
}
use remote_worktree_runner.Preview.Distinct.{AllApart, by_name, validated_slots_iff}
use remote_worktree_runner.Preview.Stored.{sort, load-write_slot_configuration}
use remote_worktree_runner.Preview.Routes.{
  PreviewRoute, Python, preview_route, asdict, render_route, parse_route,
}
use remote_worktree_runner.Preview.Routes.Authentic.{
  parse_route-render_route, parse_route-authentic,
}

abbrev shop : PreviewSlot
shop = record {
  slot = codes "shop";
  hostname = codes "shop.example.org";
  repository = codes "center";
}

abbrev wiki : PreviewSlot
wiki = record {
  slot = codes "docs";
  hostname = codes "docs.example.org";
  repository = codes "center";
}

abbrev slots : List PreviewSlot
slots = shop ∷ wiki ∷ []

validated_slots_iff_example :
    (validated_slots slots ≡ ok (by_name slots))
    ↔ (AllApart slots × (by_name slots ≡ by_name slots))
validated_slots_iff_example = validated_slots_iff slots (by_name slots)

slots-AllApart : AllApart slots
unfolding by_name validated_slots lookup one_of insert text_eq
slots-AllApart = ((validated_slots_iff slots (by_name slots)).0 refl).0

load-write_slot_configuration_example :
    (raw : Dict SlotItem) × (write_slot_configuration slots ≡ ok raw)
    × (load_slot_configuration (some raw) ≡ ok (by_name (sort slots)))
unfolding preview_slot validate_identifier is_identifier ends_with split
load-write_slot_configuration_example =
    (load-write_slot_configuration slots (refl, (refl, tt))).0 slots-AllApart

abbrev route : PreviewRoute
route = record {
  slot = codes "shop";
  hostname = codes "shop.example.org";
  repository = codes "center";
  job_id = codes "job-1";
  project = codes "center-job-1";
  service = codes "web";
  container_id = codes "0123456789abcdef0123456789abcdef0123456789abcdef0123456789abcdef";
  network_alias = codes "trie-shop-0123456789ab";
  port = 8080;
  check_path = codes "/health";
  published_at = codes "2026-01-01T00:00:00+00:00";
}

abbrev python : Python
python = record { loads = λ _. some (sorted_items (asdict route)); fromisoformat = λ _. some true }

route_made : preview_route python (asdict route) ≡ ok route
unfolding preview_route lookup asdict text_eq validate_identifier is_identifier validate_hostname
    ends_with split validate_port validate_check_path starts_with partition
route_made = refl

parse_route-render_route_example : parse_route python (render_route route) ≡ ok route
parse_route-render_route_example =
    parse_route-render_route python (asdict route) route route_made refl

parse_route-authentic_example :
    (render_route route ≡ render_route route) × (preview_route python (asdict route) ≡ ok route)
parse_route-authentic_example =
    parse_route-authentic python (render_route route) route
      (parse_route-render_route python (asdict route) route route_made refl)
