-- ===== src/Scheduler/Units.antt =====
-- trie_remote/scheduler.py: `unit_is_inactive`.
use remote_worktree_runner.Prelude.{
  Bool, false, ◌||◌, Option, none, some, List, [], ◌∷◌, Text, codes, one_of, partition, Dict,
  lookup, insert,
}

-- key, separator, value = line.partition("="), and the assignment if there is a separator
unfoldable pub add_property : Text × Option Text → Dict Text → Dict Text
add_property (key, none) properties = properties
add_property (key, some value) properties = insert key value properties

unfoldable pub read_properties : List Text → Dict Text → Dict Text
read_properties [] properties = properties
read_properties (line ∷ lines) properties =
    read_properties lines (add_property (partition b'=' line) properties)

-- properties.get(key) in {…}
abbrev pub is_in : Option Text → List Text → Bool
is_in none names = false
is_in (some value) names = one_of value names

-- The lines that `systemctl --user show` prints for the unit; none if it cannot be run in time.
unfoldable pub unit_is_inactive : Option (List Text) → Bool
unit_is_inactive none = false
unit_is_inactive (some lines) =
    let properties = read_properties lines [] in
    is_in (lookup (codes "LoadState") properties) (codes "not-found" ∷ [])
    || is_in (lookup (codes "ActiveState") properties) (codes "inactive" ∷ codes "failed" ∷ [])
