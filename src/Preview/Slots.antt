-- ===== src/Preview/Slots.antt =====
-- trie_remote/preview.py: the slots that the server offers, and their configuration file.
use remote_worktree_runner.Prelude.{
  Bool, true, false, ◌&&◌, Option, none, some, List, [], ◌∷◌, if◌then◌else◌, all_of, Text, codes,
  one_of, text_ltb, has_char, partition, Result, ok, err, ◌>>=◌, Dict, lookup, insert, keys,
}
use remote_worktree_runner.Errors.{
  Error, bad_slot_spec, duplicate_slot, duplicate_hostname, bad_slot_file,
}
use remote_worktree_runner.Preview.{PreviewSlot, preview_slot}

-- Both separators were found, and the last part has no comma.
slot_parts : Text → Option Text → Text → Option Text → Result Error PreviewSlot
unfolding preview_slot
slot_parts slot none hostname repository = err bad_slot_spec
slot_parts slot (some target) hostname none = err bad_slot_spec
slot_parts slot (some target) hostname (some repository) =
    if has_char b',' repository then err bad_slot_spec else preview_slot slot hostname repository

abbrev pub target_of : Option Text → Text
target_of none = []
target_of (some target) = target

unfoldable pub parse_slot_spec : Text → Result Error PreviewSlot
unfolding slot_parts
parse_slot_spec value =
    let outer = partition b'=' value in
    let inner = partition b',' (target_of outer.1) in slot_parts outer.0 outer.1 inner.0 inner.1

abbrev pub is_known {ℓ} : {A : Type ℓ} → Option A → Bool
is_known none = false
is_known (some a) = true

-- The loop of `_validated_slots`, with the dictionary and the host names so far.
unfoldable pub validated_from :
    List PreviewSlot → Dict PreviewSlot → List Text → Result Error (Dict PreviewSlot)
validated_from [] result hostnames = ok result
validated_from (s ∷ slots) result hostnames =
    let rest = validated_from slots (insert s.slot s result) (s.hostname ∷ hostnames) in
    if is_known (lookup s.slot result)
    then err duplicate_slot
    else if one_of s.hostname hostnames
    then err duplicate_hostname
    else rest

unfoldable pub validated_slots : List PreviewSlot → Result Error (Dict PreviewSlot)
unfolding validated_from
validated_slots slots = validated_from slots [] []

-- A value of the parsed file: an object of texts, by its members, or anything else. `str` leaves a
-- text as it is; members that are no texts, which it would print, are left out.
pub data SlotItem : Type 0 where
  mapping : Dict Text → SlotItem
  other : SlotItem

-- item["hostname"]
abbrev pub member : Option Text → Text
member none = []
member (some t) = t

abbrev pub slot_fields : List Text
slot_fields = codes "hostname" ∷ codes "repository" ∷ []

-- set(item) == {"hostname", "repository"}
unfoldable pub same_keys : List Text → List Text → Bool
same_keys ks expected = all_of (λ k. one_of k expected) ks && all_of (λ k. one_of k ks) expected

slot_of : Text → SlotItem → Result Error PreviewSlot
unfolding same_keys preview_slot
slot_of name other = err bad_slot_file
slot_of name (mapping item) =
    if same_keys (keys item) slot_fields
    then preview_slot name (member (lookup (codes "hostname") item))
        (member (lookup (codes "repository") item))
    else err bad_slot_file

unfoldable pub read_slots : Dict SlotItem → Result Error (List PreviewSlot)
unfolding slot_of
read_slots [] = ok []
read_slots ((name, item) ∷ raw) = do
  slot ← slot_of name item
  slots ← read_slots raw
  ok (slot ∷ slots)

-- The object of the file; `none` stands for a file that cannot be read, is no JSON or no object.
unfoldable pub load_slot_configuration : Option (Dict SlotItem) → Result Error (Dict PreviewSlot)
unfolding read_slots validated_slots
load_slot_configuration none = err bad_slot_file
load_slot_configuration (some raw) = read_slots raw >>= validated_slots

abbrev pub slot_mapping : PreviewSlot → Dict Text
slot_mapping s = (codes "hostname", s.hostname) ∷ (codes "repository", s.repository) ∷ []

-- An entry among sorted ones, by its name.
unfoldable pub insert_sorted {ℓ} : {V : Type ℓ} → Text → V → Dict V → Dict V
insert_sorted k v [] = (k, v) ∷ []
insert_sorted k v ((j, w) ∷ d) =
    let later = insert_sorted k v d in if text_ltb k j then (k, v) ∷ (j, w) ∷ d else (j, w) ∷ later

unfoldable pub sorted_items {ℓ} : {V : Type ℓ} → Dict V → Dict V
unfolding insert_sorted
sorted_items [] = []
sorted_items ((k, v) ∷ d) = insert_sorted k v (sorted_items d)

unfoldable pub map_values {ℓ κ} : {V : Type ℓ} {W : Type κ} → (V → W) → Dict V → Dict W
map_values f [] = []
map_values f ((k, v) ∷ d) = (k, f v) ∷ map_values f d

-- The object that is written; the file keeps its old content if the check fails.
unfoldable pub write_slot_configuration : List PreviewSlot → Result Error (Dict SlotItem)
unfolding validated_slots map_values sorted_items
write_slot_configuration slots = do
  validated ← validated_slots slots
  ok (map_values (λ s. mapping (slot_mapping s)) (sorted_items validated))
