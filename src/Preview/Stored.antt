-- ===== src/Preview/Stored.antt =====
-- The configuration file of the slots gives back what was written.
use remote_worktree_runner.Prelude.{
  ◌≡◌, refl, sym, inl, inr, some, List, [], ◌∷◌, arith, if◌then◌else◌, Bool-cases, All, text_eq,
  one_of, text_ltb, ok, >>=-eq-ok, Dict, lookup,
}
use remote_worktree_runner.Preview.{PreviewSlot, preview_slot}
use remote_worktree_runner.Preview.Slots.{
  SlotItem, mapping, validated_slots, read_slots, load_slot_configuration, write_slot_configuration,
  sorted_items, insert_sorted, map_values, slot_mapping, same_keys,
}
use remote_worktree_runner.Preview.Distinct.{Apart, AllApart, by_name, validated_slots_iff}

-- A slot that the constructor of the class accepts.
abbrev pub IsSlot : PreviewSlot → Type 0
IsSlot s = preview_slot s.slot s.hostname s.repository ≡ ok s

-- A slot among slots sorted by name, and a list sorted so.
place : PreviewSlot → List PreviewSlot → List PreviewSlot
place s [] = s ∷ []
place s (t ∷ slots) =
    let later = place s slots in if text_ltb s.slot t.slot then s ∷ t ∷ slots else t ∷ later

pub sort : List PreviewSlot → List PreviewSlot
unfolding place
sort [] = []
sort (s ∷ slots) = place s (sort slots)

insert_sorted-by_name :
    (s : PreviewSlot) (slots : List PreviewSlot)
    → insert_sorted s.slot s (by_name slots) ≡ by_name (place s slots)
unfolding insert_sorted by_name place
insert_sorted-by_name s [] = refl
insert_sorted-by_name s (t ∷ slots) = ground (arith, insert_sorted-by_name s slots)

sorted_items-by_name :
    (slots : List PreviewSlot) → sorted_items (by_name slots) ≡ by_name (sort slots)
unfolding sorted_items by_name sort
sorted_items-by_name [] = refl
sorted_items-by_name (s ∷ slots) =
    rw (sorted_items-by_name slots) (insert_sorted-by_name s (sort slots))

module _ (P : PreviewSlot → Type 0) where
  place-All :
      (s : PreviewSlot) (slots : List PreviewSlot) → P s → All P slots → All P (place s slots)
  unfolding place
  place-All s [] p h = (p, tt)
  place-All s (t ∷ slots) p (q, h) = elim (Bool-cases (text_ltb s.slot t.slot)) [
    | inl e ↦ rw e (p, (q, h))
    | inr e ↦ rw e (q, place-All s slots p h)
  ]

  sort-All : (slots : List PreviewSlot) → All P slots → All P (sort slots)
  unfolding sort
  sort-All [] h = tt
  sort-All (s ∷ slots) (p, h) = place-All s (sort slots) p (sort-All slots h)

place-AllApart :
    (s : PreviewSlot) (slots : List PreviewSlot)
    → All (Apart s) slots
    → AllApart slots
    → AllApart (place s slots)
unfolding place
place-AllApart s [] h apart = (tt, tt)
place-AllApart s (t ∷ slots) (p, h) (own, apart) = elim (Bool-cases (text_ltb s.slot t.slot)) [
  | inl e ↦ rw e ((p, h), (own, apart))
  | inr e ↦ rw e (
    place-All (Apart t) s slots (λ q. p.0 (sym q), λ q. p.1 (sym q)) own,
    place-AllApart s slots h apart,
  )
]

sort-AllApart : (slots : List PreviewSlot) → AllApart slots → AllApart (sort slots)
unfolding sort
sort-AllApart [] h = tt
sort-AllApart (s ∷ slots) (h, apart) =
    place-AllApart s (sort slots) (sort-All (Apart s) slots h) (sort-AllApart slots apart)

read_slots-by_name :
    (slots : List PreviewSlot)
    → All IsSlot slots
    → read_slots (map_values (λ s. mapping (slot_mapping s)) (by_name slots)) ≡ ok slots
unfolding read_slots map_values by_name same_keys one_of text_eq lookup
read_slots-by_name [] h = refl
read_slots-by_name (s ∷ slots) (p, h) = rw (p, read_slots-by_name slots h)

-- Slots that could be made are written exactly if no two of them share a name or a host name, and
-- loading the file that is written then returns exactly them, sorted by name.
pub load-write_slot_configuration :
    (slots : List PreviewSlot)
    → All IsSlot slots
    → (AllApart slots
        → (raw : Dict SlotItem) × (write_slot_configuration slots ≡ ok raw)
          × (load_slot_configuration (some raw) ≡ ok (by_name (sort slots))))
      × ((raw : Dict SlotItem) → write_slot_configuration slots ≡ ok raw → AllApart slots)
unfolding write_slot_configuration load_slot_configuration
load-write_slot_configuration slots proper = (
  λ apart.
      let checked = (validated_slots_iff slots (by_name slots)).1 (apart, refl) in
      let ordered : validated_slots (sort slots) ≡ ok (by_name (sort slots)) =
        (validated_slots_iff (sort slots) _).1 (sort-AllApart slots apart, refl) in
      (
        map_values (λ s. mapping (slot_mapping s)) (sorted_items (by_name slots)),
        rw checked refl,
        rw
            (
              sorted_items-by_name slots,
              read_slots-by_name (sort slots) (sort-All IsSlot slots proper),
            )
            ordered,
      ),
  λ raw h.
      let (d, checked, written) = >>=-eq-ok (validated_slots slots) _ h in
      ((validated_slots_iff slots d).0 checked).0,
)
