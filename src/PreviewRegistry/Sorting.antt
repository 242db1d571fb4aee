-- ===== src/PreviewRegistry/Sorting.antt =====
-- What holds of all routes, or of all entries, holds of them sorted, and back.
use remote_worktree_runner.Prelude.{inl, inr, List, [], ◌∷◌, Bool-cases, All, Text, text_ltb, Dict}
use remote_worktree_runner.Preview.Slots.{sorted_items, insert_sorted}
use remote_worktree_runner.Preview.Routes.{PreviewRoute}
use remote_worktree_runner.PreviewRegistry.Site.{Entry, place_route, sort_routes}

module _ (P : PreviewRoute → Type 0) where
  pub place_route-All :
      (r : PreviewRoute) (rs : List PreviewRoute) → P r → All P rs → All P (place_route r rs)
  unfolding place_route
  place_route-All r [] p h = (p, tt)
  place_route-All r (s ∷ rs) p (q, h) = elim (Bool-cases (text_ltb r.slot s.slot)) [
    | inl e ↦ rw e (p, (q, h))
    | inr e ↦ rw e (q, place_route-All r rs p h)
  ]

  pub sort_routes-All : (rs : List PreviewRoute) → All P rs → All P (sort_routes rs)
  unfolding sort_routes
  sort_routes-All [] h = tt
  sort_routes-All (r ∷ rs) (p, h) = place_route-All r (sort_routes rs) p (sort_routes-All rs h)

  pub place_route-All_rev :
      (r : PreviewRoute) (rs : List PreviewRoute) → All P (place_route r rs) → P r × All P rs
  unfolding place_route
  place_route-All_rev r [] h = h
  place_route-All_rev r (s ∷ rs) h = elim (Bool-cases (text_ltb r.slot s.slot)) [
    | inl e ↦ rw (e, place_route) at h
    | inr e ↦
        (let (q, rest) : P s × All P (place_route r rs) = rw (e, place_route) at h in
          let (p, ps) = place_route-All_rev r rs rest in (p, (q, ps)))
  ]

  pub sort_routes-All_rev : (rs : List PreviewRoute) → All P (sort_routes rs) → All P rs
  unfolding sort_routes
  sort_routes-All_rev [] h = tt
  sort_routes-All_rev (r ∷ rs) h =
      let (p, rest) = place_route-All_rev r (sort_routes rs) h in (p, sort_routes-All_rev rs rest)

module _ (P : Text × Entry → Type 0) where
  pub insert_sorted-All_rev :
      (k : Text) (v : Entry) (d : Dict Entry) → All P (insert_sorted k v d) → P (k, v) × All P d
  unfolding insert_sorted
  insert_sorted-All_rev k v [] h = h
  insert_sorted-All_rev k v ((j, w) ∷ d) h = elim (Bool-cases (text_ltb k j)) [
    | inl e ↦ rw (e, insert_sorted) at h
    | inr e ↦
        (let (q, rest) : P (j, w) × All P (insert_sorted k v d) = rw (e, insert_sorted) at h in
          let (p, ps) = insert_sorted-All_rev k v d rest in (p, (q, ps)))
  ]

  pub sorted_items-All_rev : (d : Dict Entry) → All P (sorted_items d) → All P d
  unfolding sorted_items
  sorted_items-All_rev [] h = tt
  sorted_items-All_rev ((k, v) ∷ d) h =
      let (p, rest) = insert_sorted-All_rev k v (sorted_items d) h in
      (p, sorted_items-All_rev d rest)
