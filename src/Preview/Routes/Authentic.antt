-- ===== src/Preview/Routes/Authentic.antt =====
-- Which texts `parse_route` takes for route files.
use remote_worktree_runner.Prelude.{
  ok_injective, ◌≡◌, refl, ◌≢◌, inl, inr, true, Option, none, some, [], ◌∷◌, ◌++◌, arith,
  Bool-cases, All-append, Text, text_eq, text_eq_refl, text_eq→eq, one_of, text_ltb, starts_with,
  partition, ok, err, require, require-ok, >>=-eq-ok, Dict, lookup, keys, remove_prefix,
}
use remote_worktree_runner.Errors.{bad_route}
use remote_worktree_runner.Preview.Slots.{same_keys, sorted_items, insert_sorted}
use remote_worktree_runner.Preview.Routes.{
  PreviewRoute, Scalar, Python, preview_route, owner_fields, target_fields, timestamp_field,
  identifier_of, asdict, dumps, render_route, parse_route, first_line, authenticated, route_body,
  route_fields, route_metadata_prefix,
}
use remote_worktree_runner.Preview.Routes.Lines.{NoLineEnd, partition-append, dumps-NoLineEnd}
use remote_worktree_runner.Preview.Routes.RoundTrip.{preview_route-asdict}

starts_with-append : (p s : Text) → starts_with (p ++ s) p ≡ true
unfolding starts_with
starts_with-append [] s = refl
starts_with-append (c ∷ p) s = ground (arith, starts_with-append p s)

remove_prefix-append : (p s : Text) → remove_prefix p (p ++ s) ≡ s
unfolding remove_prefix
remove_prefix-append [] s = refl
remove_prefix-append (c ∷ p) s = remove_prefix-append p s

-- The order of the members makes no difference.
preview_route-sorted :
    (python : Python) (r : PreviewRoute)
    → preview_route python (sorted_items (asdict r)) ≡ preview_route python (asdict r)
unfolding preview_route owner_fields target_fields timestamp_field identifier_of lookup text_eq
    text_ltb sorted_items insert_sorted asdict
preview_route-sorted python r = refl

keys-sorted : (r : PreviewRoute) → same_keys (keys (sorted_items (asdict r))) route_fields ≡ true
unfolding same_keys one_of text_eq text_ltb sorted_items insert_sorted asdict
keys-sorted r = refl

parse_route-line :
    (python : Python) (content json body : Text)
    → NoLineEnd json
    → content ≡ route_metadata_prefix ++ (json ++ 10 ∷ body)
    → parse_route python content ≡ authenticated python content (python.loads json)
unfolding parse_route first_line starts_with remove_prefix
parse_route-line python content json body plain e =
    let line : NoLineEnd (route_metadata_prefix ++ json) =
      All-append (λ c. c ≢ 10) route_metadata_prefix json (omega arith) plain in
    let cut : partition 10 content ≡ (route_metadata_prefix ++ json, some body) =
      rw e (partition-append (route_metadata_prefix ++ json) body line) in
    rw cut

-- What `render_route` writes for a route that could be made is read back as that route, where
-- `json.loads` reads back what `json.dumps` wrote.
pub parse_route-render_route :
    (python : Python) (raw : Dict Scalar) (r : PreviewRoute)
    → preview_route python raw ≡ ok r
    → python.loads (dumps (asdict r)) ≡ some (sorted_items (asdict r))
    → parse_route python (render_route r) ≡ ok r
unfolding authenticated
parse_route-render_route python raw r made reads =
    let line : parse_route python (render_route r)
        ≡ authenticated python (render_route r) (python.loads (dumps (asdict r))) =
      parse_route-line python (render_route r) (dumps (asdict r)) (route_body r)
        (dumps-NoLineEnd (asdict r)) (unfold render_route in refl) in
    rw line (
      rw (
        reads,
        keys-sorted r,
        preview_route-sorted python r,
        preview_route-asdict python raw r made,
        text_eq_refl (render_route r),
      ))

checked_against :
    (python : Python) (content : Text) (raw : Dict Scalar) (route r : PreviewRoute)
    → preview_route python raw ≡ ok route
    → text_eq (render_route route) content ≡ true
    → route ≡ r
    → (render_route r ≡ content) × (preview_route python (asdict r) ≡ ok r)
checked_against python content raw route r made same e =
    rw (← e)
      (text_eq→eq (render_route route) content same, preview_route-asdict python raw route made)

authenticated-eq-ok :
    (python : Python) (content : Text) (loaded : Option (Dict Scalar)) (r : PreviewRoute)
    → authenticated python content loaded ≡ ok r
    → (render_route r ≡ content) × (preview_route python (asdict r) ≡ ok r)
unfolding authenticated
authenticated-eq-ok python content none r h = absurd (cc)
authenticated-eq-ok python content (some raw) r h =
    let (_, _, h1) = >>=-eq-ok (require (same_keys (keys raw) route_fields) bad_route) _ h in
    let (route, made, h2) = >>=-eq-ok (preview_route python raw) _ h1 in
    let (_, same, h3) = >>=-eq-ok (require (text_eq (render_route route) content) bad_route) _ h2 in
    checked_against python content raw route r made (require-ok _ bad_route same) (ok_injective h3)

first_line-eq-ok :
    (python : Python) (content line : Text) (remainder : Option Text) (r : PreviewRoute)
    → first_line python content line remainder ≡ ok r
    → (render_route r ≡ content) × (preview_route python (asdict r) ≡ ok r)
unfolding first_line
first_line-eq-ok python content line none r h = absurd (cc)
first_line-eq-ok python content line (some remainder) r h =
    elim (Bool-cases (starts_with line route_metadata_prefix)) [
      | inl e ↦ authenticated-eq-ok python content _ r (rw e at h)
      | inr e ↦ (let refused : err bad_route ≡ ok r = rw e at h in absurd (cc (refused)))
    ]

-- Every text that is read as a route is, to the last character, what that route renders to; and
-- the route could be made again.
pub parse_route-authentic :
    (python : Python) (content : Text) (r : PreviewRoute)
    → parse_route python content ≡ ok r
    → (render_route r ≡ content) × (preview_route python (asdict r) ≡ ok r)
unfolding parse_route
parse_route-authentic python content r h =
    first_line-eq-ok python content (partition 10 content).0 (partition 10 content).1 r h
