-- ===== src/PreviewRegistry/Listed.antt =====
-- What is known of every route that is listed, and of a job that may be cleaned up.
use remote_worktree_runner.Preview.Distinct.{Apart, by_name, AllApart}
use remote_worktree_runner.Prelude.{
  ◌≡◌, refl, sym, ap, ◌∙◌, ◌≢◌, inl, inr, true, Option, none, some, List, [], ◌∷◌, arith,
  Bool-cases, All, All-map, Text, text_eq, text_eq→eq, text_eq_cases, ok, require, require-ok,
  >>=-eq-ok, Dict, lookup, ok_injective,
}
use remote_worktree_runner.PreviewRegistry.Site.{
  load_each, Entry, file, symlink, directory, content_of, matches_slot, is_route_name, route_path,
  load_route,
}
use mathlib.Core.Path.{subst}
use remote_worktree_runner.Errors.{bad_route}
use remote_worktree_runner.Preview.{PreviewSlot}
use remote_worktree_runner.Preview.Routes.{PreviewRoute, Python, parse_route}

-- A route that agrees with the slot file.
abbrev pub Configured : Dict PreviewSlot → PreviewRoute → Type 0
Configured slots r =
    (c : PreviewSlot) × (lookup r.slot slots ≡ some c)
    × (r.hostname ≡ c.hostname)
    × (r.repository ≡ c.repository)

matches_slot-Configured :
    (o : Option PreviewSlot) (r : PreviewRoute)
    → matches_slot o r ≡ true
    → (c : PreviewSlot) × (o ≡ some c) × (r.hostname ≡ c.hostname) × (r.repository ≡ c.repository)
unfolding matches_slot
matches_slot-Configured none r h = absurd (cc)
matches_slot-Configured (some c) r h = (
  c,
  refl,
  text_eq→eq r.hostname c.hostname (ground arith),
  text_eq→eq r.repository c.repository (ground arith),
)

content_of-ok :
    (entry : Entry) (content : Text) → content_of entry ≡ ok content → entry ≡ file content
content_of-ok (file t) content h = ap file (ok_injective h)
content_of-ok symlink content h = absurd (cc)
content_of-ok directory content h = absurd (cc)

-- What one file of the directory shows.
abbrev pub Shows : Python → Entry → PreviewRoute → Type 0
Shows python entry r =
    (content : Text) × (entry ≡ file content) × (parse_route python content ≡ ok r)

load_route-ok :
    (python : Python) (slots : Dict PreviewSlot) (routes : Dict Entry) (name : Text) (entry : Entry)
    (r : PreviewRoute)
    → load_route python slots routes name entry ≡ ok r
    → Shows python entry r × Configured slots r
unfolding load_route
load_route-ok python slots routes name entry r h =
    let (content, e1, h1) = >>=-eq-ok (content_of entry) _ h in
    let (route, e2, h2) = >>=-eq-ok (parse_route python content) _ h1 in
    let (path, e3, h3) = >>=-eq-ok (route_path route.slot routes) _ h2 in
    let (_, e4, h4) = >>=-eq-ok (require (text_eq name path) _) _ h3 in
    let (_, e5, h5) = >>=-eq-ok (require (matches_slot (lookup route.slot slots) route) _) _ h4 in
    let shown : Shows python entry route = (content, content_of-ok entry content e1, e2) in
    subst (λ t. Shows python entry t × Configured slots t) (ok_injective h5)
      (shown, matches_slot-Configured (lookup route.slot slots) route (require-ok _ bad_route e5))

-- A file with a route's name shows a route with the property.
abbrev pub ShownWith : Python → (PreviewRoute → Type 0) → Text × Entry → Type 0
ShownWith python P (name, entry) =
    is_route_name name ≡ true → (r : PreviewRoute) × Shows python entry r × P r

pub load_each-Configured :
    (python : Python) (slots : Dict PreviewSlot) (routes entries : Dict Entry)
    (found : List PreviewRoute)
    → load_each python slots routes entries ≡ ok found
    → All (Configured slots) found
unfolding load_each
load_each-Configured python slots routes [] found h =
    subst (All (Configured slots)) (ok_injective h) tt
load_each-Configured python slots routes ((name, entry) ∷ more) found h =
    elim (Bool-cases (is_route_name name)) [
      | inr e ↦ load_each-Configured python slots routes more found (rw (e, load_each) at h)
      | inl e ↦
          (let (r, e1, h1) =
              >>=-eq-ok (load_route python slots routes name entry) _ (rw (e, load_each) at h) in
            let (others, e2, h2) = >>=-eq-ok (load_each python slots routes more) _ h1 in
            subst (All (Configured slots)) (ok_injective h2) (
              (load_route-ok python slots routes name entry r e1).1,
              load_each-Configured python slots routes more others e2,
            ))
    ]

pub load_each-ShownWith :
    (python : Python) (slots : Dict PreviewSlot) (P : PreviewRoute → Type 0)
    (routes entries : Dict Entry) (found : List PreviewRoute)
    → load_each python slots routes entries ≡ ok found
    → All P found
    → All (ShownWith python P) entries
unfolding load_each
load_each-ShownWith python slots P routes [] found h p = tt
load_each-ShownWith python slots P routes ((name, entry) ∷ more) found h p =
    elim (Bool-cases (is_route_name name)) [
      | inr e ↦ (
        λ t. absurd (cc),
        load_each-ShownWith python slots P routes more found (rw (e, load_each) at h) p,
      )
      | inl e ↦
          (let (r, e1, h1) =
              >>=-eq-ok (load_route python slots routes name entry) _ (rw (e, load_each) at h) in
            let (others, e2, h2) = >>=-eq-ok (load_each python slots routes more) _ h1 in
            let (own, rest) = subst (All P) (sym (ok_injective h2)) p in
            (
              λ t. (r, (load_route-ok python slots routes name entry r e1).0, own),
              load_each-ShownWith python slots P routes more others e2 rest,
            ))
    ]

-- In a dictionary of slots that are apart, a host name belongs to one name.
lookup-Apart :
    (s : PreviewSlot) (slots : List PreviewSlot) (k : Text) (c : PreviewSlot)
    → All (Apart s) slots
    → lookup k (by_name slots) ≡ some c
    → (s.slot ≢ k) × (s.hostname ≢ c.hostname)
unfolding lookup by_name
lookup-Apart s [] k c apart h = absurd (cc)
lookup-Apart s (t ∷ slots) k c ((p, q), apart) h = elim (text_eq_cases t.slot k) [
  | inl (e, x) ↦
      (let same : t ≡ c = ground arith in
        (λ y. p (y ∙ sym x), λ y. q (y ∙ ap (λ (z : PreviewSlot). z.hostname) (sym same))))
  | inr (e, x) ↦ lookup-Apart s slots k c apart (rw (e, lookup) at h)
]

one_name :
    (slots : List PreviewSlot) (j k : Text) (c d : PreviewSlot)
    → AllApart slots
    → lookup j (by_name slots) ≡ some c
    → lookup k (by_name slots) ≡ some d
    → c.hostname ≡ d.hostname
    → j ≡ k
unfolding lookup by_name
one_name [] j k c d apart h h' same = absurd (cc)
one_name (s ∷ slots) j k c d (own, apart) h h' same = elim (text_eq_cases s.slot j) [
  | inl (e, x) ↦ elim (text_eq_cases s.slot k) [
    | inl (e', x') ↦ sym x ∙ x'
    | inr (e', x') ↦
        (let first : s ≡ c = ground arith in
          let other = lookup-Apart s slots k d own (rw (e', lookup) at h') in
          absurd (other.1 (ap (λ (z : PreviewSlot). z.hostname) first ∙ same)))
  ]
  | inr (e, x) ↦ elim (text_eq_cases s.slot k) [
    | inl (e', x') ↦
        (let second : s ≡ d = ground arith in
          let other = lookup-Apart s slots j c own (rw (e, lookup) at h) in
          absurd (other.1 (ap (λ (z : PreviewSlot). z.hostname) second ∙ sym same)))
    | inr (e', x') ↦ one_name slots j k c d apart (rw (e, lookup) at h) (rw (e', lookup) at h') same
  ]
]

-- Two routes of one host name have one slot.
abbrev pub OneHost : List PreviewRoute → PreviewRoute → Type 0
OneHost routes r = All (λ (s : PreviewRoute). r.hostname ≡ s.hostname → r.slot ≡ s.slot) routes

pub Configured-once :
    (slots : List PreviewSlot) (r : PreviewRoute) (rs : List PreviewRoute)
    → AllApart slots
    → Configured (by_name slots) r
    → All (Configured (by_name slots)) rs
    → OneHost rs r
Configured-once slots r rs apart (c, there, host, _) =
    All-map _ _
      (λ s (d, there', host', _) same.
        one_name slots r.slot s.slot c d apart there there' (sym host ∙ (same ∙ host')))
      rs
