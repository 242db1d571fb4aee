-- ===== src/PreviewRegistry/Cleared.antt =====
-- The routes that are listed, and the jobs that may be cleaned up.
use mathlib.Core.Path.{subst}
use remote_worktree_runner.Prelude.{
  ◌≡◌, sym, ap, ◌∙◌, ◌≢◌, inl, inr, true, Option, none, some, List, [], ◌∷◌, arith, All, All-map,
  Text, text_eq_cases, ok, ◌>>=◌, >>=-eq-ok, Dict, ok_injective,
}
use remote_worktree_runner.Common.{validate_identifier}
use remote_worktree_runner.Common.Laws.{validate_identifier-eq-ok}
use remote_worktree_runner.Preview.{PreviewSlot}
use remote_worktree_runner.Preview.Slots.{
  SlotItem, load_slot_configuration, read_slots, sorted_items,
}
use remote_worktree_runner.Preview.Distinct.{AllApart, by_name, validated_slots_iff}
use remote_worktree_runner.Preview.Routes.{PreviewRoute}
use remote_worktree_runner.PreviewRegistry.Site.{
  Entry, Site, lock, configured_slots, load_each, load_routes, list_routes, sort_routes, slot_items,
}
use remote_worktree_runner.PreviewRegistry.Sorting.{
  sort_routes-All, sort_routes-All_rev, sorted_items-All_rev,
}
use remote_worktree_runner.PreviewRegistry.Listed.{
  Configured, OneHost, ShownWith, load_each-Configured, load_each-ShownWith, Configured-once,
}
use remote_worktree_runner.PreviewRegistry.Unpublish.{
  owned_slots, refuse_owned, has_slots, assert_cleanup_allowed,
}

configured_slots-apart :
    (content : Option (Dict SlotItem)) (d : Dict PreviewSlot)
    → load_slot_configuration content ≡ ok d
    → (slots : List PreviewSlot) × AllApart slots × (d ≡ by_name slots)
unfolding load_slot_configuration
configured_slots-apart none d h = absurd (cc)
configured_slots-apart (some raw) d h =
    let (slots, e, h1) = >>=-eq-ok (read_slots raw) _ h in
    let (apart, same) = (validated_slots_iff slots d).0 h1 in (slots, apart, same)

load_routes-parts :
    (site : Site) (routes : Dict Entry) (rs : List PreviewRoute)
    → load_routes site routes ≡ ok rs
    → (slots : Dict PreviewSlot) × (found : List PreviewRoute) × (configured_slots site ≡ ok slots)
      × (load_each site.python slots routes (sorted_items routes) ≡ ok found)
      × (sort_routes found ≡ rs)
unfolding load_routes
load_routes-parts site routes rs h =
    let (slots, e, h1) = >>=-eq-ok (configured_slots site) _ h in
    let (found, e', h2) =
      >>=-eq-ok (load_each site.python slots routes (sorted_items routes)) _ h1 in
    (slots, found, e, e', ok_injective h2)

each_once :
    (slots : List PreviewSlot) (rs all : List PreviewRoute)
    → AllApart slots
    → All (Configured (by_name slots)) rs
    → All (Configured (by_name slots)) all
    → All (OneHost all) rs
each_once slots rs all apart own every =
    All-map _ _ (λ r c. Configured-once slots r all apart c every) rs own

-- Every route that is listed has the host name and the repository that the slot file gives its
-- slot, and no two slots that are listed share a host name.
pub list_routes-OneHost :
    (site : Site) (routes : Dict Entry) (rs : List PreviewRoute)
    → list_routes site routes ≡ ok rs
    → (slots : Dict PreviewSlot) × (configured_slots site ≡ ok slots)
      × All (Configured slots) rs
      × All (OneHost rs) rs
unfolding list_routes configured_slots
list_routes-OneHost site routes rs h =
    let (_, _, loaded) = >>=-eq-ok (lock site) _ h in
    let (d, found, e, each, sorted) = load_routes-parts site routes rs loaded in
    let (slots, apart, same) = configured_slots-apart (slot_items site.slots) d e in
    let every : All (Configured (by_name slots)) rs =
      subst (All (Configured (by_name slots))) sorted (
        sort_routes-All _ found (
          subst (λ (x : Dict PreviewSlot). All (Configured x) found) same
            (load_each-Configured site.python d routes (sorted_items routes) found each))) in
    (
      by_name slots,
      e ∙ ap (λ (x : Dict PreviewSlot). ok x) same,
      every,
      each_once slots rs rs apart every every,
    )

unowned :
    (job : Text) (rs : List PreviewRoute)
    → refuse_owned (owned_slots job rs) ≡ ok tt
    → All (λ (r : PreviewRoute). r.job_id ≢ job) rs
unfolding owned_slots refuse_owned
unowned job [] h = tt
unowned job (r ∷ rs) h = elim (text_eq_cases r.job_id job) [
  | inl (e, x) ↦ absurd (ground arith)
  | inr (e, x) ↦ (x, unowned job rs (rw e at h))
]

-- If the cleanup of a job is allowed where previews are in use, then every route file of the
-- gateway's directory can be read, and its route names another job.
pub assert_cleanup_allowed-unowned :
    (site : Site) (job : Text) (routes : Dict Entry)
    → site.gateway_there ≡ true
    → has_slots site ≡ true
    → assert_cleanup_allowed site job routes ≡ ok tt
    → All (ShownWith site.python (λ r. r.job_id ≢ job)) routes
unfolding assert_cleanup_allowed
assert_cleanup_allowed-unowned site job routes there slots h =
    let (j, e, h1) = >>=-eq-ok (validate_identifier job) _ h in
    let asked : (lock site >>= λ _.
    load_routes site routes >>= λ found. refuse_owned (owned_slots j found))
        ≡ ok tt =
      rw (there, slots) at h1 in
    let (_, _, h2) = >>=-eq-ok (lock site) _ asked in
    let (rs, loaded, h3) = >>=-eq-ok (load_routes site routes) _ h2 in
    let (d, found, e', each, sorted) = load_routes-parts site routes rs loaded in
    let others : All (λ (r : PreviewRoute). r.job_id ≢ job) rs =
      subst (λ t. All (λ (r : PreviewRoute). r.job_id ≢ t) rs)
        ((validate_identifier-eq-ok job j e).1) (unowned j rs h3) in
    sorted_items-All_rev _ routes (
      load_each-ShownWith site.python d _ routes (sorted_items routes) found each (
        sort_routes-All_rev _ found
          (subst (All (λ (r : PreviewRoute). r.job_id ≢ job)) (sym sorted) others)))
