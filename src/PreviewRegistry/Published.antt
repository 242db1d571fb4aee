-- ===== src/PreviewRegistry/Published.antt =====
-- How a whole publication ends.
use mathlib.Core.Path.{subst}
use remote_worktree_runner.Effects.Emits.{events}
use remote_worktree_runner.Effects.Extends.{Later, Later-trans}
use remote_worktree_runner.PreviewRegistry.History.{prepare-Extends}
use remote_worktree_runner.PreviewRegistry.Served.{Served}
use remote_worktree_runner.PreviewRegistry.Files.{entry_of}
use remote_worktree_runner.Prelude.{
  ◌≡◌, refl, sym, ap, ◌∙◌, ◌≢◌, inl, inr, false, Option, none, some, List, arith, Bool-cases, Text,
  ok, Dict, lookup,
}
use remote_worktree_runner.Common.{validate_identifier}
use remote_worktree_runner.Preview.Routes.{PreviewRoute, Python, parse_route}
use remote_worktree_runner.Preview.Routes.Authentic.{parse_route-authentic}
use remote_worktree_runner.Effects.{done, raised}
use remote_worktree_runner.PreviewRegistry.Probe.{Event, Run}
use remote_worktree_runner.PreviewRegistry.Site.{
  Entry, file, symlink, directory, World, Site, route_path, route_name, is_symlink,
}
use remote_worktree_runner.PreviewRegistry.Authority.{Handoff, read_previous, same_handoff}
use remote_worktree_runner.PreviewRegistry.Publish.{
  Prepared, Outcome, probed, publish, prepare, previous_content, hand_over, after_prepare,
}
use remote_worktree_runner.PreviewRegistry.Prepared.{IsPrepared, prepare-IsPrepared}
use remote_worktree_runner.PreviewRegistry.Transaction.{
  Ends, refused, unchanged, placed, unfinished, attempt-Tried, settle-Ends,
}

-- What the file held before is what the handler writes back, unless a directory is in the way.
held_before :
    (python : Python) (o : Option Entry) (previous : Option (Text × PreviewRoute))
    → read_previous python o ≡ ok previous
    → is_symlink o ≡ false
    → o ≢ some directory
    → entry_of (previous_content previous) ≡ o
unfolding read_previous
held_before python none previous h link d = ground arith
held_before python (some symlink) previous h link d = absurd (cc)
held_before python (some directory) previous h link d = absurd (d refl)
held_before python (some (file t)) previous h link d = ground arith

pub route_path-ok :
    (slot name : Text) (routes : Dict Entry)
    → route_path slot routes ≡ ok name
    → (name ≡ route_name slot) × (is_symlink (lookup name routes) ≡ false)
unfolding route_path validate_identifier
route_path-ok slot name routes h = ground arith

standing :
    (python : Python) (o : Option Entry) (t : Text) (r : PreviewRoute)
    → read_previous python o ≡ ok (some (t, r))
    → (o ≡ some (file t)) × (parse_route python t ≡ ok r)
unfolding read_previous
standing python none t r h = absurd (cc)
standing python (some symlink) t r h = absurd (cc)
standing python (some directory) t r h = absurd (cc)
standing python (some (file c)) t r h = ground arith

module _ (site : Site) (q : Handoff) (w : World) (p : Prepared)
    (ready : IsPrepared site q w.routes p) where
  held_prepared :
      lookup p.name w.routes ≢ some directory
      → entry_of (previous_content p.previous) ≡ lookup p.name w.routes
  held_prepared =
      held_before site.python (lookup p.name w.routes) p.previous ready.read
        ((route_path-ok q.slot p.name w.routes ready.named).1)

  hand_over-Ends :
      (previous : Option (Text × PreviewRoute))
      → p.previous ≡ previous
      → Ends site p.name w (hand_over site p previous w)
  unfolding hand_over
  hand_over-Ends none e =
      settle-Ends site p w held_prepared _ (attempt-Tried site p w ready.served_by)
  hand_over-Ends (some (t, r)) e = elim (Bool-cases (same_handoff r p.candidate)) [
    | inl same ↦
        (let read : read_previous site.python (lookup p.name w.routes) ≡ ok (some (t, r)) =
            ready.read ∙ ap (λ o. ok o) e in
          let (there, parses) = standing site.python (lookup p.name w.routes) t r read in
          let (exact, _) = parse_route-authentic site.python t r parses in
          rw (same, hand_over)
            (unchanged (λ j. refl) (there ∙ ap (λ c. some (file c)) (sym exact))))
    | inr new ↦
        rw (new, hand_over)
          (settle-Ends site p w held_prepared _ (attempt-Tried site p w ready.served_by))
  ]

  ready_name : p.name ≡ route_name q.slot
  ready_name = (route_path-ok q.slot p.name w.routes ready.named).0

-- What has happened since a later event has happened since an earlier one.
Served-before :
    (site : Site) (name : Text) (r : PreviewRoute) (start first last : List Event)
    → Later start first
    → Served site name r start last
    → Served site name r first last
Served-before site name r start first last later (code, good, reply) = (
  code,
  good,
  record {
    runtime = reply.runtime;
    configured = reply.configured;
    earlier = reply.earlier;
    since = Later-trans reply.earlier start first reply.since later;
    between = reply.between;
    answer = reply.answer;
    happened = reply.happened;
  },
)

-- Only the files and the events count in the world before.
Ends-probed :
    (site : Site) (name : Text) (w : World) (now : List Event) (o : Outcome PreviewRoute)
    → Later now w.events
    → Ends site name (probed now w) o
    → Ends site name w o
Ends-probed site name w now o later (refused same) = refused same
Ends-probed site name w now o later (unchanged same there) = unchanged same there
Ends-probed site name w now o later (placed only up) =
    placed only (Served-before site _ _ now _ _ later up)
Ends-probed site name w now o later (unfinished r only why) = unfinished r only (elim why [
  | inl h ↦ inl h
  | inr (inl up) ↦ inr (inl (Served-before site _ _ now _ _ later up))
  | inr (inr fails) ↦ inr (inr fails)
])

after_prepare-Ends :
    (site : Site) (q : Handoff) (w : World) (run : Run Prepared)
    → prepare site q w.routes w.events ≡ run
    → Ends site (route_name q.slot) w (after_prepare site run w)
unfolding after_prepare events
after_prepare-Ends site q w (raised e now) h = refused (λ j. refl)
after_prepare-Ends site q w (done p now) h =
    let ready : IsPrepared site q w.routes p =
      prepare-IsPrepared site q w.routes w.events now p h in
    Ends-probed site (route_name q.slot) w now _
      (subst (λ run. Later (events run) w.events) h (prepare-Extends site q w.routes w.events))
      (subst (λ n. Ends site n (probed now w) (hand_over site p p.previous (probed now w)))
        (ready_name site q w p ready)
        (hand_over-Ends site q (probed now w) p ready p.previous refl))

-- However a publication ends: if it returns the route that stands, no file has changed; if it
-- returns a new one, exactly the slot's file has, it holds that route, and after this call wrote
-- it the configured gateway, asked for the route's host name and check path, answered with a
-- status from 200 to 399; if it raises, either no file has changed, or exactly the slot's file
-- holds the new route, and then the gateway answered so, or the exception is one of `http.client`,
-- which the handler does not catch, or the file system refused to write back what the file held
-- before.
pub publish-Ends :
    (site : Site) (q : Handoff) (w : World) → Ends site (route_name q.slot) w (publish site q w)
unfolding publish
publish-Ends site q w = after_prepare-Ends site q w (prepare site q w.routes w.events) refl
