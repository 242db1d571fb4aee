-- ===== src/PreviewRegistry/Withdrawn.antt =====
-- A preview is withdrawn only for the job that owns it, and put back if the gateway keeps it.
use mathlib.Core.Path.{subst}
use remote_worktree_runner.Prelude.{
  ap, text_eq→eq, ok_injective, require-ok, >>=-eq-ok, Result, ℕ, ◌≡◌, refl, sym, ◌∙◌, ◌⊎◌, inl,
  inr, true, Option, none, some, List, [], ◌∷◌, ◌==◌, ==_iff, Bool-cases, Text, text_eq, ok, err,
  require, lookup,
}
use remote_worktree_runner.Errors.{Error, os_error, not_preview_owner}
use remote_worktree_runner.Effects.Emits.{events}
use remote_worktree_runner.Effects.Extends.{Later, Later-trans}
use remote_worktree_runner.PreviewRegistry.Served.{Gone, disconnect_if_unused-Extends}
use remote_worktree_runner.Common.{validate_identifier}
use remote_worktree_runner.Common.Laws.{validate_identifier-eq-ok}
use remote_worktree_runner.Preview.Routes.{PreviewRoute, Python, render_route}
use remote_worktree_runner.Preview.Routes.Authentic.{parse_route-authentic}
use remote_worktree_runner.Effects.{done, raised}
use remote_worktree_runner.PreviewRegistry.Probe.{Event, wrote, status, Run, wait_for_status}
use remote_worktree_runner.PreviewRegistry.Polling.{
  IsHttpError, Polled-raised, wait_for_status-Polled, poll_status-Answered,
}
use remote_worktree_runner.PreviewRegistry.Site.{
  Entry, file, symlink, directory, World, Site, lock, gateway, route_path, route_name, write_route,
}
use remote_worktree_runner.PreviewRegistry.Publish.{gateway_request, Outcome, probed}
use remote_worktree_runner.PreviewRegistry.Unpublish.{
  Owned, published_route, find_owned, after_disconnect, after_rewrite, after_wait, after_removal,
  withdraw, unpublish,
}
use remote_worktree_runner.PreviewRegistry.Files.{
  SameRoutes, OnlyChanged, write_route-file, write_route-failed, write_route-over,
  write_route-events, OnlyChanged-self, restored,
}
use remote_worktree_runner.PreviewRegistry.Published.{route_path-ok}

-- The slot's file held the route, and the route names the job.
abbrev pub Held : Text → Text → World → PreviewRoute → Type 0
Held job name w r = (lookup name w.routes ≡ some (file (render_route r))) × (r.job_id ≡ job)

-- How a withdrawal can end: no file has changed, or the slot's file, which the job owned, is gone.
pub data Withdrawal (site : Site) (job name : Text) (w : World)
    : Outcome PreviewRoute → Type 0 where
  kept : {e : Error} {w' : World} → SameRoutes w w' → Withdrawal site job name w (err e, w')
  removed :
      {r : PreviewRoute} {w' : World}
      → Held job name w r
      → OnlyChanged name none w w'
      → Gone site name r w.events w'.events
      → Withdrawal site job name w (ok r, w')
  unfinished :
      {e : Error} {w' : World} (r : PreviewRoute)
      → Held job name w r
      → OnlyChanged name none w w'
      → IsHttpError e
        ⊎ (Gone site name r w.events w'.events
            ⊎ ((e ≡ os_error)
                × (site.outside.write_fails w'.events name (some (render_route r)) ≡ true)))
      → Withdrawal site job name w (err e, w')

published_route-ok :
    (python : Python) (o : Option Entry) (r : PreviewRoute)
    → published_route python o ≡ ok r
    → o ≡ some (file (render_route r))
unfolding published_route
published_route-ok python none r h = absurd (cc)
published_route-ok python (some symlink) r h = absurd (cc)
published_route-ok python (some directory) r h = absurd (cc)
published_route-ok python (some (file t)) r h =
    ap (λ c. some (file c)) (sym ((parse_route-authentic python t r h).0))

module _ (site : Site) (job : Text) (w : World) (o : Owned) (held : Held job o.name w o.route)
    (known : gateway site ≡ ok o.runtime) where
  after_disconnect-Withdrawal :
      (run : Run (Unit {0})) (w1 : World)
      → OnlyChanged o.name none w w1
      → Gone site o.name o.route w.events (events run)
      → Withdrawal site job o.name w (after_disconnect o run w1)
  unfolding after_disconnect events
  after_disconnect-Withdrawal (raised e now) w1 only gone =
      unfinished o.route held only (inr (inl gone))
  after_disconnect-Withdrawal (done _ now) w1 only gone = removed held only gone

  after_rewrite-Withdrawal :
      (w1 : World) (written : Outcome (Unit {0}))
      → write_route site.outside o.name (some (render_route o.route)) w1 ≡ written
      → OnlyChanged o.name none w w1
      → Withdrawal site job o.name w (after_rewrite written)
  unfolding after_rewrite
  after_rewrite-Withdrawal w1 (err e, w2) h only =
      let same = write_route-failed site.outside o.name (some (render_route o.route)) w1 w2 e h in
      let (kind, fails) =
        write_route-over site.outside o.name (some (render_route o.route)) w1 w2 e
          (λ d. cc (OnlyChanged-self o.name none w w1 only, d)) h in
      unfinished o.route held (λ j. rw same (only j)) (inr (inr (kind, rw same fails)))
  after_rewrite-Withdrawal w1 (ok _, w2) h only = kept (
      restored o.name (some (render_route o.route)) none w w1 w2 (sym (held.0)) only
        (write_route-file site.outside o.name (some (render_route o.route)) w1 w2 h))

  Gone-by :
      (w1 : World) (earlier now later : List Event) (code : ℕ)
      → Later earlier w.events
      → w1.events ≡ wrote o.name none ∷ earlier
      → wait_for_status site.outside (gateway_request o.runtime o.route) (λ c. c == 404) w1.events
        ≡ done code now
      → (code == 404) ≡ true
      → Later later now
      → Gone site o.name o.route w.events later
  unfolding wait_for_status
  Gone-by w1 earlier now later code since first h gone more =
      let a =
        poll_status-Answered site.outside (λ c. c == 404) (gateway_request o.runtime o.route) 20 0
          w1.events now code refl gone h in
      record {
        runtime = o.runtime;
        configured = known;
        earlier = earlier;
        since = since;
        between = a.between;
        answer = rw (← first) a.answer ∙ ap status ((==_iff code 404).0 gone);
        happened = Later-trans later now _ more ([], rw (← first) a.last);
      }

  after_wait-Withdrawal :
      (run : Run ℕ) (w1 : World) (earlier : List Event)
      → Later earlier w.events
      → w1.events ≡ wrote o.name none ∷ earlier
      → wait_for_status site.outside
          (gateway_request o.runtime o.route)
          (λ code. code == 404)
          w1.events
        ≡ run
      → OnlyChanged o.name none w w1
      → Withdrawal site job o.name w (after_wait site o run w1)
  unfolding after_wait
  after_wait-Withdrawal (raised e now) w1 earlier since first h only =
      unfinished o.route held only (
        inl (
          Polled-raised (wait_for_status-Polled site.outside _ (λ code. code == 404) w1.events refl)
            h))
  after_wait-Withdrawal (done code now) w1 earlier since first h only =
      elim (Bool-cases (code == 404)) [
        | inl gone ↦
            rw (gone, after_wait)
              (after_disconnect-Withdrawal _ w1 only (
                Gone-by w1 earlier now _ code since first h gone
                  (disconnect_if_unused-Extends site o.runtime o.route.container_id w1.routes now)))
        | inr still ↦ rw (still, after_wait) (after_rewrite-Withdrawal (probed now w1) _ refl only)
      ]

  after_removal-Withdrawal :
      (written : Outcome (Unit {0}))
      → write_route site.outside o.name none w ≡ written
      → Withdrawal site job o.name w (after_removal site o written)
  unfolding after_removal
  after_removal-Withdrawal (err e, w1) h =
      kept (λ j. rw (write_route-failed site.outside o.name none w w1 e h))
  after_removal-Withdrawal (ok _, w1) h =
      after_wait-Withdrawal _ w1 w.events ([], refl)
        (write_route-events site.outside o.name none w w1 h) refl
        (write_route-file site.outside o.name none w w1 h)

owned_by :
    (site : Site) (job slot j s : Text) (w : World) (o : Owned)
    → validate_identifier job ≡ ok j
    → validate_identifier slot ≡ ok s
    → route_path s w.routes ≡ ok o.name
    → published_route site.python (lookup o.name w.routes) ≡ ok o.route
    → text_eq o.route.job_id j ≡ true
    → (o.name ≡ route_name slot) × Held job o.name w o.route
owned_by site job slot j s w o ej es path there own = (
  (route_path-ok s o.name w.routes path).0
      ∙ ap route_name ((validate_identifier-eq-ok slot s es).1),
  (
    published_route-ok site.python (lookup o.name w.routes) o.route there,
    text_eq→eq o.route.job_id j own ∙ (validate_identifier-eq-ok job j ej).1,
  ),
)

-- What has been checked when the file is removed.
find_owned-Held :
    (site : Site) (job slot : Text) (w : World) (o : Owned)
    → find_owned site job slot w.routes ≡ ok o
    → (o.name ≡ route_name slot) × Held job o.name w o.route × (gateway site ≡ ok o.runtime)
unfolding find_owned
find_owned-Held site job slot w o h =
    let (j, e1, h1) = >>=-eq-ok (validate_identifier job) _ h in
    let (s, e2, h2) = >>=-eq-ok (validate_identifier slot) _ h1 in
    let (_, e3, h3) = >>=-eq-ok (lock site) _ h2 in
    let (name, e4, h4) = >>=-eq-ok (route_path s w.routes) _ h3 in
    let (route, e5, h5) = >>=-eq-ok (published_route site.python (lookup name w.routes)) _ h4 in
    let (_, e6, h6) = >>=-eq-ok (require (text_eq route.job_id j) _) _ h5 in
    let (runtime, e7, h7) = >>=-eq-ok (gateway site) _ h6 in
    let (named, held) =
      owned_by site job slot j s w (record { name = name; route = route; runtime = runtime }) e1 e2
        e4 e5 (require-ok _ not_preview_owner e6) in
    subst
      (λ (x : Owned).
        (x.name ≡ route_name slot) × Held job x.name w x.route × (gateway site ≡ ok x.runtime))
      (ok_injective h7) (named, held, e7)

withdraw-Withdrawal :
    (site : Site) (job slot : Text) (w : World) (found : Result Error Owned)
    → find_owned site job slot w.routes ≡ found
    → Withdrawal site job (route_name slot) w (withdraw site found w)
unfolding withdraw
withdraw-Withdrawal site job slot w (err e) h = kept (λ j. refl)
withdraw-Withdrawal site job slot w (ok o) h =
    let (same, held, known) = find_owned-Held site job slot w o h in
    subst
      (λ n. Withdrawal site job n w (after_removal site o (write_route site.outside o.name none w)))
      same (after_removal-Withdrawal site job w o held known _ refl)

-- However a withdrawal ends: if it returns a route, the slot's file held exactly that route, the
-- route named the caller's job, only that file is gone, and after its removal the configured
-- gateway, asked for the route's host name and check path, answered 404; if it raises, either no
-- file has changed, or only that file, which the job owned, is gone, and then the gateway answered
-- so, or the exception is one of a request and no OSError, or the file system refused to write the
-- route again.
pub unpublish-Withdrawal :
    (site : Site) (job slot : Text) (w : World)
    → Withdrawal site job (route_name slot) w (unpublish site job slot w)
unfolding unpublish
unpublish-Withdrawal site job slot w =
    withdraw-Withdrawal site job slot w (find_owned site job slot w.routes) refl
