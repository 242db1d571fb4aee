-- ===== src/PreviewRegistry/Transaction.antt =====
-- A handoff is made as a whole or not at all.
use remote_worktree_runner.PreviewRegistry.Files.{
  OnlyChanged-self, write_route-over, write_route-ne-directory, OnlyChanged-from, rewritten,
  SameRoutes, OnlyChanged, entry_of, write_route-events, write_route-file, write_route-failed,
  restored,
}
use remote_worktree_runner.Prelude.{
  ℕ, ◌≡◌, refl, ◌∙◌, ◌≢◌, ◌⊎◌, inl, inr, true, false, ◌||◌, leb, Option, none, some, List, [], ◌∷◌,
  Bool-cases, Text, text_eq, Dict, ok, err, lookup,
}
use remote_worktree_runner.Errors.{Error, http_failed, check_failed, os_error}
use remote_worktree_runner.Effects.Emits.{events}
use remote_worktree_runner.Effects.Extends.{Later, Later-trans, Extends}
use remote_worktree_runner.PreviewRegistry.History.{single_status-Extends}
use remote_worktree_runner.PreviewRegistry.Served.{Served, disconnect_if_unused-Extends}
use remote_worktree_runner.PreviewRegistry.Polling.{
  IsHttpError, Polled-raised, gateway_status-Polled, poll_status-Answered,
}
use remote_worktree_runner.Preview.Routes.{PreviewRoute, render_route}
use remote_worktree_runner.Effects.{done, raised}
use remote_worktree_runner.PreviewRegistry.Probe.{
  wrote, Event, Run, single_status, gateway_status, successful,
}
use remote_worktree_runner.PreviewRegistry.Site.{
  Entry, gateway, file, directory, World, Site, write_route,
}
use remote_worktree_runner.PreviewRegistry.Authority.{is_caught}
use remote_worktree_runner.PreviewRegistry.Publish.{
  Prepared, Outcome, probed, attempt, settle, roll_back, previous_content, gateway_request,
  after_direct, after_write, after_gateway, after_restore, after_undo, after_release,
  release_container, request_of,
}

-- The file system refused to write back what the file held before.
abbrev pub Stuck : Site → Text → World → Error → World → Type 0
Stuck site name w e w' =
    (e ≡ os_error)
    × ((content : Option Text) × (entry_of content ≡ lookup name w.routes)
        × (site.outside.write_fails w'.events name content ≡ true))

-- How a handoff can end. In the first two cases no route file has changed; in the others exactly
-- the slot's own file has, and holds the new route.
pub data Ends (site : Site) (name : Text) (w : World) : Outcome PreviewRoute → Type 0 where
  refused : {e : Error} {w' : World} → SameRoutes w w' → Ends site name w (err e, w')
  unchanged :
      {r : PreviewRoute} {w' : World}
      → SameRoutes w w'
      → lookup name w.routes ≡ some (file (render_route r))
      → Ends site name w (ok r, w')
  placed :
      {r : PreviewRoute} {w' : World}
      → OnlyChanged name (some (render_route r)) w w'
      → Served site name r w.events w'.events
      → Ends site name w (ok r, w')
  unfinished :
      {e : Error} {w' : World} (r : PreviewRoute)
      → OnlyChanged name (some (render_route r)) w w'
      → (e ≡ http_failed) ⊎ (Served site name r w.events w'.events ⊎ Stuck site name w e w')
      → Ends site name w (err e, w')

-- What the checks of the gateway's answer raise.
abbrev IsTryError : Error → Type 0
IsTryError e = (e ≡ check_failed) ⊎ IsHttpError e

missed-http_failed : (e : Error) → IsTryError e → is_caught e ≡ false → e ≡ http_failed
unfolding is_caught
missed-http_failed e (inl h) missed = absurd (cc (rw h at missed))
missed-http_failed e (inr (inl h)) missed = h
missed-http_failed e (inr (inr h)) missed = absurd (cc (rw h at missed))

module _ (site : Site) (p : Prepared) (w : World) where
  -- How the `try` ends: the file as it was, or written; if it came to its end, the route is served.
  pub data Tried : Outcome (Unit {0}) → Type 0 where
    not_written : {e : Error} {w' : World} → SameRoutes w w' → Tried (err e, w')
    not_served :
        {e : Error} {w' : World}
        → IsTryError e
        → OnlyChanged p.name (some (render_route p.candidate)) w w'
        → lookup p.name w.routes ≢ some directory
        → Tried (err e, w')
    served :
        {w' : World}
        → OnlyChanged p.name (some (render_route p.candidate)) w w'
        → Served site p.name p.candidate w.events w'.events
        → Tried (ok tt, w')

  module _ (known : gateway site ≡ ok p.runtime) where
    Served-by :
        (w1 : World) (earlier now : List Event) (code : ℕ)
        → Later earlier w.events
        → w1.events ≡ wrote p.name (some (render_route p.candidate)) ∷ earlier
        → gateway_status site.outside (gateway_request p.runtime p.candidate) w1.events
          ≡ done code now
        → successful code ≡ true
        → Served site p.name p.candidate w.events now
    unfolding gateway_status
    Served-by w1 earlier now code since first h good =
        let stops : (successful code || leb 500 code) ≡ true = rw good refl in
        let a =
          poll_status-Answered site.outside (λ c. successful c || leb 500 c)
            (gateway_request p.runtime p.candidate) 20 0 w1.events now code refl stops h in
        (
          code,
          good,
          record {
            runtime = p.runtime;
            configured = known;
            earlier = earlier;
            since = since;
            between = a.between;
            answer = rw (← first) a.answer;
            happened = ([], rw (← first) a.last);
          },
        )

    after_gateway-Tried :
        (w1 : World) (earlier : List Event) (run : Run ℕ)
        → Later earlier w.events
        → w1.events ≡ wrote p.name (some (render_route p.candidate)) ∷ earlier
        → gateway_status site.outside (gateway_request p.runtime p.candidate) w1.events ≡ run
        → OnlyChanged p.name (some (render_route p.candidate)) w w1
        → lookup p.name w.routes ≢ some directory
        → Tried (after_gateway run w1)
    unfolding after_gateway
    after_gateway-Tried w1 earlier (raised e now) since first h only d =
        not_served
          (inr (
            Polled-raised
              (gateway_status-Polled site.outside (gateway_request p.runtime p.candidate) w1.events)
              h))
          only d
    after_gateway-Tried w1 earlier (done code now) since first h only d =
        elim (Bool-cases (successful code)) [
          | inl good ↦ rw good (served only (Served-by w1 earlier now code since first h good))
          | inr bad ↦ rw bad (not_served (inl refl) only d)
        ]

    after_write-Tried :
        (w1 : World) (written : Outcome (Unit {0}))
        → write_route site.outside p.name (some (render_route p.candidate)) w1 ≡ written
        → SameRoutes w w1
        → Later w1.events w.events
        → Tried (after_write site p written)
    unfolding after_write
    after_write-Tried w1 (err e, w2) h same since =
        not_written (λ j. rw (write_route-failed site.outside _ _ w1 w2 e h) (same j))
    after_write-Tried w1 (ok _, w2) h same since =
        after_gateway-Tried w2 w1.events _ since (write_route-events site.outside p.name _ w1 w2 h)
          refl
          (OnlyChanged-from p.name (some (render_route p.candidate)) w w1 w2 same
            (write_route-file site.outside p.name _ w1 w2 h))
          (λ d. write_route-ne-directory site.outside p.name _ w1 w2 h (same p.name ∙ d))

    after_direct-Tried :
        (run : Run ℕ) → Later (events run) w.events → Tried (after_direct site p run w)
    unfolding after_direct events
    after_direct-Tried (raised e now) since = not_written (λ j. refl)
    after_direct-Tried (done code now) since = elim (Bool-cases (successful code)) [
      | inl good ↦
          rw (good, after_direct) (after_write-Tried (probed now w) _ refl (λ j. refl) since)
      | inr bad ↦ rw (bad, after_direct) (not_written (λ j. refl))
    ]

    pub attempt-Tried : Tried (attempt site p w)
    unfolding attempt
    attempt-Tried =
        after_direct-Tried
          (single_status site.outside (request_of p.address p.candidate.port p.candidate) w.events)
          (single_status-Extends site (request_of p.address p.candidate.port p.candidate) w.events)

  after_undo_err :
      (e : Error) (run : Run (Unit {0})) (w1 : World)
      → SameRoutes w w1
      → Ends site p.name w (after_undo e run w1)
  unfolding after_undo
  after_undo_err e (raised other now) w1 same = refused same
  after_undo_err e (done _ now) w1 same = refused same

  after_restore-Ends :
      (e : Error) (written : Outcome (Unit {0}))
      → ((x : Error) (w2 : World) → written ≡ (err x, w2) → Ends site p.name w (err x, w2))
      → ((w2 : World) → written ≡ (ok tt, w2) → SameRoutes w w2)
      → Ends site p.name w (after_restore site p e written)
  unfolding after_restore
  after_restore-Ends e (err x, w2) failed back = failed x w2 refl
  after_restore-Ends e (ok _, w2) failed back = after_undo_err e _ w2 (back w2 refl)

  module _
      (held : lookup p.name w.routes ≢ some directory
        → entry_of (previous_content p.previous) ≡ lookup p.name w.routes) where
    roll_back-Ends :
        (e : Error) (w1 : World) → Tried (err e, w1) → Ends site p.name w (roll_back site p e w1)
    unfolding roll_back
    roll_back-Ends e w1 (not_written same) = elim (Bool-cases (is_caught e)) [
      | inl caught ↦
          rw (caught, roll_back)
            (after_restore-Ends e _
              (λ x w2 h.
                let none_changed : SameRoutes w w2 = λ j.
                  rw
                    (write_route-failed site.outside p.name (previous_content p.previous) w1 w2 x h)
                    (same j) in
                refused none_changed)
              (λ w2 h.
                rewritten p.name _ w w1 w2
                  (held
                    (λ d. write_route-ne-directory site.outside p.name _ w1 w2 h (same p.name ∙ d)))
                  same (write_route-file site.outside p.name _ w1 w2 h)))
      | inr missed ↦ rw (missed, roll_back) (refused same)
    ]
    roll_back-Ends e w1 (not_served kind only open_file) = elim (Bool-cases (is_caught e)) [
      | inl caught ↦
          rw (caught, roll_back)
            (after_restore-Ends e _ (λ x w2 h. stuck w1 w2 x only open_file h)
              (λ w2 h.
                restored p.name (previous_content p.previous) (some (render_route p.candidate)) w w1
                  w2 (held open_file) only
                  (write_route-file site.outside p.name (previous_content p.previous) w1 w2 h)))
      | inr missed ↦
          rw (missed, roll_back)
            (unfinished p.candidate only (inl (missed-http_failed e kind missed)))
    ]
      where
        stuck :
            (w1 w2 : World) (x : Error)
            → OnlyChanged p.name (some (render_route p.candidate)) w w1
            → lookup p.name w.routes ≢ some directory
            → write_route site.outside p.name (previous_content p.previous) w1 ≡ (err x, w2)
            → Ends site p.name w (err x, w2)
        stuck w1 w2 x only open_file h =
            let same =
              write_route-failed site.outside p.name (previous_content p.previous) w1 w2 x h in
            let (kind, fails) =
              write_route-over site.outside p.name (previous_content p.previous) w1 w2 x
                (λ d. cc (OnlyChanged-self p.name (some (render_route p.candidate)) w w1 only, d))
                h in
            unfinished p.candidate (λ j. rw same (only j))
              (inr (inr (kind, (previous_content p.previous, held open_file, rw same fails))))

    Served-Later :
        (now later : List Event)
        → Later later now
        → Served site p.name p.candidate w.events now
        → Served site p.name p.candidate w.events later
    Served-Later now later more (code, good, r) = (
      code,
      good,
      record {
        runtime = r.runtime;
        configured = r.configured;
        earlier = r.earlier;
        since = r.since;
        between = r.between;
        answer = r.answer;
        happened = Later-trans later now _ more r.happened;
      },
    )

    after_release-Ends :
        (run : Run (Unit {0})) (w1 : World)
        → OnlyChanged p.name (some (render_route p.candidate)) w w1
        → Served site p.name p.candidate w.events (events run)
        → Ends site p.name w (after_release p run w1)
    unfolding after_release events
    after_release-Ends (raised e now) w1 only up = unfinished p.candidate only (inr (inl up))
    after_release-Ends (done _ now) w1 only up = placed only up

    release_container-Extends :
        (previous : Option (Text × PreviewRoute)) (routes : Dict Entry)
        → Extends (release_container site p previous routes)
    unfolding release_container events
    release_container-Extends none routes start = ([], refl)
    release_container-Extends (some (content, r)) routes start =
        elim (Bool-cases (text_eq r.container_id p.candidate.container_id)) [
          | inl same ↦ rw (same, release_container) ([], refl)
          | inr new ↦
              rw (new, release_container)
                (disconnect_if_unused-Extends site p.runtime r.container_id routes start)
        ]

    pub settle-Ends :
        (tried : Outcome (Unit {0})) → Tried tried → Ends site p.name w (settle site p tried)
    unfolding settle
    settle-Ends (err e, w1) t = roll_back-Ends e w1 t
    settle-Ends (ok _, w1) (served only up) =
        after_release-Ends _ w1 only
          (Served-Later w1.events _ (release_container-Extends p.previous w1.routes w1.events) up)
