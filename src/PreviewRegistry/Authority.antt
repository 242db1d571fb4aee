-- ===== src/PreviewRegistry/Authority.antt =====
-- trie_remote/preview_registry.py: who may hand over which slot, and what `publish` compares.
use remote_worktree_runner.Prelude.{
  ℕ, Bool, true, ◌&&◌, Option, none, some, ◌∷◌, ◌==◌, Text, text_eq, one_of, Result, ok, err, ◌>>=◌,
  ◌>>◌, require, lookup, values, ℤ,
}
use remote_worktree_runner.Errors.{
  Error, is_value_error, unknown_slot, not_slot_owner, not_project_owner, os_error, file_exists,
  file_missing,
}
use remote_worktree_runner.Common.{validate_identifier}
use remote_worktree_runner.JobStore.{load}
use remote_worktree_runner.Preview.{PreviewSlot, validate_port, validate_check_path}
use remote_worktree_runner.Preview.Routes.{PreviewRoute, Python, parse_route}
use remote_worktree_runner.PreviewRegistry.Site.{
  Entry, file, Site, lock, configured_slots, allowed_projects,
}

-- The arguments of `publish`.
pub record Handoff : Type 0 where
  pub job_id : Text
  pub slot : Text
  pub project : Text
  pub service : Text
  pub port : ℤ
  pub check_path : Text

unfoldable pub known_slot : Option PreviewSlot → Result Error PreviewSlot
known_slot none = err unknown_slot
known_slot (some s) = ok s

-- The checks of `publish` that ask nothing outside: its arguments, the slot, and what the job's
-- spec and its recorded projects allow. They return the slot's entry and the port.
unfoldable pub authorize : Site → Handoff → Result Error (PreviewSlot × ℕ)
unfolding known_slot
authorize site q = do
  job ← validate_identifier q.job_id
  slot ← validate_identifier q.slot
  project ← validate_identifier q.project
  service ← validate_identifier q.service
  port ← validate_port q.port
  path ← validate_check_path q.check_path
  lock site
  slots ← configured_slots site
  configured ← known_slot (lookup slot slots)
  spec ← load site.now job site.store
  require (one_of configured.repository (spec.repository ∷ values spec.includes)) not_slot_owner
  projects ← allowed_projects job spec.repository site.store
  require (one_of project projects) not_project_owner
  ok (configured, port)

unfoldable pub parsed :
    Text → Result Error PreviewRoute → Result Error (Option (Text × PreviewRoute))
parsed content (ok r) = ok (some (content, r))
parsed content (err e) = err e

-- The route file's content and its route, if a file is there.
unfoldable pub read_previous : Python → Option Entry → Result Error (Option (Text × PreviewRoute))
unfolding parsed
read_previous python (some (file content)) = parsed content (parse_route python content)
read_previous python _ = ok none

-- The fields that are compared, all but `published_at`.
unfoldable pub same_handoff : PreviewRoute → PreviewRoute → Bool
same_handoff r s =
    text_eq r.slot s.slot
    && (text_eq r.hostname s.hostname
        && (text_eq r.repository s.repository
            && (text_eq r.job_id s.job_id
                && (text_eq r.project s.project
                    && (text_eq r.service s.service
                        && (text_eq r.container_id s.container_id
                            && (text_eq r.network_alias s.network_alias
                                && (r.port == s.port && text_eq r.check_path s.check_path))))))))

-- except (OSError, ValueError)
unfoldable pub is_caught : Error → Bool
is_caught os_error = true
is_caught file_exists = true
is_caught file_missing = true
is_caught e = is_value_error e
