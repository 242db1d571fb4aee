-- ===== src/Errors.antt =====
-- The exceptions that src/trie_remote raises, a constructor for each kind of `raise`. The message
-- texts are left out; the class decides which `except` clause catches.
use remote_worktree_runner.Prelude.{Bool, true, false, ℤ}

pub data Error : Type 0 where
  -- common.py
  invalid_identifier path_escapes : Error
  -- job_store.py
  bad_weight bad_workload bad_argv bad_overlay_roles bad_commit_roles invalid_transition : Error
  file_exists file_missing : Error
  -- scheduler.py
  bad_capacity admission_rejected scheduler_cancelled unreadable_ticket ticket_field_missing : Error
  -- server_cli.py
  repository_not_allowed primary_mismatch roles_mismatch unexpected_workspace : Error
  reservation_mismatch not_preparing not_final start_failed unknown_job : Error
  -- server_workspace.py
  not_bare bad_commit commit_missing commits_mismatch workspace_changed : Error
  git_failed mirror_not_ready worktree_stays key_missing : Error
  -- docker_policy.py, port_policy.py
  docker_policy port_conflict : Error
  -- overlay.py
  invalid_overlay_path overlay_submodule overlay_truncated overlay_escapes overlay_not_file : Error
  -- config.py, local_cli.py
  no_repositories bad_integer bad_max_heavy_jobs : Error
  empty_command bad_reply detached interrupted : Error
  undecodable spawn_rejected : Error
  process_failed process_garbled : ℤ → Error
  bad_include daemon_control unsupported_workload exclusive_required : Error
  -- preview.py, preview_registry.py
  invalid_hostname invalid_port invalid_check_path bad_gateway bad_container_id : Error
  bad_timestamp bad_slot_spec duplicate_slot duplicate_hostname bad_slot_file bad_gateway_file :
      Error
  bad_route type_error no_gateway bad_route_path unknown_slot not_slot_owner bad_projects : Error
  not_project_owner bad_container bad_networks check_failed not_published not_preview_owner : Error
  still_active owns_previews docker_failed http_failed encode_failed os_error : Error

-- `except ValueError`; `PolicyError` and `PortConflictError` derive from it.
abbrev pub is_value_error : Error → Bool
is_value_error file_exists = false
is_value_error file_missing = false
is_value_error admission_rejected = false
is_value_error scheduler_cancelled = false
is_value_error ticket_field_missing = false
is_value_error start_failed = false
is_value_error os_error = false
is_value_error detached = false
is_value_error interrupted = false
is_value_error (process_failed code) = false
is_value_error (process_garbled code) = false
is_value_error git_failed = false
is_value_error mirror_not_ready = false
is_value_error worktree_stays = false
is_value_error key_missing = false
is_value_error type_error = false
is_value_error docker_failed = false
is_value_error http_failed = false
is_value_error overlay_truncated = false
is_value_error _ = true
