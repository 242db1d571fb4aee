-- ===== src/PreviewRegistry/Probe.antt =====
-- What the registry does outside its own files: Docker commands and HTTP requests. Both are
-- answered from outside, so a step reads the answer off what has happened so far.
use remote_worktree_runner.Prelude.{
  ℕ, zero, suc, Bool, true, false, ◌&&◌, ◌||◌, Option, none, some, List, ◌∷◌, leb, Text,
}
use remote_worktree_runner.Effects.{Ended, done, raised}
use remote_worktree_runner.Errors.{encode_failed, docker_failed, http_failed, os_error}

-- `status_request(address, port, path, host_header, timeout)`, whose timeout is always 3.0.
pub record Request : Type 0 where
  pub address : Text
  pub port : ℕ
  pub path : Text
  pub host : Text

-- A Docker command, a request, or a route file written or (`none`) removed.
pub data Event : Type 0 where
  docker : List Text → Event
  request : Request → Event
  wrote : Text → Option Text → Event

-- A response, an OSError, an exception of `http.client` that is neither an OSError nor a
-- ValueError, or the ValueError for a path that is not ASCII.
pub data HttpAnswer : Type 0 where
  status : ℕ → HttpAnswer
  os_failure http_failure value_failure : HttpAnswer

-- The world outside, which sees what has happened, the newest event first. `run_docker` is the
-- standard output, or `none` for a CalledProcessError. `write_fails` says whether the file system
-- refuses a write of a route file, or its removal, with an OSError.
pub record Outside : Type 0 where
  pub run_docker : List Event → List Text → Option Text
  pub http_status : List Event → Request → HttpAnswer
  pub write_fails : List Event → Text → Option Text → Bool

-- How a step of the registry ended.
abbrev pub Run {ℓ} : Type ℓ → Type ℓ
Run A = Ended Event A

-- Steps that ask the outside and leave the route files alone.
abbrev pub Probe {ℓ} : Type ℓ → Type ℓ
Probe A = List Event → Run A

-- PreviewRegistry._successful
abbrev pub successful : ℕ → Bool
successful code = leb 200 code && leb code 399

-- One round of the loops below, on the answer; `again` makes the rounds left.
unfoldable pub poll_round : (ℕ → Bool) → (ℕ → Probe ℕ) → ℕ → HttpAnswer → Probe ℕ
poll_round stop again last (status code) happened = elim (stop code) [
  | true ↦ done code happened
  | false ↦ again code happened
]
poll_round stop again last os_failure happened = again last happened
poll_round stop again last http_failure happened = raised http_failed happened
poll_round stop again last value_failure happened = raised encode_failed happened

abbrev pub attempts : ℕ
attempts = 20

module _ (outside : Outside) where
  -- PreviewRegistry._run_docker
  unfoldable pub run_docker : List Text → Probe Text
  run_docker arguments happened = elim (outside.run_docker happened arguments) [
    | none ↦ raised docker_failed (docker arguments ∷ happened)
    | some output ↦ done output (docker arguments ∷ happened)
  ]

  -- At most so many requests, until one is answered with a status that `stop` takes; else the last
  -- status that came, or 0. The waits between the rounds are left out.
  unfoldable pub poll_status : ℕ → (ℕ → Bool) → Request → ℕ → Probe ℕ
  unfolding poll_round
  poll_status zero stop r last happened = done last happened
  poll_status (suc attempts) stop r last happened =
      poll_round stop (poll_status attempts stop r) last (outside.http_status happened r)
        (request r ∷ happened)

  -- PreviewRegistry._status, for one request.
  unfoldable pub single_status : Request → Probe ℕ
  single_status r happened = elim (outside.http_status happened r) [
    | status code ↦ done code (request r ∷ happened)
    | os_failure ↦ raised os_error (request r ∷ happened)
    | http_failure ↦ raised http_failed (request r ∷ happened)
    | value_failure ↦ raised encode_failed (request r ∷ happened)
  ]

  -- PreviewRegistry._gateway_status
  unfoldable pub gateway_status : Request → Probe ℕ
  unfolding poll_status
  gateway_status r = poll_status attempts (λ code. successful code || leb 500 code) r 0

  -- PreviewRegistry._wait_for_status
  unfoldable pub wait_for_status : Request → (ℕ → Bool) → Probe ℕ
  unfolding poll_status
  wait_for_status r expected = poll_status attempts expected r 0
