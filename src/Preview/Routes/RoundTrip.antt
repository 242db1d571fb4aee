-- ===== src/Preview/Routes/RoundTrip.antt =====
-- A route file is read back as the route that it was rendered from, and only such files are read.
use remote_worktree_runner.Preview.Routes.{
  target_fields, timestamp_field, owner_fields, PreviewRoute, Scalar, Python, preview_route, asdict,
  identifier_of,
}
use remote_worktree_runner.Prelude.{◌≡◌, arith, text_eq, ok, >>=-eq-ok, Dict, lookup}
use remote_worktree_runner.Common.{validate_identifier}
use remote_worktree_runner.Preview.{validate_port}

owner_fields-asdict :
    (raw : Dict Scalar) (r : PreviewRoute)
    → owner_fields raw ≡ ok (r.slot, r.hostname, r.repository, r.job_id, r.project, r.service)
    → owner_fields (asdict r) ≡ owner_fields raw
unfolding owner_fields identifier_of validate_identifier asdict lookup text_eq
owner_fields-asdict raw r h = ground arith

target_fields-asdict :
    (raw : Dict Scalar) (r : PreviewRoute)
    → target_fields raw ≡ ok (r.container_id, r.network_alias, r.port, r.check_path)
    → target_fields (asdict r) ≡ target_fields raw
unfolding target_fields identifier_of validate_identifier validate_port asdict lookup text_eq
target_fields-asdict raw r h = ground arith

timestamp_field-asdict :
    (python : Python) (raw : Dict Scalar) (r : PreviewRoute)
    → timestamp_field python raw ≡ ok r.published_at
    → timestamp_field python (asdict r) ≡ timestamp_field python raw
unfolding timestamp_field asdict lookup text_eq
timestamp_field-asdict python raw r h = ground arith

-- A route that was made can be made again from its own fields.
pub preview_route-asdict :
    (python : Python) (raw : Dict Scalar) (r : PreviewRoute)
    → preview_route python raw ≡ ok r
    → preview_route python (asdict r) ≡ ok r
unfolding preview_route
preview_route-asdict python raw r h =
    let (owner, e1, h1) = >>=-eq-ok (owner_fields raw) _ h in
    let (target, e2, h2) = >>=-eq-ok (target_fields raw) _ h1 in
    let (time, e3, h3) = >>=-eq-ok (timestamp_field python raw) _ h2 in
    ground (
      arith,
      owner_fields-asdict raw r,
      target_fields-asdict raw r,
      timestamp_field-asdict python raw r,
    )
