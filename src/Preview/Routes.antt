-- ===== src/Preview/Routes.antt =====
-- trie_remote/preview.py: routes, their JSON metadata, and the route files that embed it.
pub mod RoundTrip
pub mod Lines
pub mod Authentic
use remote_worktree_runner.Prelude.{
  ℕ, zero, suc, ◌+◌, ◌-◌, ◌*◌, ◌/◌, ◌%◌, ◌^◌, ◌≤◌, ◌<◌, ◌≡◌, refl, sym, ap, ◌∙◌, ◌≢◌, ◌↔◌, ◌⊎◌, inl,
  inr, Bool, true, false, not, ◌&&◌, ◌||◌, Option, none, some, List, [], ◌∷◌, ◌++◌, map, arith, ltb,
  leb, ◌==◌, if◌then◌else◌, ltb→lt, lt→ltb, leb→le, ==_iff, Bool-cases, Option-cases, length,
  all_of, any_of, take, drop, All, All-append, All-map, all_of-All, All-all_of, Text, codes,
  text_eq, text_eq_refl, text_eq→eq, text_eq_iff, text_eq_cases, one_of, text_ltb, starts_with,
  ends_with, has_char, partition, split, Result, ok, err, ◌>>=◌, ◌>>◌, require, require-ok,
  >>=-eq-ok, Dict, lookup, insert, keys, values, lookup-insert, lookup-insert_self,
  lookup-insert_ne, ℤ, pos, negsuc, is_space, strip_left, strip_right, strip, remove_prefix,
  is_digit, digits_value, parse_int, digits, show_number,
}
use remote_worktree_runner.Errors.{
  Error, type_error, invalid_hostname, invalid_port, invalid_check_path, bad_container_id,
  bad_timestamp, bad_route,
}
use remote_worktree_runner.Common.{validate_identifier}
use remote_worktree_runner.Preview.{validate_hostname, validate_port, validate_check_path}
use remote_worktree_runner.Preview.Slots.{same_keys, sorted_items}

pub record PreviewRoute : Type 0 where
  pub slot : Text
  pub hostname : Text
  pub repository : Text
  pub job_id : Text
  pub project : Text
  pub service : Text
  pub container_id : Text
  pub network_alias : Text
  pub port : ℕ
  pub check_path : Text
  pub published_at : Text

-- A JSON value that is a member of the metadata: a string, an integer, or anything else.
pub data Scalar : Type 0 where
  text : Text → Scalar
  number : ℤ → Scalar
  other : Scalar

-- What the code calls of Python's libraries. `loads` is `json.loads`: the members of an object, or
-- `none` for an error or for a value that is no object. `fromisoformat` says whether the time has a
-- zone, or is `none` for the ValueError.
pub record Python : Type 0 where
  pub loads : Text → Option (Dict Scalar)
  pub fromisoformat : Text → Option Bool

-- [0-9a-f]
unfoldable pub is_hex : ℕ → Bool
is_hex c = is_digit c || (leb b'a' c && leb c b'f')

-- CONTAINER_ID_PATTERN.fullmatch(value)
unfoldable pub is_container_id : Text → Bool
unfolding is_hex
is_container_id value = length value == 64 && all_of is_hex value

-- A member that a check wants to be a string; `error` is what it raises for any other.
abbrev pub as_text : Error → Option Scalar → Result Error Text
as_text error (some (text t)) = ok t
as_text error _ = err error

abbrev pub as_number : Option Scalar → Result Error ℤ
as_number (some (number n)) = ok n
as_number _ = err invalid_port

unfoldable pub check_timestamp : Option Bool → Result Error (Unit {0})
check_timestamp none = err bad_timestamp
check_timestamp (some zoned) = require zoned bad_timestamp

-- A member whose value is an identifier.
unfoldable pub identifier_of : Text → Dict Scalar → Result Error Text
identifier_of key raw = as_text type_error (lookup key raw) >>= validate_identifier

-- The first six checks: slot, host name, repository, job, project and service.
unfoldable pub owner_fields : Dict Scalar → Result Error (Text × Text × Text × Text × Text × Text)
unfolding identifier_of
owner_fields raw = do
  slot ← identifier_of (codes "slot") raw
  hostname ← as_text invalid_hostname (lookup (codes "hostname") raw)
  h ← validate_hostname hostname
  repository ← identifier_of (codes "repository") raw
  job_id ← identifier_of (codes "job_id") raw
  project ← identifier_of (codes "project") raw
  service ← identifier_of (codes "service") raw
  ok (slot, hostname, repository, job_id, project, service)

-- The next four: container, alias, port and check path.
unfoldable pub target_fields : Dict Scalar → Result Error (Text × Text × ℕ × Text)
unfolding identifier_of is_container_id
target_fields raw = do
  container_id ← as_text type_error (lookup (codes "container_id") raw)
  require (is_container_id container_id) bad_container_id
  network_alias ← identifier_of (codes "network_alias") raw
  n ← as_number (lookup (codes "port") raw)
  port ← validate_port n
  check_path ← as_text invalid_check_path (lookup (codes "check_path") raw)
  p ← validate_check_path check_path
  ok (container_id, network_alias, port, check_path)

unfoldable pub timestamp_field : Python → Dict Scalar → Result Error Text
unfolding check_timestamp
timestamp_field python raw = do
  published_at ← as_text type_error (lookup (codes "published_at") raw)
  check_timestamp (python.fromisoformat published_at)
  ok published_at

-- PreviewRoute(**raw), with the checks of `__post_init__` in their order.
unfoldable pub preview_route : Python → Dict Scalar → Result Error PreviewRoute
unfolding owner_fields target_fields timestamp_field
preview_route python raw = do
  owner ← owner_fields raw
  target ← target_fields raw
  published_at ← timestamp_field python raw
  ok (record {
    slot = owner.0;
    hostname = owner.1;
    repository = owner.2;
    job_id = owner.3;
    project = owner.4;
    service = owner.5;
    container_id = target.0;
    network_alias = target.1;
    port = target.2;
    check_path = target.3;
    published_at = published_at;
  })

-- dataclasses.asdict(route)
unfoldable pub asdict : PreviewRoute → Dict Scalar
asdict r =
    (codes "slot", text r.slot)
    ∷ (codes "hostname", text r.hostname)
    ∷ (codes "repository", text r.repository)
    ∷ (codes "job_id", text r.job_id)
    ∷ (codes "project", text r.project)
    ∷ (codes "service", text r.service)
    ∷ (codes "container_id", text r.container_id)
    ∷ (codes "network_alias", text r.network_alias)
    ∷ (codes "port", number (pos r.port))
    ∷ (codes "check_path", text r.check_path)
    ∷ (codes "published_at", text r.published_at)
    ∷ []

abbrev pub route_fields : List Text
route_fields =
    codes "slot"
    ∷ codes "hostname"
    ∷ codes "repository"
    ∷ codes "job_id"
    ∷ codes "project"
    ∷ codes "service"
    ∷ codes "container_id"
    ∷ codes "network_alias"
    ∷ codes "port"
    ∷ codes "check_path"
    ∷ codes "published_at"
    ∷ []

unfoldable pub hex_digit : ℕ → ℕ
hex_digit n = if ltb n 10 then b'0' + n else b'a' + (n - 10)

-- "\\u%04x"
unfoldable pub unicode_escape : ℕ → Text
unfolding hex_digit
unicode_escape n =
    b'\\'
    ∷ b'u'
    ∷ hex_digit (n / 4096 % 16)
    ∷ hex_digit (n / 256 % 16)
    ∷ hex_digit (n / 16 % 16)
    ∷ hex_digit (n % 16)
    ∷ []

-- What stands after the backslash of a two-character escape.
unfoldable pub short_escape : ℕ → Option ℕ
short_escape c =
    if c == b'"' || c == b'\\'
    then some c
    else if c == 10
    then some b'n'
    else if c == 13
    then some b'r'
    else if c == 9
    then some b't'
    else if c == 12
    then some b'f'
    else if c == 8
    then some b'b'
    else none

-- Beyond 16 bits, the two halves of the surrogate pair.
unfoldable pub wide_escape : ℕ → Text
unfolding unicode_escape
wide_escape c =
    if ltb c 65536
    then unicode_escape c
    else unicode_escape (55296 + (c - 65536) / 1024) ++ unicode_escape (56320 + (c - 65536) % 1024)

unfoldable pub escape_from : ℕ → Option ℕ → Text
unfolding wide_escape
escape_from c (some d) = b'\\' ∷ d ∷ []
escape_from c none = if leb 32 c && leb c 126 then c ∷ [] else wide_escape c

-- One character of a JSON string.
unfoldable pub escape_char : ℕ → Text
unfolding escape_from short_escape
escape_char c = escape_from c (short_escape c)

unfoldable pub escape : Text → Text
unfolding escape_char
escape [] = []
escape (c ∷ s) = escape_char c ++ escape s

abbrev pub quoted : Text → Text
quoted s = b'"' ∷ (escape s ++ b'"' ∷ [])

unfoldable pub dump_scalar : Scalar → Text
unfolding escape show_number
dump_scalar (text t) = quoted t
dump_scalar (number (pos n)) = show_number n
dump_scalar (number (negsuc n)) = b'-' ∷ show_number (suc n)
dump_scalar other = codes "null"

unfoldable pub dump_members : Dict Scalar → Text
unfolding dump_scalar escape
dump_members [] = []
dump_members ((k, v) ∷ []) = quoted k ++ b':' ∷ dump_scalar v
dump_members ((k, v) ∷ m ∷ ms) = quoted k ++ b':' ∷ (dump_scalar v ++ b',' ∷ dump_members (m ∷ ms))

-- json.dumps(value, sort_keys=True, separators=(",", ":"))
unfoldable pub dumps : Dict Scalar → Text
unfolding dump_members sorted_items
dumps value = b'{' ∷ (dump_members (sorted_items value) ++ b'}' ∷ [])

abbrev pub route_metadata_prefix : Text
route_metadata_prefix = codes "# remote-worktree-runner-preview: "

-- The lines of a route file below the first one.
unfoldable pub route_body : PreviewRoute → Text
unfolding show_number
route_body r =
    let name = codes "preview-" ++ r.slot in
    codes "http:\n  routers:\n    "
    ++ (name
        ++ (codes ":\n      entryPoints:\n        - web\n      rule: \"Host(`"
            ++ (r.hostname
                ++ (codes "`)\"\n      service: "
                    ++ (name
                        ++ (codes "\n  services:\n    "
                            ++ (name
                                ++ (codes ":\n      loadBalancer:\n        servers:\n"
                                    ++ (codes "          - url: \"http://"
                                        ++ (r.network_alias
                                            ++ b':' ∷ (show_number r.port ++ codes "\"\n")))))))))))

unfoldable pub render_route : PreviewRoute → Text
unfolding dumps asdict route_body
render_route route = route_metadata_prefix ++ (dumps (asdict route) ++ 10 ∷ route_body route)

-- The route that the metadata describe, if the file is what that route renders to.
authenticated : Python → Text → Option (Dict Scalar) → Result Error PreviewRoute
unfolding same_keys
authenticated python content none = err bad_route
authenticated python content (some raw) = do
  require (same_keys (keys raw) route_fields) bad_route
  route ← preview_route python raw
  require (text_eq (render_route route) content) bad_route
  ok route

first_line : Python → Text → Text → Option Text → Result Error PreviewRoute
unfolding authenticated
first_line python content line none = err bad_route
first_line python content line (some remainder) =
    if starts_with line route_metadata_prefix
    then authenticated python content (python.loads (remove_prefix route_metadata_prefix line))
    else err bad_route

unfoldable pub parse_route : Python → Text → Result Error PreviewRoute
unfolding first_line
parse_route python content =
    let parts = partition 10 content in first_line python content parts.0 parts.1
