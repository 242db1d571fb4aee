-- ===== src/Preview.antt =====
-- trie_remote/preview.py: host names, ports and check paths, and the slots, the gateway and the
-- routes that are made of them.
pub mod Tests
pub mod Slots
pub mod Gateway
pub mod Routes
pub mod Checks
pub mod Distinct
pub mod Stored
use remote_worktree_runner.Prelude.{
  ℕ, zero, suc, ◌+◌, ◌-◌, ◌*◌, ◌/◌, ◌%◌, ◌^◌, ◌≤◌, ◌<◌, ◌≡◌, refl, sym, ap, ◌∙◌, ◌≢◌, ◌↔◌, ◌⊎◌, inl,
  inr, Bool, true, false, not, ◌&&◌, ◌||◌, Option, none, some, List, [], ◌∷◌, ◌++◌, map, arith, ltb,
  leb, ◌==◌, if◌then◌else◌, ltb→lt, lt→ltb, leb→le, ==_iff, Bool-cases, Option-cases, length,
  all_of, any_of, take, drop, All, All-append, All-map, all_of-All, All-all_of, Text, codes,
  text_eq, text_eq_refl, text_eq→eq, text_eq_iff, text_eq_cases, one_of, text_ltb, starts_with,
  ends_with, has_char, partition, split, Result, ok, err, ◌>>=◌, ◌>>◌, require, require-ok,
  >>=-eq-ok, Dict, lookup, insert, keys, values, lookup-insert, lookup-insert_self,
  lookup-insert_ne, ℤ, pos, negsuc, is_space, strip_left, strip_right, strip, remove_prefix,
  is_digit, digits_value, parse_int, digits, show_number,
}
use remote_worktree_runner.Errors.{
  Error, invalid_hostname, invalid_port, invalid_check_path, bad_gateway,
}
use remote_worktree_runner.Common.{is_alnum, is_identifier_char, validate_identifier}

-- What stands after the first character of a label: at most 62 of [a-z0-9-], the last no hyphen.
unfoldable pub is_label_rest : Text → Bool
unfolding is_alnum is_identifier_char
is_label_rest [] = true
is_label_rest (c ∷ []) = is_alnum c
is_label_rest (c ∷ d ∷ s) = is_identifier_char c && is_label_rest (d ∷ s)

-- HOST_LABEL_PATTERN.fullmatch(label)
unfoldable pub is_host_label : Text → Bool
unfolding is_alnum is_label_rest
is_host_label [] = false
is_host_label (c ∷ s) = is_alnum c && (is_label_rest s && leb (length s) 62)

unfoldable pub validate_hostname : Text → Result Error Text
unfolding is_host_label
validate_hostname value =
    if ltb 253 (length value) || ends_with value (codes ".")
    then err invalid_hostname
    else let labels = split b'.' value in
      if ltb (length labels) 2 || not (all_of is_host_label labels)
      then err invalid_hostname
      else ok value

unfoldable pub validate_port : ℤ → Result Error ℕ
validate_port (negsuc n) = err invalid_port
validate_port (pos n) = if leb 1 n && leb n 65535 then ok n else err invalid_port

-- The parts of `urlsplit(value)`, for a value that begins with `/`: such a value has no scheme.
pub record SplitUrl : Type 0 where
  pub netloc : Text
  pub path : Text
  pub query : Text
  pub fragment : Text

abbrev pub after_or_empty : Text × Option Text → Text
after_or_empty (before, none) = []
after_or_empty (before, some rest) = rest

-- `urlsplit` drops the tabs and the line ends first.
unfoldable pub without_blanks : Text → Text
without_blanks [] = []
without_blanks (c ∷ s) =
    let rest = without_blanks s in if c == 9 || (c == 10 || c == 13) then rest else c ∷ rest

-- What stands before the first of `/`, `?` and `#`, and the rest from there on.
unfoldable pub split_netloc : Text → Text × Text
split_netloc [] = ([], [])
split_netloc (c ∷ s) =
    let (host, rest) = split_netloc s in
    if c == b'/' || (c == b'?' || c == b'#') then ([], c ∷ s) else (c ∷ host, rest)

abbrev pub take_netloc : Text → Text × Text
take_netloc url = if starts_with url (codes "//") then split_netloc (drop 2 url) else ([], url)

unfoldable pub urlsplit : Text → SplitUrl
unfolding without_blanks split_netloc
urlsplit value =
    let (host, url) = take_netloc (without_blanks value) in
    let parts = partition b'#' url in
    let location = partition b'?' parts.0 in
    record {
      netloc = host;
      path = location.0;
      query = after_or_empty location;
      fragment = after_or_empty parts;
    }

abbrev pub is_empty : Text → Bool
is_empty [] = true
is_empty (c ∷ s) = false

unfoldable pub validate_check_path : Text → Result Error Text
unfolding urlsplit
validate_check_path value =
    if has_char 13 value || has_char 10 value
    then err invalid_check_path
    else let parsed = urlsplit value in
      if not (starts_with value (codes "/"))
        || (starts_with value (codes "//")
            || (not (is_empty parsed.netloc)
                || (not (is_empty parsed.query) || not (is_empty parsed.fragment))))
      then err invalid_check_path
      else ok value

pub record PreviewSlot : Type 0 where
  pub slot : Text
  pub hostname : Text
  pub repository : Text

-- PreviewSlot(…)
unfoldable pub preview_slot : Text → Text → Text → Result Error PreviewSlot
unfolding validate_hostname
preview_slot slot hostname repository = do
  s ← validate_identifier slot
  h ← validate_hostname hostname
  r ← validate_identifier repository
  ok (record { slot = slot; hostname = hostname; repository = repository })

pub record GatewayRuntime : Type 0 where
  pub bind_host : Text
  pub bind_port : ℕ
  pub edge_network : Text

-- GatewayRuntime(…)
unfoldable pub gateway_runtime : Text → ℤ → Text → Result Error GatewayRuntime
unfolding validate_port
gateway_runtime bind_host bind_port edge_network = do
  require (text_eq bind_host (codes "127.0.0.1")) bad_gateway
  port ← validate_port bind_port
  require (leb 1024 port && leb port 65535) bad_gateway
  network ← validate_identifier edge_network
  ok (record { bind_host = bind_host; bind_port = port; edge_network = edge_network })
