-- ===== src/Preview/Gateway.antt =====
-- trie_remote/preview.py: `load_gateway_runtime`, the reader of gateway.env.
use remote_worktree_runner.Prelude.{
  ℕ, Bool, true, false, ◌&&◌, ◌||◌, Option, none, some, List, [], ◌∷◌, leb, ◌==◌, if◌then◌else◌,
  Text, codes, one_of, partition, Result, ok, err, ◌>>=◌, ◌>>◌, require, Dict, lookup, insert, keys,
  ℤ, parse_int,
}
use remote_worktree_runner.Errors.{Error, bad_gateway_file}
use remote_worktree_runner.Preview.{GatewayRuntime, gateway_runtime}
use remote_worktree_runner.Preview.Slots.{is_known, same_keys, member}

-- The line ends of `splitlines`; `read_text` has turned \r into \n.
unfoldable pub is_line_end : ℕ → Bool
is_line_end c =
    (leb 10 c && leb c 12) || ((leb 28 c && leb c 30) || (c == 133 || (leb 8232 c && leb c 8233)))

-- text.splitlines(): a line end that closes the text begins no further line.
unfoldable pub split_lines : Text → List Text
unfolding is_line_end
split_lines [] = []
split_lines (c ∷ s) = elim (is_line_end c) [
  | true ↦ [] ∷ split_lines s
  | false ↦ elim (split_lines s) [ [] ↦ (c ∷ []) ∷ [] | w ∷ ws ↦ (c ∷ w) ∷ ws ]
]

abbrev pub ignored_gateway_keys : List Text
ignored_gateway_keys = codes "TRAEFIK_IMAGE" ∷ []

abbrev pub runtime_gateway_keys : List Text
runtime_gateway_keys =
    codes "GATEWAY_BIND_HOST" ∷ codes "GATEWAY_BIND_PORT" ∷ codes "GATEWAY_EDGE_NETWORK" ∷ []

-- One round of the loop, on the two parts of the line.
add_entry : Text → Option Text → Dict Text → Result Error (Dict Text)
add_entry key none entries = err bad_gateway_file
add_entry key (some value) entries =
    if is_known (lookup key entries)
    then err bad_gateway_file
    else if one_of key ignored_gateway_keys
    then ok entries
    else if one_of key runtime_gateway_keys
    then ok (insert key value entries)
    else err bad_gateway_file

unfoldable pub read_entries : List Text → Dict Text → Result Error (Dict Text)
unfolding add_entry
read_entries [] entries = ok entries
read_entries (line ∷ lines) entries =
    let parts = partition b'=' line in
    add_entry parts.0 parts.1 entries >>= λ more. read_entries lines more

bind_port : Option ℤ → Result Error ℤ
bind_port none = err bad_gateway_file
bind_port (some port) = ok port

-- `none` stands for a file that cannot be read.
unfoldable pub load_gateway_runtime : Option Text → Result Error GatewayRuntime
unfolding split_lines read_entries same_keys bind_port gateway_runtime
load_gateway_runtime none = err bad_gateway_file
load_gateway_runtime (some text) = do
  entries ← read_entries (split_lines text) []
  require (same_keys (keys entries) runtime_gateway_keys) bad_gateway_file
  port ← bind_port (parse_int (member (lookup (codes "GATEWAY_BIND_PORT") entries)))
  gateway_runtime (member (lookup (codes "GATEWAY_BIND_HOST") entries)) port
      (member (lookup (codes "GATEWAY_EDGE_NETWORK") entries))
