-- ===== src/Overlay.antt =====
-- trie_remote/overlay.py: which files of a worktree are transferred, and which are deleted.
pub mod Safety
pub mod Tests
pub mod Deletion
use remote_worktree_runner.Prelude.{
  Bool, false, not, ◌&&◌, ◌||◌, Option, none, some, List, [], ◌∷◌, ◌++◌, ◌==◌, if◌then◌else◌,
  any_of, Text, codes, text_eq, one_of, text_ltb, starts_with, ends_with, has_char, partition,
  split, Result, ok, err, ◌>>=◌, ◌>>◌, require,
}
use remote_worktree_runner.Errors.{
  Error, invalid_overlay_path, overlay_submodule, overlay_truncated, overlay_escapes,
  overlay_not_file,
}
use remote_worktree_runner.Common.{FilePath, path_eq, is_relative_to}
use remote_worktree_runner.JobStore.Spec.{OverlayManifest}

-- component in {"", ".", ".."}
unfoldable pub is_relative_name : Text → Bool
is_relative_name component = one_of component ([] ∷ codes "." ∷ codes ".." ∷ [])

-- value.startswith("/") or a NUL, a line feed or a carriage return in it
unfoldable pub has_bad_character : Text → Bool
has_bad_character value =
    starts_with value (codes "/") || (has_char 0 value || (has_char 10 value || has_char 13 value))

unfoldable pub is_overlay_path : Text → Bool
is_overlay_path [] = false
is_overlay_path (c ∷ value) =
    not (has_bad_character (c ∷ value)) && not (any_of is_relative_name (split b'/' (c ∷ value)))

-- What passes the tests is relative and already normal: `PurePosixPath` does not change it.
unfoldable pub validate_overlay_path : Text → Result Error Text
validate_overlay_path value = if is_overlay_path value then ok value else err invalid_overlay_path

-- One line of the exclude file: operation == "-" and separator and pattern.
unfoldable pub pattern_of : Text × Option Text → Option Text
pattern_of (operation, none) = none
pattern_of (operation, some []) = none
pattern_of (operation, some (c ∷ pattern)) =
    if text_eq operation (codes "-") then some (c ∷ pattern) else none

unfoldable pub exclude_patterns : List Text → List Text
exclude_patterns [] = []
exclude_patterns (line ∷ lines) = elim (pattern_of (partition b' ' line)) [
  | none ↦ exclude_patterns lines
  | some pattern ↦ pattern ∷ exclude_patterns lines
]

-- pattern.rstrip("/")
unfoldable pub strip_slashes : Text → Text
strip_slashes [] = []
strip_slashes (c ∷ s) = elim (strip_slashes s) [
  | [] ↦ (if c == b'/' then [] else c ∷ [])
  | d ∷ t ↦ c ∷ d ∷ t
]

-- `fnmatch` is `fnmatch.fnmatchcase`, a name and then a pattern.
unfoldable pub matches : (Text → Text → Bool) → Text → Text → Bool
matches fnmatch path pattern =
    let normalized = strip_slashes pattern in
    if has_char b'/' normalized
    then fnmatch path normalized
      || (ends_with pattern (codes "/") && starts_with path (normalized ++ codes "/"))
    else any_of (λ component. fnmatch component normalized) (split b'/' path)

unfoldable pub is_excluded : (Text → Text → Bool) → List Text → Text → Bool
is_excluded fnmatch patterns path = any_of (matches fnmatch path) patterns

-- `set.add`; the sets are kept as `sorted` returns them.
unfoldable pub add : Text → List Text → List Text
add path [] = path ∷ []
add path (p ∷ ps) =
    if text_eq path p then p ∷ ps else if text_ltb path p then path ∷ p ∷ ps else p ∷ add path ps

-- The lines of the exclude file, and what `fnmatch.fnmatchcase` and
-- `git ls-files --stage -z -- path` return.
pub record Tree : Type 0 where
  pub fnmatch : Text → Text → Bool
  pub exclude_file : List Text
  pub stage : Text → Text

unfoldable pub is_submodule : Tree → Text → Bool
is_submodule tree path = starts_with (tree.stage path) (codes "160000 ")

unfoldable pub add_unless : Tree → Text → List Text → List Text
add_unless tree path paths =
    if is_excluded tree.fnmatch (exclude_patterns tree.exclude_file) path
    then paths
    else add path paths

unfoldable pub transfer_path : Tree → Text → OverlayManifest → OverlayManifest
transfer_path tree path m = record m { transfer = add_unless tree path m.transfer }

unfoldable pub delete_path : Tree → Text → OverlayManifest → OverlayManifest
delete_path tree path m = record m { delete = add_unless tree path m.delete }

unfoldable pub check_submodule : Tree → Text → Result Error (Unit {0})
check_submodule tree path = require (not (is_submodule tree path)) overlay_submodule

-- Where the loop stands between two fields of `git diff --name-status -z`.
pub data Expect : Type 0 where
  status_field : Expect
  first_path : Text → Expect
  second_path : Text → Text → Expect

abbrev pub has_two_paths : Text → Bool
has_two_paths status = starts_with status (codes "R") || starts_with status (codes "C")

-- The entry of one path.
unfoldable pub enter_one : Tree → Text → Text → OverlayManifest → Result Error OverlayManifest
enter_one tree status path m = do
  check_submodule tree path
  ok (if starts_with status (codes "D") then delete_path tree path m else transfer_path tree path m)

-- The entry of a rename or a copy.
unfoldable pub enter_two :
    Tree → Text → Text → Text → OverlayManifest → Result Error OverlayManifest
enter_two tree status first second m = do
  check_submodule tree first
  check_submodule tree second
  ok (
      transfer_path tree second
        (if starts_with status (codes "R") then delete_path tree first m else m))

unfoldable pub begin_entry :
    Tree → Text → Text → OverlayManifest → Result Error (Expect × OverlayManifest)
begin_entry tree status first m =
    if has_two_paths status
    then ok (second_path status first, m)
    else (enter_one tree status first m >>= λ m'. ok (status_field, m'))

-- The first path of an entry is read.
unfoldable pub take_first :
    Tree → Text → Text → OverlayManifest → Result Error (Expect × OverlayManifest)
take_first tree status value m = do
  first ← validate_overlay_path value
  begin_entry tree status first m

-- if "\t" in status: status, first_path = status.split("\t", 1)
unfoldable pub take_status :
    Tree → Text × Option Text → OverlayManifest → Result Error (Expect × OverlayManifest)
take_status tree (status, none) m = ok (first_path status, m)
take_status tree (status, some first) m = take_first tree status first m

unfoldable pub take_field :
    Tree → Expect → Text → OverlayManifest → Result Error (Expect × OverlayManifest)
take_field tree status_field field m = take_status tree (partition 9 field) m
take_field tree (first_path status) field m = take_first tree status field m
take_field tree (second_path status first) field m = do
  second ← validate_overlay_path field
  m' ← enter_two tree status first second m
  ok (status_field, m')

-- The loop over the fields; an entry that is cut off is an IndexError.
unfoldable pub scan : Tree → List Text → Expect × OverlayManifest → Result Error OverlayManifest
scan tree [] (status_field, m) = ok m
scan tree [] (_, m) = err overlay_truncated
scan tree (field ∷ fields) (expect, m) = take_field tree expect field m >>= scan tree fields

-- The loop over the untracked files.
unfoldable pub scan_untracked : Tree → List Text → OverlayManifest → Result Error OverlayManifest
scan_untracked tree [] m = ok m
scan_untracked tree ([] ∷ raw) m = scan_untracked tree raw m
scan_untracked tree ((c ∷ path) ∷ raw) m = do
  safe ← validate_overlay_path (c ∷ path)
  scan_untracked tree raw (transfer_path tree safe m)

abbrev pub no_overlay : OverlayManifest
no_overlay = record { transfer = []; delete = [] }

-- if fields and fields[-1] == b"": fields.pop()
unfoldable pub pop_empty : List Text → List Text
pop_empty [] = []
pop_empty ([] ∷ []) = []
pop_empty (field ∷ fields) = field ∷ pop_empty fields

-- `fields` and `untracked` are git's two outputs, split at NUL.
unfoldable pub discover_overlay : Tree → List Text → List Text → Result Error OverlayManifest
discover_overlay tree fields untracked = do
  m ← scan tree (pop_empty fields) (status_field, no_overlay)
  scan_untracked tree untracked m

-- What stands at a place: a symbolic link or a regular file, something else, or nothing. A place is
-- a name in a directory whose own path has no symbolic link.
pub data Entry : Type 0 where
  plain special missing : Entry

abbrev pub Files : Type 0
Files = FilePath → Entry

unfoldable pub unlink_file : FilePath → Files → Files
unlink_file place files = λ q. if path_eq place q then missing else files q

-- The names of the directory that holds a path, and the last name of the path.
abbrev pub parent_names : List Text → List Text
parent_names [] = []
parent_names (name ∷ []) = []
parent_names (name ∷ next ∷ names) = name ∷ parent_names (next ∷ names)

abbrev pub last_name : List Text → Text
last_name [] = []
last_name (name ∷ []) = name
last_name (name ∷ next ∷ names) = last_name (next ∷ names)

unfoldable pub delete_at : FilePath → Files → Entry → Result Error (Unit {0}) × Files
delete_at place files plain = (ok tt, unlink_file place files)
delete_at place files special = (err overlay_not_file, files)
delete_at place files missing = (ok tt, files)

unfoldable pub delete_in : FilePath → FilePath → Text → Files → Result Error (Unit {0}) × Files
delete_in root parent name files =
    let place = parent ++ name ∷ [] in
    if not (path_eq parent root) && not (is_relative_to parent root)
    then (err overlay_escapes, files)
    else delete_at place files (files place)

-- One turn of the loop; `root` is resolved, and `resolve` follows the symbolic links.
unfoldable pub delete_one :
    (FilePath → FilePath) → FilePath → Text → Files → Result Error (Unit {0}) × Files
delete_one resolve root value files =
    let names = split b'/' value in
    if is_overlay_path value
    then delete_in root (resolve (root ++ parent_names names)) (last_name names) files
    else (err invalid_overlay_path, files)

unfoldable pub apply_overlay_deletions :
    (FilePath → FilePath) → FilePath → List Text → Files → Result Error (Unit {0}) × Files
apply_overlay_deletions resolve root [] files = (ok tt, files)
apply_overlay_deletions resolve root (value ∷ values) files =
    let (r, files₁) = delete_one resolve root value files in
    elim r [ err e ↦ (err e, files₁) | ok _ ↦ apply_overlay_deletions resolve root values files₁ ]
