-- ===== src/Common.antt =====
-- trie_remote/common.py: identifiers, and paths held below a root.
pub mod Laws
use remote_worktree_runner.Prelude.{
  ℕ, zero, suc, Bool, true, false, not, ◌&&◌, ◌||◌, List, [], ◌∷◌, leb, length, all_of, Text,
  text_eq, Result, ok, err, if◌then◌else◌,
}
use remote_worktree_runner.Errors.{Error, invalid_identifier, path_escapes}

-- [a-z0-9]
unfoldable pub is_alnum : ℕ → Bool
is_alnum c = (leb b'a' c && leb c b'z') || (leb b'0' c && leb c b'9')

-- [a-z0-9-]
unfoldable pub is_identifier_char : ℕ → Bool
unfolding is_alnum
is_identifier_char c = is_alnum c || (leb b'-' c && leb c b'-')

-- IDENTIFIER_PATTERN.fullmatch(value)
unfoldable pub is_identifier : Text → Bool
unfolding is_alnum is_identifier_char
is_identifier [] = false
is_identifier (c ∷ s) = is_alnum c && (all_of is_identifier_char s && leb (length s) 62)

unfoldable pub validate_identifier : Text → Result Error Text
validate_identifier value = if is_identifier value then ok value else err invalid_identifier

-- A path is the list of its components below the file system's root.
abbrev pub FilePath : Type 0
FilePath = List Text

unfoldable pub path_eq : FilePath → FilePath → Bool
path_eq [] [] = true
path_eq [] (d ∷ q) = false
path_eq (c ∷ p) [] = false
path_eq (c ∷ p) (d ∷ q) = text_eq c d && path_eq p q

-- candidate.is_relative_to(root)
unfoldable pub is_relative_to : FilePath → FilePath → Bool
is_relative_to p [] = true
is_relative_to [] (d ∷ q) = false
is_relative_to (c ∷ p) (d ∷ q) = text_eq c d && is_relative_to p q

-- `resolve` is `path.expanduser().resolve()`, which follows the symbolic links of the file system.
unfoldable pub ensure_below : (FilePath → FilePath) → FilePath → FilePath → Result Error FilePath
unfolding path_eq is_relative_to
ensure_below resolve root candidate =
    let resolved_root = resolve root in
    let resolved_candidate = resolve candidate in
    if path_eq resolved_candidate resolved_root
      || not (is_relative_to resolved_candidate resolved_root)
    then err path_escapes
    else ok resolved_candidate
