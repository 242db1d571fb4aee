-- ===== src/Preview/Checks.antt =====
-- What the checks of host names, ports and check paths let through.
use remote_worktree_runner.Prelude.{
  ℕ, ◌≤◌, ◌≡◌, ◌↔◌, ◌⊎◌, inl, inr, true, List, [], ◌∷◌, arith, ◌==◌, Bool-cases, length, All,
  All-map, all_of-All, Text, split, ok, ℤ, pos, negsuc,
}
use remote_worktree_runner.Common.{is_identifier_char}
use remote_worktree_runner.Preview.{is_label_rest, is_host_label, validate_hostname, validate_port}

-- A port comes back unchanged from exactly the integers from 1 to 65535.
pub validate_port_iff :
    (v : ℤ) (n : ℕ) → (validate_port v ≡ ok n) ↔ ((v ≡ pos n) × (1 ≤ n) × (n ≤ 65535))
unfolding validate_port
validate_port_iff (negsuc k) n = (λ h. cc, λ h. cc)
validate_port_iff (pos k) n = (λ h. ground arith, λ h. ground arith)

-- A letter, a digit, a hyphen or a dot.
abbrev pub IsHostChar : ℕ → Type 0
IsHostChar c = (is_identifier_char c ≡ true) ⊎ (c ≡ b'.')

label_rest_chars : (s : Text) → is_label_rest s ≡ true → All IsHostChar s
unfolding is_label_rest is_identifier_char
label_rest_chars [] h = tt
label_rest_chars (c ∷ []) h = (inl (ground arith), tt)
label_rest_chars (c ∷ d ∷ s) h = (inl (ground arith), label_rest_chars (d ∷ s) (ground arith))

label_chars : (s : Text) → is_host_label s ≡ true → All IsHostChar s
unfolding is_host_label is_identifier_char
label_chars [] h = tt
label_chars (c ∷ s) h = (inl (ground arith), label_rest_chars s (ground arith))

-- The parts of a text with one character put before the first.
join_chars :
    (c : ℕ) (ws : List Text)
    → All
        (All IsHostChar)
        (elim ws as (λ _. List Text) [ [] ↦ (c ∷ []) ∷ [] | w ∷ ws ↦ (c ∷ w) ∷ ws ])
    → IsHostChar c × All (All IsHostChar) ws
join_chars c [] h = (h.0.0, tt)
join_chars c (w ∷ ws) h = (h.0.0, (h.0.1, h.1))

-- If every part has only such characters, so has the whole.
split_chars : (s : Text) → All (All IsHostChar) (split b'.' s) → All IsHostChar s
unfolding split
split_chars [] h = tt
split_chars (c ∷ s) h = elim (Bool-cases (b'.' == c)) [
  | inl dot ↦ (let same : c ≡ b'.' = ground arith in (inr same, split_chars s ((rw dot at h).1)))
  | inr other ↦
      (let (first, rest) = join_chars c (split b'.' s) (rw other at h) in
        (first, split_chars s rest))
]

-- An accepted host name comes back unchanged; it is made of letters, digits, hyphens and dots, has
-- two labels at least, of at most 63 characters each, and at most 253 characters.
pub validate_hostname-Safe :
    (value name : Text)
    → validate_hostname value ≡ ok name
    → (name ≡ value)
      × All IsHostChar value
      × All (λ label. is_host_label label ≡ true) (split b'.' value)
      × (2 ≤ length (split b'.' value))
      × (length value ≤ 253)
unfolding validate_hostname
validate_hostname-Safe value name h =
    let labels : All (λ label. is_host_label label ≡ true) (split b'.' value) =
      all_of-All is_host_label (split b'.' value) (ground arith) in
    (
      ground arith,
      split_chars value (All-map _ _ label_chars (split b'.' value) labels),
      labels,
      ground arith,
      ground arith,
    )
