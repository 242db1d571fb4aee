-- ===== src/JobEnvironment/Roles.antt =====
-- The environment variable of each workspace role.
use remote_worktree_runner.Prelude.{
  none, Option-cases, sym, insert, lookup-insert_self, Option, lookup-insert_ne, ◌++◌, ap, ◌∙◌,
  false, ◌≢◌, text_eq_cases, ends_with, >>=-eq-ok, some, inl, inr, keys, ok, lookup, List, Dict, ℕ,
  ◌≡◌, refl, true, [], ◌∷◌, map, arith, All, Text, codes,
}
use remote_worktree_runner.JobEnvironment.{
  add_primary, job_resource_name, resource_text, base_environment, create_job_environment,
  add_roles, variable_char, role_variable,
}
use remote_worktree_runner.JobEnvironment.Names.{job_resource_name-ok}
use remote_worktree_runner.Scheduler.Names.{ends_with-append}
use remote_worktree_runner.ServerPaths.{ServerPaths, ◌//◌}
use remote_worktree_runner.Common.Laws.{validate_identifier-eq-ok, is_identifier_iff}
use remote_worktree_runner.Common.{
  FilePath, ensure_below, validate_identifier, is_identifier_char, is_identifier,
}
use mathlib.Core.List.{append_cancel_left, append_cancel_right}

variable_char-inj :
    (c d : ℕ)
    → is_identifier_char c ≡ true
    → is_identifier_char d ≡ true
    → variable_char c ≡ variable_char d
    → c ≡ d
unfolding variable_char is_identifier_char
variable_char-inj c d h k e = ground arith

IsIdentifier-chars : (s : Text) → is_identifier s ≡ true → All (λ c. is_identifier_char c ≡ true) s
unfolding is_identifier_char
IsIdentifier-chars [] h = tt
IsIdentifier-chars (c ∷ s) h = let v = (is_identifier_iff (c ∷ s)).0 h in (ground (arith, v.0), v.1)

map-variable_char-inj :
    (r s : Text)
    → All (λ c. is_identifier_char c ≡ true) r
    → All (λ c. is_identifier_char c ≡ true) s
    → map variable_char r ≡ map variable_char s
    → r ≡ s
map-variable_char-inj [] [] h k e = refl
map-variable_char-inj [] (d ∷ s) h k e = absurd (cc)
map-variable_char-inj (c ∷ r) [] h k e = absurd (cc)
map-variable_char-inj (c ∷ r) (d ∷ s) (hc, h) (kd, k) e =
    let first = variable_char-inj c d hc kd (cc) in
    let rest = map-variable_char-inj r s h k (cc) in cc (first, rest)

-- Different roles have different variables.
role_variable_injective :
    (r s : Text)
    → is_identifier r ≡ true
    → is_identifier s ≡ true
    → role_variable r ≡ role_variable s
    → r ≡ s
unfolding role_variable
role_variable_injective r s h k e =
    map-variable_char-inj r s (IsIdentifier-chars r h) (IsIdentifier-chars s k)
      (append_cancel_right _ _ (codes "_ROOT") (append_cancel_left (codes "TRIE_") _ _ e))

-- No two entries of a dictionary have one key.
abbrev pub Distinct : List Text → Type 0
Distinct [] = Unit
Distinct (k ∷ ks) = All (λ j. j ≢ k) ks × Distinct ks

abbrev pub AreRoles : Dict Text → Type 0
AreRoles ws = All (λ role. is_identifier role ≡ true) (keys ws)

-- What is looked up under another name than those of the roles is left.
lookup-add_roles_ne :
    (ws environment result : Dict Text) (k : Text)
    → add_roles ws environment ≡ ok result
    → All (λ role. role_variable role ≢ k) (keys ws)
    → lookup k result ≡ lookup k environment
unfolding add_roles
lookup-add_roles_ne [] environment result k h ne = let same : environment ≡ result = cc in rw same
lookup-add_roles_ne ((role, w) ∷ ws) environment result k h (ne, nes) =
    let (safe, valid, rest) = >>=-eq-ok (validate_identifier role) _ h in
    let (_, same) = validate_identifier-eq-ok role safe valid in
    lookup-add_roles_ne ws _ result k rest nes
    ∙ lookup-insert_ne (role_variable safe) k w environment (rw same ne)

-- A role that does not stand in the list has a variable that is none of theirs.
others-ne :
    (role : Text) (ks : List Text)
    → is_identifier role ≡ true
    → All (λ k. is_identifier k ≡ true) ks
    → All (λ k. k ≢ role) ks
    → All (λ k. role_variable k ≢ role_variable role) ks
others-ne role [] v vs ne = tt
others-ne role (k ∷ ks) v (vk, vs) (nk, ne) =
    (λ e. nk (role_variable_injective k role vk v e), others-ne role ks v vs ne)

lookup-add_roles :
    (ws environment result : Dict Text) (role w : Text)
    → add_roles ws environment ≡ ok result
    → AreRoles ws
    → Distinct (keys ws)
    → lookup role ws ≡ some w
    → lookup (role_variable role) result ≡ some w
unfolding add_roles lookup
lookup-add_roles [] environment result role w h v d e = absurd (cc)
lookup-add_roles ((k, x) ∷ ws) environment result role w h (vk, v) (ne, d) e =
    let (safe, valid, rest) = >>=-eq-ok (validate_identifier k) _ h in
    let (_, same) = validate_identifier-eq-ok k safe valid in
    elim (text_eq_cases k role) [
      | inr (t, _) ↦ lookup-add_roles ws _ result role w rest v d (ground arith)
      | inl (t, here) ↦
          let value : x ≡ w = ground arith in
          let variable : role_variable safe ≡ role_variable role = ap role_variable (same ∙ here) in
          lookup-add_roles_ne ws _ result (role_variable role) rest
            (others-ne role (keys ws) (rw here at vk) v (rw here at ne))
          ∙ rw (variable, value) (lookup-insert_self (role_variable role) w environment)
    ]

role_variable-root : (role : Text) → ends_with (role_variable role) (codes "_ROOT") ≡ true
unfolding role_variable
role_variable-root role = ends_with-append (codes "TRIE_" ++ map variable_char role) (codes "_ROOT")

none-root :
    (k : Text) (ks : List Text)
    → ends_with k (codes "_ROOT") ≡ false
    → All (λ role. role_variable role ≢ k) ks
none-root k [] h = tt
none-root k (role ∷ ks) h = (
  λ e. cc (ap (λ t. ends_with t (codes "_ROOT")) e, role_variable-root role, h),
  none-root k ks h,
)

lookup-AreRoles :
    (ws : Dict Text) (role w : Text)
    → lookup role ws ≡ some w
    → AreRoles ws
    → is_identifier role ≡ true
unfolding lookup
lookup-AreRoles [] role w e v = absurd (cc)
lookup-AreRoles ((k, x) ∷ ws) role w e (vk, v) = elim (text_eq_cases k role) [
  | inl (_, same) ↦ rw same at vk
  | inr (t, _) ↦ lookup-AreRoles ws role w (ground arith) v
]

-- The last assignment repeats what the role `primary` has.
add_primary-role :
    (ws environment : Dict Text) (role w : Text)
    → AreRoles ws
    → lookup role ws ≡ some w
    → lookup (role_variable role) environment ≡ some w
    → lookup (role_variable role) (add_primary (lookup (codes "primary") ws) environment) ≡ some w
unfolding is_identifier variable_char
add_primary-role ws environment role w v e h = elim (Option-cases (lookup (codes "primary") ws)) [
  | inl none' ↦ rw none' h
  | inr (p, here) ↦ rw here (primary p here)
]
  where
    primary :
        (p : Text)
        → lookup (codes "primary") ws ≡ some p
        → lookup (role_variable role) (insert (codes "TRIE_PRIMARY_ROOT") p environment) ≡ some w
    primary p here = elim (text_eq_cases (codes "TRIE_PRIMARY_ROOT") (role_variable role)) [
      | inr (_, ne) ↦ lookup-insert_ne (codes "TRIE_PRIMARY_ROOT") _ p environment ne ∙ h
      | inl (_, same) ↦
          let named : codes "primary" ≡ role =
            role_variable_injective (codes "primary") role refl (lookup-AreRoles ws role w e v)
              (unfold role_variable in same) in
          let value : some p ≡ some w = sym here ∙ ap (λ k. lookup k ws) named ∙ e in
          rw same (lookup-insert_self (role_variable role) p environment ∙ value)
    ]

add_primary-root :
    (o : Option Text) (environment : Dict Text) (k : Text)
    → ends_with k (codes "_ROOT") ≡ false
    → lookup k (add_primary o environment) ≡ lookup k environment
add_primary-root none environment k h = refl
add_primary-root (some w) environment k h =
    let root : ends_with (codes "TRIE_PRIMARY_ROOT") (codes "_ROOT") ≡ true =
      ends_with-append (codes "TRIE_PRIMARY") (codes "_ROOT") in
    lookup-insert_ne (codes "TRIE_PRIMARY_ROOT") k w environment
      (λ e. let same = ap (λ t. ends_with t (codes "_ROOT")) e in cc (same, root, h))

ensure_below-place :
    (resolve : FilePath → FilePath) (root candidate place : FilePath)
    → ensure_below resolve root candidate ≡ ok place
    → place ≡ resolve candidate
unfolding ensure_below
ensure_below-place resolve root candidate place h = ground arith

-- In the environment of a job whose roles are identifiers and stand for one workspace each, the
-- variable of every role has the path of its workspace, and every variable whose name does not end
-- in _ROOT has the value of the base environment: no role can overwrite those.
pub create_job_environment_lem :
    (resolve : FilePath → FilePath) (paths : ServerPaths) (job_id repository : Text)
    (workspaces : Dict Text) (path : Text) (environment : Dict Text)
    → create_job_environment resolve paths job_id repository workspaces path ≡ ok environment
    → AreRoles workspaces
    → Distinct (keys workspaces)
    → ((role w : Text)
        → lookup role workspaces ≡ some w
        → lookup (role_variable role) environment ≡ some w)
      × ((k : Text)
          → ends_with k (codes "_ROOT") ≡ false
          → lookup k environment
            ≡ lookup k (
                base_environment paths
                  (resolve (paths.jobs // job_id))
                  repository
                  job_id
                  (resource_text repository job_id)
                  path))
unfolding create_job_environment
create_job_environment_lem resolve paths job_id repository workspaces path environment h v d =
    let (j, vj, h₁) = >>=-eq-ok (validate_identifier job_id) _ h in
    let (r, vr, h₂) = >>=-eq-ok (validate_identifier repository) _ h₁ in
    let (directory, below, h₂) =
      >>=-eq-ok (ensure_below resolve paths.jobs (paths.jobs // j)) _ h₂ in
    let place = ensure_below-place resolve paths.jobs (paths.jobs // j) directory below in
    let (resource, vn, h₃) = >>=-eq-ok (job_resource_name r j) _ h₂ in
    let (roles, added, h₄) = >>=-eq-ok (add_roles workspaces _) _ h₃ in
    let (_, job) = validate_identifier-eq-ok job_id j vj in
    let (_, repo) = validate_identifier-eq-ok repository r vr in
    let name = job_resource_name-ok r j resource vn in
    let made : environment ≡ add_primary (lookup (codes "primary") workspaces) roles = cc h₄ in
    let base : base_environment paths directory r j resource path
        ≡ base_environment paths (resolve (paths.jobs // job_id)) repository job_id
            (resource_text repository job_id) path =
      cc (job, repo, name, place) in
    (
      λ role w e. rw made (
          add_primary-role workspaces roles role w v e
            (lookup-add_roles workspaces _ roles role w added v d e)),
      λ k root. rw made (
          add_primary-root _ roles k root
          ∙ lookup-add_roles_ne workspaces _ roles k added (none-root k (keys workspaces) root)
          ∙ ap (lookup k) base),
    )
