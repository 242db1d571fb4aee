-- ===== src/PortPolicy.antt =====
-- trie_remote/port_policy.py: published ports that belong to another Compose project.
pub mod Ownership
pub mod Tests
use remote_worktree_runner.Errors.{Error, port_conflict}
use remote_worktree_runner.Common.{is_alnum, is_identifier_char}
use remote_worktree_runner.DockerPolicy.{is_inline}
use remote_worktree_runner.Prelude.{
  ◌>>◌, ◌>>=◌, ℕ, Bool, true, false, not, ◌&&◌, ◌||◌, Option, none, some, List, [], ◌∷◌, ◌++◌, leb,
  ◌==◌, if◌then◌else◌, length, all_of, drop, Text, codes, text_eq, one_of, starts_with, Result, ok,
  err, require, Dict,
}

-- A JSON value where the code tests for an object or a list: one, or anything else.
pub data Shaped {ℓ} (A : Type ℓ) : Type ℓ where
  shaped : A → Shaped A
  misshapen : Shaped A

-- A port entry; `published` is its number, after `int(str(…))`.
pub record Port : Type 0 where
  pub published : Option ℕ
  pub protocol : Option Text

abbrev pub Service : Type 0
Service = Shaped (Shaped (List (Shaped Port)))

abbrev pub ComposeConfig : Type 0
ComposeConfig = Shaped (Dict Service)

-- running_ports: (host port, protocol) and the owner, the last write first.
pub record Binding : Type 0 where
  pub number : ℕ
  pub protocol : Text
  pub owner : Text

unfoldable pub owner_of : List Binding → ℕ → Text → Option Text
owner_of [] number protocol = none
owner_of (b ∷ running) number protocol =
    if b.number == number && text_eq b.protocol protocol
    then some b.owner
    else owner_of running number protocol

-- str(port.get("protocol", "tcp"))
abbrev pub protocol_of : Port → Text
protocol_of p = elim p.protocol [ none ↦ codes "tcp" | some q ↦ q ]

-- owner is not None and owner != project_name
abbrev pub is_foreign : Option Text → Text → Bool
is_foreign none project = false
is_foreign (some owner) project = not (text_eq owner project)

unfoldable pub check_port : Shaped Port → List Binding → Text → Result Error (Unit {0})
check_port misshapen running project = ok tt
check_port (shaped p) running project = elim p.published [
  | none ↦ ok tt
  | some n ↦ require (not (is_foreign (owner_of running n (protocol_of p)) project)) port_conflict
]

unfoldable pub check_ports : List (Shaped Port) → List Binding → Text → Result Error (Unit {0})
check_ports [] running project = ok tt
check_ports (p ∷ ports) running project =
    check_port p running project >> check_ports ports running project

unfoldable pub check_service : Service → List Binding → Text → Result Error (Unit {0})
check_service misshapen running project = ok tt
check_service (shaped misshapen) running project = ok tt
check_service (shaped (shaped ports)) running project = check_ports ports running project

unfoldable pub check_services : Dict Service → List Binding → Text → Result Error (Unit {0})
check_services [] running project = ok tt
check_services ((name, s) ∷ services) running project =
    check_service s running project >> check_services services running project

unfoldable pub validate_published_ports :
    ComposeConfig → List Binding → Text → Result Error (Unit {0})
validate_published_ports misshapen running project = ok tt
validate_published_ports (shaped services) running project = check_services services running project

-- COMPOSE_FLAGS_WITH_VALUE
abbrev pub compose_flags_with_value : List Text
compose_flags_with_value =
    codes "-f"
    ∷ codes "--file"
    ∷ codes "-p"
    ∷ codes "--project-name"
    ∷ codes "--project-directory"
    ∷ codes "--env-file"
    ∷ codes "--profile"
    ∷ codes "--parallel"
    ∷ codes "--progress"
    ∷ codes "--ansi"
    ∷ []

-- list(argv).index("compose") + 1, as what stands before and behind.
unfoldable pub behind_compose : List Text → Option (List Text × List Text)
behind_compose [] = none
behind_compose (v ∷ vs) = elim (text_eq v (codes "compose")) [
  | true ↦ some (v ∷ [], vs)
  | false ↦ elim (behind_compose vs) [
    | none ↦ none
    | some (before, after) ↦ some (v ∷ before, after)
  ]
]

unfoldable pub is_compose_option : Text → Bool
is_compose_option v =
    one_of v compose_flags_with_value
    || (is_inline compose_flags_with_value v || starts_with v (codes "-"))

-- The loop of `_compose_action_index`: what it passes over, and the action with what follows.
unfoldable pub action_from : Bool → List Text → Option (List Text × Text)
action_from skip [] = none
action_from true (v ∷ vs) = elim (action_from false vs) [
  | none ↦ none
  | some (before, a) ↦ some (v ∷ before, a)
]
action_from false (v ∷ vs) =
    let rest = action_from (one_of v compose_flags_with_value) vs in
    if is_compose_option v
    then elim rest [ none ↦ none | some (before, a) ↦ some (v ∷ before, a) ]
    else some ([], v)

-- values[:action_index] and values[action_index]
unfoldable pub compose_action : List Text → Option (List Text × Text)
unfolding behind_compose action_from
compose_action argv = elim (behind_compose argv) [
  | none ↦ none
  | some (before, after) ↦ elim (action_from false after) [
    | none ↦ none
    | some (passed, a) ↦ some (before ++ passed, a)
  ]
]

-- [a-z0-9][a-z0-9_-]{0,127}
unfoldable pub is_project : Text → Bool
is_project [] = false
is_project (c ∷ s) =
    is_alnum c && (all_of (λ d. is_identifier_char d || d == b'_') s && leb (length s) 127)

abbrev pub project_flag : Text
project_flag = codes "--project-name"

-- The loop over the values, and its `else`.
unfoldable pub named_project : List Text → Text → Text
named_project [] default = default
named_project (v ∷ vs) default =
    let rest = named_project vs default in
    let inline = if starts_with v (project_flag ++ b'=' ∷ []) then drop 15 v else rest in
    elim vs [
      | [] ↦ inline
      | next ∷ more ↦ if text_eq v (codes "-p") || text_eq v project_flag then next else inline
    ]

unfoldable pub compose_project_name : List Text → Text → Result Error Text
compose_project_name argv default =
    let project = named_project argv default in
    if is_project project then ok project else err port_conflict

-- What `docker compose … config` prints for the options, or its failure, and the ports of the
-- running containers, as `docker ps` and `docker inspect` give them.
pub record Docker : Type 0 where
  pub config : List Text → Result Error ComposeConfig
  pub running : List Binding

unfoldable pub publishes : Text → Bool
publishes action = one_of action (codes "up" ∷ codes "run" ∷ codes "start" ∷ [])

unfoldable pub check_publication :
    List Text → List Text → Text → Docker → Result Error (Option Text)
check_publication options argv project docker = do
  effective ← compose_project_name argv project
  config ← docker.config options
  validate_published_ports config docker.running effective
  ok (some effective)

unfoldable pub check_action :
    Option (List Text × Text) → List Text → Text → Docker → Result Error (Option Text)
check_action none argv project docker = ok none
check_action (some (options, action)) argv project docker =
    if publishes action then check_publication options argv project docker else ok none

unfoldable pub validate_compose_command : List Text → Text → Docker → Result Error (Option Text)
validate_compose_command argv project docker =
    check_action (compose_action argv) argv project docker
