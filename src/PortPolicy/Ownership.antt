-- ===== src/PortPolicy/Ownership.antt =====
-- What a Compose command that passes the check may publish.
use remote_worktree_runner.PortPolicy.{
  Shaped, shaped, misshapen, Port, Service, ComposeConfig, Binding, owner_of, protocol_of,
  check_port, check_ports, check_service, check_services, validate_published_ports, is_project,
  Docker,
}
use remote_worktree_runner.Prelude.{
  ℕ, ◌≡◌, refl, ◌≢◌, ◌↔◌, ◌⊎◌, inl, inr, true, false, some, List, [], ◌∷◌, ◌++◌, arith,
  Option-cases, All, Text, codes, text_eq_iff, starts_with, ok, >>=-eq-ok, Dict,
}

-- The port is not published, or no running container has it, or one of the project has.
abbrev pub IsOwn : List Binding → Text → Shaped Port → Type 0
IsOwn running project misshapen = Unit
IsOwn running project (shaped p) =
    (n : ℕ) (owner : Text)
    → p.published ≡ some n
    → owner_of running n (protocol_of p) ≡ some owner
    → owner ≡ project

abbrev pub OwnPorts : List Binding → Text → Service → Type 0
OwnPorts running project (shaped (shaped ports)) = All (IsOwn running project) ports
OwnPorts running project _ = Unit

abbrev pub OwnServices : List Binding → Text → ComposeConfig → Type 0
OwnServices running project misshapen = Unit
OwnServices running project (shaped services) = All (λ s. OwnPorts running project s.1) services

module _ (running : List Binding) (project : Text) where
  check_port-IsOwn :
      (p : Shaped Port) → check_port p running project ≡ ok tt → IsOwn running project p
  unfolding check_port
  check_port-IsOwn misshapen h = tt
  check_port-IsOwn (shaped p) h = λ n owner e o. ground (arith, text_eq_iff owner project)

  IsOwn-check_port :
      (p : Shaped Port) → IsOwn running project p → check_port p running project ≡ ok tt
  unfolding check_port
  IsOwn-check_port misshapen h = refl
  IsOwn-check_port (shaped p) h = elim (Option-cases p.published) [
    | inl e ↦ ground arith
    | inr (n, e) ↦ elim (Option-cases (owner_of running n (protocol_of p))) [
      | inl f ↦ ground arith
      | inr (owner, f) ↦ ground (arith, h n owner e f, text_eq_iff owner project)
    ]
  ]

  check_ports-IsOwn :
      (ports : List (Shaped Port))
      → check_ports ports running project ≡ ok tt
      → All (IsOwn running project) ports
  unfolding check_ports
  check_ports-IsOwn [] h = tt
  check_ports-IsOwn (p ∷ ports) h =
      let (u, first, rest) = >>=-eq-ok (check_port p running project) _ h in
      (check_port-IsOwn p first, check_ports-IsOwn ports rest)

  IsOwn-check_ports :
      (ports : List (Shaped Port))
      → All (IsOwn running project) ports
      → check_ports ports running project ≡ ok tt
  unfolding check_ports
  IsOwn-check_ports [] h = refl
  IsOwn-check_ports (p ∷ ports) (own, h) = rw (IsOwn-check_port p own) (IsOwn-check_ports ports h)

  check_service-OwnPorts :
      (s : Service) → (check_service s running project ≡ ok tt) ↔ OwnPorts running project s
  unfolding check_service
  check_service-OwnPorts (shaped (shaped ports)) =
      (check_ports-IsOwn ports, IsOwn-check_ports ports)
  check_service-OwnPorts (shaped misshapen) = (λ h. tt, λ h. refl)
  check_service-OwnPorts misshapen = (λ h. tt, λ h. refl)

  check_services-OwnServices :
      (services : Dict Service)
      → (check_services services running project ≡ ok tt)
        ↔ OwnServices running project (shaped services)
  unfolding check_services
  check_services-OwnServices [] = (λ h. tt, λ h. refl)
  check_services-OwnServices ((name, s) ∷ services) =
      let (to, back) = check_service-OwnPorts s in
      let (to', back') = check_services-OwnServices services in
      (
        λ h.
            let (u, first, rest) = >>=-eq-ok (check_service s running project) _ h in
            (to first, to' rest),
        λ h. rw (back h.0) (back' h.1),
      )

  -- The check passes exactly if every port that a well-formed entry of any service publishes is
  -- free, or held by a container of the project itself.
  pub validate_published_ports_iff :
      (config : ComposeConfig)
      → (validate_published_ports config running project ≡ ok tt)
        ↔ OwnServices running project config
  unfolding validate_published_ports
  validate_published_ports_iff misshapen = (λ h. tt, λ h. refl)
  validate_published_ports_iff (shaped services) = check_services-OwnServices services

-- The actions that publish ports.
abbrev pub IsPublishing : Text → Type 0
IsPublishing verb = (verb ≡ codes "up") ⊎ ((verb ≡ codes "run") ⊎ (verb ≡ codes "start"))

-- The first project that the words name, as `-p NAME`, `--project-name NAME` or
-- `--project-name=NAME`, or else the job's.
pub data NamesProject (default : Text) : List Text → Text → Type 0 where
  nothing : NamesProject default [] default
  behind_short :
      (name : Text) (more : List Text) → NamesProject default (codes "-p" ∷ name ∷ more) name
  behind_long :
      (name : Text) (more : List Text)
      → NamesProject default (codes "--project-name" ∷ name ∷ more) name
  inline :
      (name : Text) (more : List Text)
      → NamesProject default ((codes "--project-name=" ++ name) ∷ more) name
  last :
      (word : Text)
      → starts_with word (codes "--project-name=") ≡ false
      → NamesProject default (word ∷ []) default
  later :
      (word : Text) {more : List Text} {name : Text}
      → word ≢ codes "-p"
      → word ≢ codes "--project-name"
      → starts_with word (codes "--project-name=") ≡ false
      → NamesProject default more name
      → NamesProject default (word ∷ more) name

-- The configuration of the options is published for the project, which is well formed.
pub record Publishes (options argv : List Text) (default : Text) (docker : Docker) (project : Text)
    : Type 0 where
  pub config : ComposeConfig
  pub reported : docker.config options ≡ ok config
  pub named : NamesProject default argv project
  pub well_formed : is_project project ≡ true
  pub own : OwnServices docker.running project config
