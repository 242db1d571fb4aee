-- ===== src/ServerCli/Executed.antt =====
-- Which Docker commands of a job are executed, and what is recorded of them.
use remote_worktree_runner.Prelude.{
  ◌≡◌, refl, ◌⊎◌, inl, inr, true, Option, none, some, List, [], ◌∷◌, ◌++◌, arith, Bool-cases,
  Option-cases, Text, text_eq_refl, one_of, Result, ok, err, lookup,
}
use remote_worktree_runner.Errors.{Error}
use remote_worktree_runner.JobStore.{JobFiles, Store}
use remote_worktree_runner.JobStore.Access.{lookup-update_self}
use remote_worktree_runner.DockerPolicy.{validate_docker_arguments}
use remote_worktree_runner.PortPolicy.{Docker, validate_compose_command}
use remote_worktree_runner.ServerCli.DockerCommand.{
  executed, drop_dashes, add_project, recorded, is_port_conflict, docker_checked, docker_allowed,
  docker_named, builder_of, docker_command,
}

one_of-snoc : (p : Text) (ps : List Text) → one_of p (ps ++ p ∷ []) ≡ true
unfolding one_of
one_of-snoc p [] = ground (arith, text_eq_refl p)
one_of-snoc p (q ∷ ps) = ground (arith, one_of-snoc p ps)

one_of-add_project : (p : Text) (ps : List Text) → one_of p (add_project p ps) ≡ true
unfolding add_project
one_of-add_project p ps = elim (Bool-cases (one_of p ps)) [
  | inl e ↦ rw e e
  | inr e ↦ rw e (one_of-snoc p ps)
]

-- The job's list of Compose projects names the project.
abbrev pub Recorded : Text → Text → Store → Type 0
Recorded j project s =
    (d : JobFiles) × (projects : List Text) × (lookup j s ≡ some d)
    × (d.compose_projects ≡ some projects)
    × (one_of project projects ≡ true)

module _ (j : Text) (docker : Docker) (s : Store) where
  -- The checks have passed: no port is published and nothing changes, or the project is recorded.
  abbrev pub Checked : Text → List Text → Store → Type 0
  Checked builder given after =
      (validate_docker_arguments given builder ≡ ok tt)
      × (((validate_compose_command given builder docker ≡ ok none) × (after ≡ s))
          ⊎ ((project : Text) × (validate_compose_command given builder docker ≡ ok (some project))
              × Recorded j project after))

  docker_checked-lem :
      (d : JobFiles) (arguments given : List Text) (r : Result Error (Option Text))
      → lookup j s ≡ some d
      → (docker_checked j arguments r s).0 ≡ ok (executed given)
      → (given ≡ arguments)
        × (((r ≡ ok none) × ((docker_checked j arguments r s).1 ≡ s))
            ⊎ ((project : Text) × (r ≡ ok (some project))
                × Recorded j project (docker_checked j arguments r s).1))
  unfolding docker_checked
  docker_checked-lem d arguments given (ok none) here h = (cc, inl (refl, refl))
  docker_checked-lem d arguments given (ok (some project)) here h = (
    cc,
    inr (
      project,
      refl,
      (
        recorded project d,
        _,
        lookup-update_self j (recorded project) d s here,
        refl,
        one_of-add_project project _,
      ),
    ),
  )
  docker_checked-lem d arguments given (err e) here h = elim (Bool-cases (is_port_conflict e)) [
    | inl c ↦ absurd (let h' = rw c at h in cc)
    | inr c ↦ absurd (let h' = rw c at h in cc)
  ]

  docker_allowed-lem :
      (d : JobFiles) (arguments given : List Text) (builder : Text) (r : Result Error (Unit {0}))
      → validate_docker_arguments arguments builder ≡ r
      → lookup j s ≡ some d
      → (docker_allowed j arguments builder docker r s).0 ≡ ok (executed given)
      → (given ≡ arguments)
        × Checked builder arguments (docker_allowed j arguments builder docker r s).1
  unfolding docker_allowed
  docker_allowed-lem d arguments given builder (err e) v here h = absurd (cc)
  docker_allowed-lem d arguments given builder (ok u) v here h =
      let (same, outcome) =
        docker_checked-lem d arguments given (validate_compose_command arguments builder docker)
          here h in
      (same, (v, outcome))

  builder_of-ok :
      (builder : Text) → builder_of j s ≡ ok builder → (d : JobFiles) × (lookup j s ≡ some d)
  unfolding builder_of
  builder_of-ok builder h = elim (Option-cases (lookup j s)) [
    | inl e ↦ absurd (ground arith)
    | inr found ↦ found
  ]

  -- A Docker command that is executed is the given one without a leading `--`, of a job whose
  -- builder is known. It has passed the Docker policy for that builder and the port policy, and the
  -- Compose project that it publishes for, if any, is in the job's list, where the clean-up finds
  -- it.
  pub docker_command-Checked :
      (arguments given : List Text)
      → (docker_command j arguments docker s).0 ≡ ok (executed given)
      → (given ≡ drop_dashes arguments)
        × ((builder : Text) × (builder_of j s ≡ ok builder)
            × Checked builder (drop_dashes arguments) (docker_command j arguments docker s).1)
  unfolding docker_command docker_named
  docker_command-Checked arguments given h = by_builder (builder_of j s) refl h
    where
      by_builder :
          (r : Result Error Text)
          → builder_of j s ≡ r
          → (docker_named j (drop_dashes arguments) docker r s).0 ≡ ok (executed given)
          → (given ≡ drop_dashes arguments)
            × ((builder : Text) × (r ≡ ok builder)
                × Checked builder
                    (drop_dashes arguments)
                    (docker_named j (drop_dashes arguments) docker r s).1)
      by_builder (err e) b h = absurd (cc)
      by_builder (ok builder) b h =
          let (d, here) = builder_of-ok builder b in
          let (same, checked) =
            docker_allowed-lem d (drop_dashes arguments) given builder
              (validate_docker_arguments (drop_dashes arguments) builder) refl here h in
          (same, (builder, refl, checked))
