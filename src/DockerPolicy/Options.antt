-- ===== src/DockerPolicy/Options.antt =====
-- Global options in front of a command do not hide it from the policy; options inside do.
use remote_worktree_runner.DockerPolicy.{
  builder_flag, takes_value, is_option, command_tokens, builder_value, is_blocked, is_builder,
  check_command, validate_docker_arguments,
}
use remote_worktree_runner.Errors.{docker_policy}
use remote_worktree_runner.Prelude.{
  ◌≡◌, refl, ap, ◌≢◌, ◌↔◌, inl, inr, true, false, Option, none, some, List, [], ◌∷◌, ◌++◌, arith,
  Bool-cases, drop, Text, codes, text_eq, text_eq→eq, text_eq_iff, starts_with-eq, one_of,
  starts_with, ok, err,
}

-- The global flags that the policy knows to take a value: Docker's, less those of TLS.
abbrev pub known_flags : List Text
known_flags =
    codes "--config"
    ∷ codes "--context"
    ∷ codes "--host"
    ∷ codes "--log-level"
    ∷ codes "-c"
    ∷ codes "-H"
    ∷ codes "-l"
    ∷ []

-- What may stand in front of a Docker command: these flags with their values, and other options,
-- which take none.
pub data GlobalOptions : List Text → Type 0 where
  end : GlobalOptions []
  valued :
      (flag value : Text) {more : List Text}
      → one_of flag known_flags ≡ true
      → GlobalOptions more
      → GlobalOptions (flag ∷ value ∷ more)
  single :
      (option : Text) {more : List Text}
      → starts_with option (codes "-") ≡ true
      → one_of option known_flags ≡ false
      → GlobalOptions more
      → GlobalOptions (option ∷ more)

-- The commands that reach beyond the job.
pub data DaemonWide : Text → Text → Type 0 where
  system_prune : DaemonWide (codes "system") (codes "prune")
  volume_prune : DaemonWide (codes "volume") (codes "prune")
  builder_prune : DaemonWide (codes "builder") (codes "prune")
  context_rm : DaemonWide (codes "context") (codes "rm")
  swarm_leave : DaemonWide (codes "swarm") (codes "leave")

-- The first builder that the words name, as `--builder NAME` or `--builder=NAME`.
pub data NamesBuilder : List Text → Text → Type 0 where
  behind : (name : Text) (more : List Text) → NamesBuilder (codes "--builder" ∷ name ∷ more) name
  inline :
      (name : Text) (more : List Text) → NamesBuilder ((codes "--builder=" ++ name) ∷ more) name
  later :
      (word : Text) {more : List Text} {name : Text}
      → word ≢ codes "--builder"
      → starts_with word (codes "--builder=") ≡ false
      → NamesBuilder more name
      → NamesBuilder (word ∷ more) name

is_option-takes_value : (flag : Text) → takes_value flag ≡ true → is_option flag ≡ true
unfolding is_option
is_option-takes_value flag h = ground arith

is_option-dash : (v : Text) → starts_with v (codes "-") ≡ true → is_option v ≡ true
unfolding is_option
is_option-dash v h = ground arith

command_tokens-options :
    {options : List Text} (word : Text) (rest : List Text)
    → GlobalOptions options
    → is_option word ≡ false
    → command_tokens (options ++ word ∷ rest) ≡ word ∷ rest
unfolding command_tokens
command_tokens-options word rest end h = rw h
command_tokens-options word rest (valued flag value f more) h =
    rw (is_option-takes_value flag f, f) (command_tokens-options word rest more h)
command_tokens-options word rest (single option o f more) h =
    rw (is_option-dash option o, f) (command_tokens-options word rest more h)

-- A daemon-wide command is no option and is refused.
blocked-refused :
    {options : List Text} {a b : Text} (rest : List Text) (builder : Text)
    → GlobalOptions options
    → DaemonWide a b
    → validate_docker_arguments (options ++ a ∷ b ∷ rest) builder ≡ err docker_policy
unfolding validate_docker_arguments check_command is_blocked one_of text_eq is_option starts_with
blocked-refused rest builder o system_prune = rw (command_tokens-options _ _ o refl) refl
blocked-refused rest builder o volume_prune = rw (command_tokens-options _ _ o refl) refl
blocked-refused rest builder o builder_prune = rw (command_tokens-options _ _ o refl) refl
blocked-refused rest builder o context_rm = rw (command_tokens-options _ _ o refl) refl
blocked-refused rest builder o swarm_leave = rw (command_tokens-options _ _ o refl) refl

builder_value-NamesBuilder :
    (rest : List Text) (b : Text) → builder_value rest ≡ some b → NamesBuilder rest b
unfolding builder_value
builder_value-NamesBuilder [] b h = absurd (cc)
builder_value-NamesBuilder (v ∷ []) b h = elim (Bool-cases (starts_with v (codes "--builder="))) [
  | inl e ↦
      let named : drop 10 v ≡ b = ground arith in
      rw (starts_with-eq v (codes "--builder=") e, named) (inline b [])
  | inr e ↦ absurd (ground arith)
]
builder_value-NamesBuilder (v ∷ next ∷ more) b h = elim (Bool-cases (text_eq v builder_flag)) [
  | inl e ↦
      let named : next ≡ b = ground arith in rw (text_eq→eq v builder_flag e, named) (behind b more)
  | inr other ↦ elim (Bool-cases (starts_with v (codes "--builder="))) [
    | inl e ↦
        let named : drop 10 v ≡ b = ground arith in
        rw (starts_with-eq v (codes "--builder=") e, named) (inline b (next ∷ more))
    | inr e ↦
        later v (λ same. ground (arith, text_eq_iff v builder_flag)) e
          (builder_value-NamesBuilder (next ∷ more) b (ground arith))
  ]
]

no_builder : {b : Text} → ¬ NamesBuilder [] b
no_builder h = elim h [ ]

NamesBuilder-builder_value :
    (rest : List Text) (b : Text) → NamesBuilder rest b → builder_value rest ≡ some b
unfolding builder_value starts_with text_eq
NamesBuilder-builder_value _ _ (behind name more) = refl
NamesBuilder-builder_value _ _ (inline name []) = refl
NamesBuilder-builder_value _ _ (inline name (next ∷ more)) = refl
NamesBuilder-builder_value (word ∷ []) b (later _ n s h) = absurd (no_builder h)
NamesBuilder-builder_value (word ∷ next ∷ more) b (later _ n s h) =
    ground (arith, NamesBuilder-builder_value (next ∷ more) b h, text_eq_iff word builder_flag)

is_builder_iff :
    (o : Option Text) (builder : Text) → (is_builder o builder ≡ true) ↔ (o ≡ some builder)
is_builder_iff none builder = (λ h. absurd (cc), λ h. absurd (cc))
is_builder_iff (some b) builder =
    (λ h. ap some (text_eq→eq b builder h), λ h. ground (arith, text_eq_iff b builder))

prune_names_builder :
    (rest : List Text) (builder : Text)
    → (check_command (codes "buildx" ∷ codes "prune" ∷ rest) builder ≡ ok tt)
      ↔ (builder_value rest ≡ some builder)
unfolding check_command is_blocked one_of text_eq
prune_names_builder rest builder =
    let (named, names) = is_builder_iff (builder_value rest) builder in
    (λ h. named (ground arith), λ h. ground (arith, names h))

-- Whatever known flags with their values, and whatever other options, stand in front: a
-- daemon-wide command is refused, and `buildx prune` is accepted exactly if the first builder that
-- it names is the job's.
pub options_hide_nothing :
    {options : List Text} (rest : List Text) (builder : Text)
    → GlobalOptions options
    → ((a b : Text)
        → DaemonWide a b
        → validate_docker_arguments (options ++ a ∷ b ∷ rest) builder ≡ err docker_policy)
      × ((validate_docker_arguments (options ++ codes "buildx" ∷ codes "prune" ∷ rest) builder
            ≡ ok tt)
          ↔ NamesBuilder rest builder)
unfolding validate_docker_arguments text_eq is_option one_of starts_with
options_hide_nothing rest builder o =
    let seen = command_tokens-options (codes "buildx") (codes "prune" ∷ rest) o refl in
    let (accepted, accepts) = prune_names_builder rest builder in
    (
      λ a b wide. blocked-refused rest builder o wide,
      rw seen (
        λ h. builder_value-NamesBuilder rest builder (accepted h),
        λ h. accepts (NamesBuilder-builder_value rest builder h),
      ),
    )

-- The builder may be given as an option of `buildx` itself, and then `prune` of any builder is
-- accepted: the second word of the command is the option.
pub buildx_option_hides_prune :
    (other : Text) (rest : List Text) (builder : Text)
    → validate_docker_arguments
        (codes "buildx" ∷ (codes "--builder=" ++ other) ∷ codes "prune" ∷ rest)
        builder
      ≡ ok tt
unfolding validate_docker_arguments command_tokens check_command is_blocked is_option one_of text_eq
    starts_with
buildx_option_hides_prune other rest builder = refl
