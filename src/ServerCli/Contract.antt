-- ===== src/ServerCli/Contract.antt =====
-- What the comparison of a reserved contract with the one to start comes to.
use remote_worktree_runner.JobStore.Spec.{JobSpec, OverlayManifest}
use remote_worktree_runner.ServerCli.Equality.{
  texts_eq, option_eq, entries_in, dict_eq, manifest_eq, spec_eq,
}
use remote_worktree_runner.Prelude.{
  ◌≡◌, refl, sym, ap, ◌∙◌, inl, inr, Bool, true, false, ◌&&◌, Option, none, some, List, [], ◌∷◌,
  arith, ◌==◌, length, Text, text_eq, text_eq→eq, text_eq_cases, Dict, lookup,
}

-- Every member of the first dictionary has the same value in the second.
abbrev pub Within {ℓ} : {V : Type ℓ} → Dict V → Dict V → Type ℓ
Within {V = V} d e = (k : Text) (v : V) → lookup k d ≡ some v → lookup k e ≡ some v

-- The two contracts have the same fields.
pub record SameContract (a b : JobSpec) : Type 0 where
  pub job_id : a.job_id ≡ b.job_id
  pub repository : a.repository ≡ b.repository
  pub workspace : a.workspace ≡ b.workspace
  pub workspaces : Within a.workspaces b.workspaces
  pub includes : Within a.includes b.includes
  pub weight : a.weight ≡ b.weight
  pub argv : a.argv ≡ b.argv
  pub created_at : a.created_at ≡ b.created_at
  pub commits : Within a.commits b.commits
  pub overlays : Within a.overlays b.overlays
  pub workload : a.workload ≡ b.workload
  pub session : a.session ≡ b.session

both : (a b : Bool) → a && b ≡ true → (a ≡ true) × (b ≡ true)
both true b h = (refl, h)
both false b h = absurd (cc)

texts_eq→eq : (xs ys : List Text) → texts_eq xs ys ≡ true → xs ≡ ys
unfolding texts_eq
texts_eq→eq [] [] h = refl
texts_eq→eq [] (y ∷ ys) h = absurd (cc)
texts_eq→eq (x ∷ xs) [] h = absurd (cc)
texts_eq→eq (x ∷ xs) (y ∷ ys) h =
    let (first, rest) = both (text_eq x y) (texts_eq xs ys) h in
    let same = text_eq→eq x y first in let more = texts_eq→eq xs ys rest in cc

manifest_eq→eq : (m n : OverlayManifest) → manifest_eq m n ≡ true → m ≡ n
manifest_eq→eq m n h =
    let (t, d) = both (texts_eq m.transfer n.transfer) (texts_eq m.delete n.delete) h in
    let transfers = texts_eq→eq m.transfer n.transfer t in
    let deletes = texts_eq→eq m.delete n.delete d in
    ap (λ t. record { transfer = t; delete = m.delete }) transfers
    ∙ ap (λ d. record { transfer = n.transfer; delete = d }) deletes

module _ {ℓ} {V : Type ℓ} (eq : V → V → Bool) (sound : (a b : V) → eq a b ≡ true → a ≡ b) where
  option_eq→eq : (a b : Option V) → option_eq eq a b ≡ true → a ≡ b
  option_eq→eq none none h = refl
  option_eq→eq none (some b) h = absurd (cc)
  option_eq→eq (some a) none h = absurd (cc)
  option_eq→eq (some a) (some b) h = ap some (sound a b h)

  entries_in-Within : (d e : Dict V) → entries_in eq d e ≡ true → Within d e
  unfolding entries_in lookup
  entries_in-Within [] e h k v found = absurd (cc)
  entries_in-Within ((name, w) ∷ d) e h k v found =
      let (first, rest) = both (option_eq eq (some w) (lookup name e)) (entries_in eq d e) h in
      elim (text_eq_cases name k) [
        | inl (p, q) ↦
            let at : lookup name e ≡ some w = sym (option_eq→eq (some w) (lookup name e) first) in
            let same : w ≡ v = ground arith in
            let moved : lookup k e ≡ some w = rw (← q) at in moved ∙ ap some same
        | inr (p, q) ↦ entries_in-Within d e rest k v (ground arith)
      ]

  dict_eq-Within : (d e : Dict V) → dict_eq eq d e ≡ true → Within d e
  unfolding dict_eq
  dict_eq-Within d e h = entries_in-Within d e (both (length d == length e) (entries_in eq d e) h).1

pub spec_eq-SameContract : (a b : JobSpec) → spec_eq a b ≡ true → SameContract a b
unfolding spec_eq
spec_eq-SameContract a b h =
    let (job_id, h) = both _ _ h in
    let (repository, h) = both _ _ h in
    let (workspace, h) = both _ _ h in
    let (workspaces, h) = both _ _ h in
    let (includes, h) = both _ _ h in
    let (weight, h) = both _ _ h in
    let (argv, h) = both _ _ h in
    let (created_at, h) = both _ _ h in
    let (commits, h) = both _ _ h in
    let (overlays, h) = both _ _ h in
    let (workload, session) = both _ _ h in
    record {
      job_id = text_eq→eq _ _ job_id;
      repository = text_eq→eq _ _ repository;
      workspace = text_eq→eq _ _ workspace;
      workspaces = dict_eq-Within text_eq text_eq→eq _ _ workspaces;
      includes = dict_eq-Within text_eq text_eq→eq _ _ includes;
      weight = text_eq→eq _ _ weight;
      argv = texts_eq→eq _ _ argv;
      created_at = text_eq→eq _ _ created_at;
      commits = dict_eq-Within text_eq text_eq→eq _ _ commits;
      overlays = dict_eq-Within manifest_eq manifest_eq→eq _ _ overlays;
      workload = text_eq→eq _ _ workload;
      session = option_eq→eq text_eq text_eq→eq _ _ session;
    }
