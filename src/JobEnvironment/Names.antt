-- ===== src/JobEnvironment/Names.antt =====
-- Which jobs share a Compose project and a Buildx builder.
use remote_worktree_runner.Common.{is_identifier, validate_identifier}
use remote_worktree_runner.JobEnvironment.{resource_text, job_resource_name}
use mathlib.Core.List.{append_cancel_left, append_cancel_right, append_assoc}
use remote_worktree_runner.Prelude.{◌≡◌, sym, ap, ◌∙◌, true, ◌∷◌, ◌++◌, arith, Text, codes, ok}

pub job_resource_name-ok :
    (r j name : Text) → job_resource_name r j ≡ ok name → name ≡ resource_text r j
unfolding job_resource_name validate_identifier
job_resource_name-ok r j name h = ground arith

-- Within one repository different jobs have different resources, and a job has different
-- resources in different repositories.
pub job_resource_name_injective :
    (r s j k name : Text)
    → job_resource_name r j ≡ ok name
    → job_resource_name s k ≡ ok name
    → (r ≡ s → j ≡ k) × (j ≡ k → r ≡ s)
job_resource_name_injective r s j k name h h' =
    let same : resource_text r j ≡ resource_text s k =
      sym (job_resource_name-ok r j name h) ∙ job_resource_name-ok s k name h' in
    let tails : r ++ b'-' ∷ j ≡ s ++ b'-' ∷ k = append_cancel_left (codes "trie-") _ _ same in
    (
      λ e.
          let t : s ++ b'-' ∷ j ≡ s ++ b'-' ∷ k = rw e at tails in
          let u : b'-' ∷ j ≡ b'-' ∷ k = append_cancel_left s _ _ t in cc,
      λ e. append_cancel_right r s (b'-' ∷ k) (rw e at tails),
    )

-- The hyphen that joins the two parts may also stand in them: the job `c` of the repository `a-b`
-- has the resources of the job `b-c` of the repository `a`.
pub job_resource_name_collision :
    (a b c : Text)
    → is_identifier a ≡ true
    → is_identifier c ≡ true
    → is_identifier (a ++ b'-' ∷ b) ≡ true
    → is_identifier (b ++ b'-' ∷ c) ≡ true
    → (job_resource_name (a ++ b'-' ∷ b) c ≡ job_resource_name a (b ++ b'-' ∷ c))
      × ((name : Text) × (job_resource_name a (b ++ b'-' ∷ c) ≡ ok name))
unfolding job_resource_name validate_identifier
job_resource_name_collision a b c va vc vab vbc = (
  rw (va, vc, vab, vbc) (ap (λ t. ok (codes "trie-" ++ t)) (append_assoc a (b'-' ∷ b) (b'-' ∷ c))),
  (resource_text a (b ++ b'-' ∷ c), rw (va, vbc)),
)
