-- ===== src/ServerCli/Equality.antt =====
-- trie_remote/job_store.py: the generated equality of the dataclass `JobSpec`.
use remote_worktree_runner.Prelude.{
  Bool, true, false, ◌&&◌, Option, none, some, List, [], ◌∷◌, ◌==◌, length, Text, text_eq, Dict,
  lookup,
}
use remote_worktree_runner.JobStore.Spec.{JobSpec, OverlayManifest}

-- Equality of the fields, of the tuples and of the dictionaries, which have no order.
unfoldable pub texts_eq : List Text → List Text → Bool
texts_eq [] [] = true
texts_eq [] (y ∷ ys) = false
texts_eq (x ∷ xs) [] = false
texts_eq (x ∷ xs) (y ∷ ys) = text_eq x y && texts_eq xs ys

abbrev pub option_eq {ℓ} : {A : Type ℓ} → (A → A → Bool) → Option A → Option A → Bool
option_eq eq none none = true
option_eq eq none (some b) = false
option_eq eq (some a) none = false
option_eq eq (some a) (some b) = eq a b

unfoldable pub entries_in {ℓ} : {V : Type ℓ} → (V → V → Bool) → Dict V → Dict V → Bool
entries_in eq [] e = true
entries_in eq ((k, v) ∷ d) e = option_eq eq (some v) (lookup k e) && entries_in eq d e

unfoldable pub dict_eq {ℓ} : {V : Type ℓ} → (V → V → Bool) → Dict V → Dict V → Bool
dict_eq eq d e = length d == length e && entries_in eq d e

abbrev pub manifest_eq : OverlayManifest → OverlayManifest → Bool
manifest_eq m n = texts_eq m.transfer n.transfer && texts_eq m.delete n.delete

unfoldable pub spec_eq : JobSpec → JobSpec → Bool
spec_eq a b =
    text_eq a.job_id b.job_id
    && (text_eq a.repository b.repository
        && (text_eq a.workspace b.workspace
            && (dict_eq text_eq a.workspaces b.workspaces
                && (dict_eq text_eq a.includes b.includes
                    && (text_eq a.weight b.weight
                        && (texts_eq a.argv b.argv
                            && (text_eq a.created_at b.created_at
                                && (dict_eq text_eq a.commits b.commits
                                    && (dict_eq manifest_eq a.overlays b.overlays
                                        && (text_eq a.workload b.workload
                                            && option_eq text_eq a.session b.session))))))))))
