-- ===== src/JobStore/Access.antt =====
-- Reading a store after it was changed in one directory.
use remote_worktree_runner.Prelude.{
  ◌≡◌, ◌≢◌, inl, inr, some, arith, if◌then◌else◌, Option-cases, Text, text_eq, text_eq_refl, Result,
  ok, err, >>=-eq-ok, lookup, lookup-insert, lookup-insert_ne,
}
use remote_worktree_runner.Errors.{Error}
use remote_worktree_runner.Common.{validate_identifier}
use remote_worktree_runner.JobStore.State.{JobState, Details, Status}
use remote_worktree_runner.JobStore.{
  JobFiles, Store, update, status, job_directory, transition, advance, write_status,
}

lookup-update :
    (k j : Text) (f : JobFiles → JobFiles) (d : JobFiles) (s : Store)
    → lookup k s ≡ some d
    → lookup j (update k f s) ≡ (if text_eq k j then some (f d) else lookup j s)
unfolding update
lookup-update k j f d s e = rw (e, update) (lookup-insert k j (f d) s)

pub lookup-update_self :
    (k : Text) (f : JobFiles → JobFiles) (d : JobFiles) (s : Store)
    → lookup k s ≡ some d
    → lookup k (update k f s) ≡ some (f d)
lookup-update_self k f d s e = ground (arith, lookup-update k k f d s e, text_eq_refl k)

pub lookup-update_ne :
    (k j : Text) (f : JobFiles → JobFiles) (s : Store)
    → k ≢ j
    → lookup j (update k f s) ≡ lookup j s
unfolding update
lookup-update_ne k j f s h = elim (Option-cases (lookup k s)) [
  | inl e ↦ rw (e, update)
  | inr (d, e) ↦ rw (e, update) (lookup-insert_ne k j (f d) s h)
]

-- A status that can be read comes from a directory of that name.
pub status-eq-ok :
    (j : Text) (s : Store) (st : Status)
    → status j s ≡ ok st
    → (d : JobFiles) × (lookup j s ≡ some d) × (d.status ≡ some st) × (job_directory j ≡ ok j)
unfolding status validate_identifier
status-eq-ok j s st h = ground arith

-- The status depends on the directory alone.
pub status-lookup : (j : Text) (s t : Store) → lookup j t ≡ lookup j s → status j t ≡ status j s
unfolding status validate_identifier
status-lookup j s t e = ground arith

write_status-eq-ok :
    (r : Result Error Status) (j : Text) (s : Store) (st : Status)
    → (write_status r j s).0 ≡ ok st
    → (r ≡ ok st) × ((write_status r j s).1 ≡ update j (λ d. record d { status = some st }) s)
unfolding write_status
write_status-eq-ok (ok x) j s st h = (h, ground arith)
write_status-eq-ok (err e) j s st h = absurd (cc)

-- A transition that is made writes what `advance` says, and nothing else.
pub transition-eq-ok :
    (j : Text) (new : JobState) (x : Details) (now : Text) (s : Store) (st : Status)
    → (transition j new x now s).0 ≡ ok st
    → (old : Status) × (status j s ≡ ok old)
      × (advance old new x now ≡ ok st)
      × ((transition j new x now s).1 ≡ update j (λ d. record d { status = some st }) s)
unfolding transition
transition-eq-ok j new x now s st h =
    let (e, t) = write_status-eq-ok _ j s st h in
    let (old, p, q) = >>=-eq-ok (status j s) (λ old. advance old new x now) e in (old, p, q, t)

-- A transition that is refused leaves the store as it was.
pub transition-eq-err :
    (j : Text) (new : JobState) (x : Details) (now : Text) (s : Store) (e : Error)
    → (transition j new x now s).0 ≡ err e
    → (transition j new x now s).1 ≡ s
unfolding transition write_status
transition-eq-err j new x now s e h = ground arith
