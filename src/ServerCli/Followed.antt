-- ===== src/ServerCli/Followed.antt =====
-- What the exit code of `_execute_job` is.
use mathlib.Core.Path.{subst}
use remote_worktree_runner.Prelude.{
  ◌≡◌, refl, inl, inr, Option, none, some, List, [], ◌∷◌, if◌then◌else◌, Bool-cases, Text, Result,
  ok, err, >>=-eq-ok, lookup, ℤ, pos,
}
use remote_worktree_runner.Errors.{Error}
use remote_worktree_runner.JobStore.State.{
  ℤ, pos, Status, is_final, preparing, queued, running, passed, failed, cancelled, other, JobState,
}
use remote_worktree_runner.JobStore.Spec.{JobSpec}
use remote_worktree_runner.JobStore.{Store, Outcome, job_directory, read, status}
use remote_worktree_runner.ServerCli.Start.{Launch, start_job}
use remote_worktree_runner.ServerCli.Finalized.{Settled}
use remote_worktree_runner.ServerCli.Execute.{
  exit_code_of, read_round, follow, followed, execute_in, execute_from, read_job, execute_job,
}

-- The recorded code, or else 0 for a job that passed and 1 for another.
pub record IsCodeOf (st : Status) (code : ℤ) : Type 0 where
  pub given : (n : ℤ) → st.details.exit_code ≡ some n → code ≡ n
  pub success : st.details.exit_code ≡ none → st.state ≡ passed → code ≡ pos 0
  pub failure : st.details.exit_code ≡ none → ¬ (st.state ≡ passed) → code ≡ pos 1

-- The code is that of the final status which the job has.
abbrev pub Exits : Text → ℤ → Store → Type 0
Exits j code s = (st : Status) × Settled j st s × IsCodeOf st code

success_code :
    (state : JobState) → state ≡ passed → (elim state [ passed ↦ pos 0 | _ ↦ pos 1 ]) ≡ pos 0
success_code passed h = refl
success_code preparing h = absurd (cc)
success_code queued h = absurd (cc)
success_code running h = absurd (cc)
success_code failed h = absurd (cc)
success_code cancelled h = absurd (cc)
success_code (other _) h = absurd (cc)

failure_code :
    (state : JobState) → ¬ (state ≡ passed) → (elim state [ passed ↦ pos 0 | _ ↦ pos 1 ]) ≡ pos 1
failure_code passed h = absurd (h refl)
failure_code _ h = refl

exit_code_of-IsCodeOf : (st : Status) → IsCodeOf st (exit_code_of st)
unfolding exit_code_of
exit_code_of-IsCodeOf st = record {
  given = λ n e. rw e refl;
  success = λ e p. rw e (success_code st.state p);
  failure = λ e p. rw e (failure_code st.state p);
}

module _ (j : Text) where
  read_round-status : (s : Store) (st : Status) → read_round j s ≡ ok st → status j s ≡ ok st
  unfolding read_round
  read_round-status s st h =
      let (name, _, h₁) = >>=-eq-ok (job_directory j) _ h in
      let (d, _, h₂) = >>=-eq-ok (read (lookup name s)) _ h₁ in
      let (text, _, h₃) = >>=-eq-ok (read d.output) _ h₂ in h₃

  follow-Exits :
      (rounds : List (Store → Store)) (s : Store) (code : ℤ)
      → (follow j rounds s).0 ≡ ok (some code)
      → Exits j code (follow j rounds s).1
  unfolding follow
  follow-Exits [] s code h = absurd (cc)
  follow-Exits (others ∷ rounds) s code h =
      by_round (read_round j (others s)) refl (follow-Exits rounds (others s) code) h
    where
      by_round :
          (r : Result Error Status)
          → read_round j (others s) ≡ r
          → ((follow j rounds (others s)).0 ≡ ok (some code)
              → Exits j code (follow j rounds (others s)).1)
          → (elim r as (λ _. Outcome (Option ℤ)) [
            | err e ↦ (err e, others s)
            | ok st ↦
                if is_final st.state
                then (ok (some (exit_code_of st)), others s)
                else follow j rounds (others s)
          ]).0
            ≡ ok (some code)
          → Exits j code
              (elim r as (λ _. Outcome (Option ℤ)) [
                | err e ↦ (err e, others s)
                | ok st ↦
                    if is_final st.state
                    then (ok (some (exit_code_of st)), others s)
                    else follow j rounds (others s)
              ]).1
      by_round (err e) known ih h = absurd (cc)
      by_round (ok st) known ih h = elim (Bool-cases (is_final st.state)) [
        | inl f ↦ rw f (
          st,
          (read_round-status (others s) st known, f),
          (let h' = rw f at h in
              let same : exit_code_of st ≡ code = cc in
              subst (IsCodeOf st) same (exit_code_of-IsCodeOf st)),
        )
        | inr f ↦ rw f (ih (rw f at h))
      ]

  followed-Exits :
      (rounds : List (Store → Store)) (o : Outcome Status) (code : ℤ)
      → (followed j rounds o).0 ≡ ok (some code)
      → Exits j code (followed j rounds o).1
  unfolding followed
  followed-Exits rounds (err e, s) code h = absurd (cc)
  followed-Exits rounds (ok st, s) code h = follow-Exits rounds s code h

  execute_in-Exits :
      (ev : Launch) (rounds : List (Store → Store)) (spec : JobSpec) (state : JobState) (s : Store)
      (code : ℤ)
      → (execute_in ev j rounds spec state s).0 ≡ ok (some code)
      → Exits j code (execute_in ev j rounds spec state s).1
  unfolding execute_in
  execute_in-Exits ev rounds spec preparing s code h =
      followed-Exits rounds (start_job ev spec s) code h
  execute_in-Exits ev rounds spec _ s code h = follow-Exits rounds s code h

  -- Whatever the worker and the other processes do meanwhile: when `_execute_job` returns, the job
  -- has a final status, and the exit code is the one recorded there, or else 0 for a job that
  -- passed and 1 for another.
  pub execute_job-Exits :
      (ev : Launch) (rounds : List (Store → Store)) (s : Store) (code : ℤ)
      → (execute_job ev j rounds s).0 ≡ ok (some code)
      → Exits j code (execute_job ev j rounds s).1
  unfolding execute_job execute_from
  execute_job-Exits ev rounds s code h = by_job (read_job ev.utc_now j s) h
    where
      by_job :
          (r : Result Error (JobSpec × Status))
          → (execute_from ev j rounds r s).0 ≡ ok (some code)
          → Exits j code (execute_from ev j rounds r s).1
      by_job (err e) h = absurd (cc)
      by_job (ok (spec, st)) h = execute_in-Exits ev rounds spec st.state s code h
