-- ===== src/Scheduler/Permits.antt =====
-- Counting the permits: what `try_slots` and `release` do to the slots, for every holder.
use remote_worktree_runner.Prelude.{
  ◌==◌, ◌-◌, ℕ, ◌+◌, ◌≤◌, ◌<◌, ◌≡◌, refl, ◌⊎◌, inl, inr, true, false, none, some, List, [], ◌∷◌,
  arith, leb, if◌then◌else◌, leb→le, Bool-cases, Option-cases, length, Text, text_eq, text_eq_iff,
}
use remote_worktree_runner.Scheduler.Slots.{
  Slot, acquire, roll_back, try_slots, release, available, held,
}

Slot-holder : (s : Slot) → (s.holder ≡ none) ⊎ ((h : Text) × (s.holder ≡ some h))
Slot-holder s = Option-cases s.holder

-- With enough free slots the loop stops with the lease, and it locks exactly as many slots as asked.
acquire_enough :
    (j : Text) (n : ℕ) (slots : List Slot)
    → 0 < n
    → n ≤ available slots
    → ((acquire j n slots).0 ≡ true)
      × (available (acquire j n slots).1 + n ≡ available slots)
      × (length (acquire j n slots).1 ≡ length slots)
      × ((k : Text)
          → held k (acquire j n slots).1 ≡ (if text_eq j k then held k slots + n else held k slots))
unfolding acquire available held
acquire_enough j n [] some_asked h = absurd (omega arith)
acquire_enough j n (s ∷ slots) some_asked h = elim (Slot-holder s) [
  | inr (o, taken) ↦
      let ih = acquire_enough j n slots some_asked (ground arith) in
      (ground arith, ground arith, ground arith, λ k. ground (arith, ih.3 k))
  | inl free ↦ elim (Bool-cases (n == 1)) [
    | inl last ↦ (ground arith, ground arith, ground arith, λ k. ground arith)
    | inr more ↦
        let ih = acquire_enough j (n - 1) slots (ground arith) (ground arith) in
        (ground arith, ground arith, ground arith, λ k. ground (arith, ih.3 k))
  ]
]

-- With too few, or nothing asked for, the loop runs to its end.
acquire_short :
    (j : Text) (n : ℕ) (slots : List Slot)
    → (available slots < n) ⊎ (n ≡ 0)
    → ((acquire j n slots).0 ≡ false) × (length (acquire j n slots).1 ≡ length slots)
unfolding acquire available
acquire_short j n [] h = (refl, refl)
acquire_short j n (s ∷ slots) h = elim (Slot-holder s) [
  | inr (o, taken) ↦ let ih = acquire_short j n slots (ground arith) in (ground arith, ground arith)
  | inl free ↦ let ih = acquire_short j (n - 1) slots (ground arith) in (ground arith, ground arith)
]

-- Rolling back restores every holder.
roll_back-counts :
    (old new : List Slot)
    → length new ≡ length old
    → (available (roll_back old new) ≡ available old)
      × (length (roll_back old new) ≡ length old)
      × ((k : Text) → held k (roll_back old new) ≡ held k old)
unfolding roll_back available held
roll_back-counts [] [] e = (refl, refl, λ k. refl)
roll_back-counts [] (s ∷ new) e = absurd (omega arith)
roll_back-counts (o ∷ old) [] e = absurd (omega arith)
roll_back-counts (o ∷ old) (s ∷ new) e =
    let ih = roll_back-counts old new (omega arith) in
    (ground arith, ground arith, λ k. ground (arith, ih.2 k))

-- Whether a request can be met.
pub asked_cases :
    (n : ℕ) (slots : List Slot)
    → ((0 < n) × (n ≤ available slots)) ⊎ ((available slots < n) ⊎ (n ≡ 0))
asked_cases n slots = elim (Bool-cases (leb n (available slots))) [
  | inr short ↦ inr (inl (ground arith))
  | inl enough ↦ elim (Bool-cases (n == 0)) [
    | inl nothing ↦ inr (inr (ground arith))
    | inr asked ↦ inl (ground arith, leb→le _ _ enough)
  ]
]

length-try_slots :
    (j : Text) (n : ℕ) (slots : List Slot) → length (try_slots j n slots).1 ≡ length slots
unfolding try_slots
length-try_slots j n slots = elim (asked_cases n slots) [
  | inl (asked, enough) ↦
      let (done, free, len, own) = acquire_enough j n slots asked enough in rw done len
  | inr short ↦
      let (done, len) = acquire_short j n slots short in
      rw done (roll_back-counts slots (acquire j n slots).1 len).1
]

-- `try_slots` returns a lease exactly if some permits are asked for and as many slots are free.
-- Then the job holds as many slots more as it asked for, as many fewer are free, and no other
-- job's count changes. Otherwise nobody holds more or fewer slots than before. The number of
-- slots never changes.
pub try_slots_lem :
    (j : Text) (n : ℕ) (slots : List Slot)
    → ((0 < n) × (n ≤ available slots)
        → ((try_slots j n slots).0 ≡ some (record { job = j; permits = n }))
          × (available (try_slots j n slots).1 + n ≡ available slots)
          × ((k : Text)
              → held k (try_slots j n slots).1
                ≡ (if text_eq j k then held k slots + n else held k slots)))
      × ((available slots < n) ⊎ (n ≡ 0)
          → ((try_slots j n slots).0 ≡ none)
            × (available (try_slots j n slots).1 ≡ available slots)
            × ((k : Text) → held k (try_slots j n slots).1 ≡ held k slots))
      × (length (try_slots j n slots).1 ≡ length slots)
unfolding try_slots
try_slots_lem j n slots = (
  λ (asked, h).
      let (done, free, len, own) = acquire_enough j n slots asked h in
      (rw done, rw done free, rw done own),
  λ h.
      let (done, len) = acquire_short j n slots h in
      let (free, len', own) = roll_back-counts slots (acquire j n slots).1 len in
      (rw done, rw done free, rw done own),
  length-try_slots j n slots,
)

-- Releasing frees the job's slots and no others.
pub release_lem :
    (j : Text) (slots : List Slot)
    → (available (release j slots) ≡ available slots + held j slots)
      × (length (release j slots) ≡ length slots)
      × ((k : Text) → held k (release j slots) ≡ (if text_eq j k then 0 else held k slots))
unfolding release available held
release_lem j [] = (refl, refl, λ k. ground arith)
release_lem j (s ∷ slots) =
    let ih = release_lem j slots in
    elim (Slot-holder s) [
      | inl free ↦ (ground arith, ground arith, λ k. ground (arith, ih.2 k))
      | inr (o, taken) ↦ (
        ground arith,
        ground arith,
        λ k. ground (arith, ih.2 k, text_eq_iff o j, text_eq_iff o k, text_eq_iff j k),
      )
    ]
