-- ===== src/Preview/Distinct.antt =====
-- The slots that the server offers: no name and no host name twice, and the configuration file
-- gives back what was written.
use remote_worktree_runner.Prelude.{
  text_eq_iff, ◌↔◌, lookup-insert_ne, ◌∙◌, All-append, text_eq_refl, ap, ok, true, one_of, ◌≡◌,
  refl, sym, ◌≢◌, inl, inr, false, List, [], ◌∷◌, ◌++◌, arith, All, Text, text_eq_cases, Dict,
  lookup, insert,
}
use mathlib.Core.List.{append_assoc, append-nil}
use remote_worktree_runner.Preview.Slots.{validated_slots, validated_from, is_known}
use remote_worktree_runner.Preview.{PreviewSlot}

-- Two slots share neither their name nor their host name.
abbrev pub Apart : PreviewSlot → PreviewSlot → Type 0
Apart s t = (s.slot ≢ t.slot) × (s.hostname ≢ t.hostname)

-- Any two slots of the list are apart.
abbrev pub AllApart : List PreviewSlot → Type 0
AllApart [] = Unit
AllApart (s ∷ slots) = All (Apart s) slots × AllApart slots

-- {slot.slot: slot for slot in slots}
unfoldable pub by_name : List PreviewSlot → Dict PreviewSlot
by_name [] = []
by_name (s ∷ slots) = (s.slot, s) ∷ by_name slots

by_name-append : (xs ys : List PreviewSlot) → by_name (xs ++ ys) ≡ by_name xs ++ by_name ys
unfolding by_name
by_name-append [] ys = refl
by_name-append (x ∷ xs) ys = rw (by_name-append xs ys)

-- A name that is not known yet goes to the end.
insert-by_name :
    (s : PreviewSlot) (before : List PreviewSlot)
    → is_known (lookup s.slot (by_name before)) ≡ false
    → insert s.slot s (by_name before) ≡ by_name (before ++ s ∷ [])
unfolding by_name insert lookup
insert-by_name s [] h = refl
insert-by_name s (b ∷ before) h = elim (text_eq_cases b.slot s.slot) [
  | inl (e, p) ↦ absurd (ground arith)
  | inr (e, p) ↦ ground (arith, insert-by_name s before)
]

abbrev names : List PreviewSlot → List Text
names [] = []
names (s ∷ slots) = s.hostname ∷ names slots

unknown-Apart :
    (s : PreviewSlot) (before : List PreviewSlot)
    → is_known (lookup s.slot (by_name before)) ≡ false
    → All (λ b. s.slot ≢ b.slot) before
unfolding by_name lookup
unknown-Apart s [] h = tt
unknown-Apart s (b ∷ before) h = elim (text_eq_cases b.slot s.slot) [
  | inl (e, p) ↦ absurd (ground arith)
  | inr (e, p) ↦ (λ q. p (sym q), unknown-Apart s before (ground arith))
]

unused-host :
    (host : Text) (hosts : List Text) (before : List PreviewSlot)
    → All (λ (b : PreviewSlot). one_of b.hostname hosts ≡ true) before
    → one_of host hosts ≡ false
    → All (λ (b : PreviewSlot). host ≢ b.hostname) before
unused-host host hosts [] used h = tt
unused-host host hosts (b ∷ before) (u, used) h =
    (λ p. cc (ap (λ t. one_of t hosts) p), unused-host host hosts before used h)

zip_All :
    (s : PreviewSlot) (before : List PreviewSlot)
    → All (λ (b : PreviewSlot). s.slot ≢ b.slot) before
    → All (λ (b : PreviewSlot). s.hostname ≢ b.hostname) before
    → All (Apart s) before
zip_All s [] p q = tt
zip_All s (b ∷ before) (p, ps) (q, qs) = ((p, q), zip_All s before ps qs)

more_hosts :
    (host : Text) (hosts : List Text) (before : List PreviewSlot)
    → All (λ (b : PreviewSlot). one_of b.hostname hosts ≡ true) before
    → All (λ (b : PreviewSlot). one_of b.hostname (host ∷ hosts) ≡ true) before
unfolding one_of
more_hosts host hosts [] used = tt
more_hosts host hosts (b ∷ before) (u, used) = (ground arith, more_hosts host hosts before used)

-- Slots that are apart from all before and from `s` too.
last-Apart :
    (s : PreviewSlot) (before slots : List PreviewSlot)
    → All (λ t. All (Apart t) (before ++ s ∷ [])) slots
    → All (λ t. All (Apart t) before) slots × All (Apart s) slots
last-Apart s before [] h = (tt, tt)
last-Apart s before (t ∷ slots) (h, hs) =
    let (earlier, own) = parts t before h in
    let (rest, owns) = last-Apart s before slots hs in
    ((earlier, rest), ((λ p. own.0 (sym p), λ p. own.1 (sym p)), owns))
  where
    parts :
        (t : PreviewSlot) (before : List PreviewSlot)
        → All (Apart t) (before ++ s ∷ [])
        → All (Apart t) before × Apart t s
    parts t [] h = (tt, h.0)
    parts t (b ∷ before) (p, h) = let (ps, own) = parts t before h in ((p, ps), own)

validated_from_sound :
    (slots before : List PreviewSlot) (hosts : List Text) (d : Dict PreviewSlot)
    → All (λ (b : PreviewSlot). one_of b.hostname hosts ≡ true) before
    → validated_from slots (by_name before) hosts ≡ ok d
    → (d ≡ by_name (before ++ slots)) × All (λ t. All (Apart t) before) slots × AllApart slots
unfolding validated_from
validated_from_sound [] before hosts d used h = (rw append-nil (cc), tt, tt)
validated_from_sound (s ∷ slots) before hosts d used h =
    let new : is_known (lookup s.slot (by_name before)) ≡ false = ground arith in
    let free : one_of s.hostname hosts ≡ false = ground arith in
    let rest : validated_from slots (by_name (before ++ s ∷ [])) (s.hostname ∷ hosts) ≡ ok d =
      rw (new, free, insert-by_name s before new) at h in
    let own : one_of s.hostname (s.hostname ∷ hosts) ≡ true =
      unfold one_of in ground (arith, text_eq_refl s.hostname) in
    let (e, outer, inner) =
      validated_from_sound slots (before ++ s ∷ []) (s.hostname ∷ hosts) d
        (All-append _ before (s ∷ []) (more_hosts s.hostname hosts before used) (own, tt)) rest in
    let (earlier, owns) = last-Apart s before slots outer in
    (
      e ∙ ap by_name (append_assoc before (s ∷ []) slots),
      (
        zip_All s before (unknown-Apart s before new)
            (unused-host s.hostname hosts before used free),
        earlier,
      ),
      (owns, inner),
    )

-- The next name stays unknown, and the next host unused, after `s` was taken in.
still_free :
    (s : PreviewSlot) (result : Dict PreviewSlot) (hosts : List Text) (slots : List PreviewSlot)
    → All (Apart s) slots
    → All (λ (t : PreviewSlot). is_known (lookup t.slot result) ≡ false) slots
    → All (λ (t : PreviewSlot). one_of t.hostname hosts ≡ false) slots
    → All (λ (t : PreviewSlot). is_known (lookup t.slot (insert s.slot s result)) ≡ false) slots
      × All (λ (t : PreviewSlot). one_of t.hostname (s.hostname ∷ hosts) ≡ false) slots
unfolding one_of
still_free s result hosts [] apart new free = (tt, tt)
still_free s result hosts (t ∷ slots) ((p, q), apart) (n, new) (f, free) =
    let (ns, fs) = still_free s result hosts slots apart new free in
    (
      (rw (lookup-insert_ne s.slot t.slot s result p) n, ns),
      (ground (arith, text_eq_iff t.hostname s.hostname), fs),
    )

validated_from_complete :
    (slots before : List PreviewSlot) (hosts : List Text)
    → AllApart slots
    → All (λ (t : PreviewSlot). is_known (lookup t.slot (by_name before)) ≡ false) slots
    → All (λ (t : PreviewSlot). one_of t.hostname hosts ≡ false) slots
    → validated_from slots (by_name before) hosts ≡ ok (by_name (before ++ slots))
unfolding validated_from
validated_from_complete [] before hosts apart new free = rw append-nil
validated_from_complete (s ∷ slots) before hosts (apart, more) (n, new) (f, free) =
    let (new', free') = still_free s (by_name before) hosts slots apart new free in
    rw (n, f, insert-by_name s before n, ← append_assoc before (s ∷ []) slots)
      (validated_from_complete slots (before ++ s ∷ []) (s.hostname ∷ hosts) more
        (rw (insert-by_name s before n) at new') free')

everywhere :
    (P : PreviewSlot → Type 0) (slots : List PreviewSlot) → ((s : PreviewSlot) → P s) → All P slots
everywhere P [] h = tt
everywhere P (s ∷ slots) h = (h s, everywhere P slots h)

-- The check passes exactly the lists whose slots share no name and no host name, and then returns
-- the dictionary of all of them by their names.
pub validated_slots_iff :
    (slots : List PreviewSlot) (d : Dict PreviewSlot)
    → (validated_slots slots ≡ ok d) ↔ (AllApart slots × (d ≡ by_name slots))
unfolding validated_slots by_name lookup one_of
validated_slots_iff slots d = (
  λ h. let (e, _, apart) = validated_from_sound slots [] [] d tt h in (apart, e),
  λ h. rw (h.1) (
      validated_from_complete slots [] [] h.0 (everywhere _ slots (λ _. refl))
        (everywhere _ slots (λ _. refl))),
)
