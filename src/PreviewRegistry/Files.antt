-- ===== src/PreviewRegistry/Files.antt =====
-- What a write in the gateway's directory changes.
use remote_worktree_runner.Prelude.{
  true, ◌∷◌, Bool-cases, ◌≢◌, text_eq_refl, ◌≡◌, ap, ◌∙◌, inl, inr, Option, none, some, arith,
  if◌then◌else◌, Text, text_eq, text_eq_cases, ok, err, lookup, lookup-insert, lookup-remove,
}
use remote_worktree_runner.Errors.{Error, os_error}
use remote_worktree_runner.PreviewRegistry.Probe.{Outside, wrote}
use remote_worktree_runner.PreviewRegistry.Site.{
  Entry, file, symlink, directory, World, write_entry, write_route,
}

-- Every name of the directory has what it had.
abbrev pub SameRoutes : World → World → Type 0
SameRoutes w w' = (name : Text) → lookup name w'.routes ≡ lookup name w.routes

abbrev pub entry_of : Option Text → Option Entry
entry_of none = none
entry_of (some content) = some (file content)

-- The name has the given content, or none; every other name has what it had.
abbrev pub OnlyChanged : Text → Option Text → World → World → Type 0
OnlyChanged name content w w' =
    (j : Text)
    → lookup j w'.routes ≡ (if text_eq name j then entry_of content else lookup j w.routes)

write_entry-file :
    (o : Option Entry) (name : Text) (content : Option Text) (w w' : World)
    → write_entry o name content w ≡ (ok tt, w')
    → OnlyChanged name content w w'
unfolding write_entry
write_entry-file (some directory) name content w w' h j = absurd (ground arith)
write_entry-file (some (file t)) name (some c) w w' h j =
    ground (arith, lookup-insert name j (file c) w.routes)
write_entry-file (some (file t)) name none w w' h j = ground (arith, lookup-remove name j w.routes)
write_entry-file (some symlink) name (some c) w w' h j =
    ground (arith, lookup-insert name j (file c) w.routes)
write_entry-file (some symlink) name none w w' h j = ground (arith, lookup-remove name j w.routes)
write_entry-file none name (some c) w w' h j =
    ground (arith, lookup-insert name j (file c) w.routes)
write_entry-file none name none w w' h j = ground (arith, lookup-remove name j w.routes)

pub write_route-file :
    (outside : Outside) (name : Text) (content : Option Text) (w w' : World)
    → write_route outside name content w ≡ (ok tt, w')
    → OnlyChanged name content w w'
unfolding write_route
write_route-file outside name content w w' h =
    elim (Bool-cases (outside.write_fails w.events name content)) [
      | inl e ↦ absurd (cc (rw (e, write_route) at h))
      | inr e ↦ write_entry-file (lookup name w.routes) name content w w' (rw (e, write_route) at h)
    ]

-- A write that succeeds is the next event.
pub write_route-events :
    (outside : Outside) (name : Text) (content : Option Text) (w w' : World)
    → write_route outside name content w ≡ (ok tt, w')
    → w'.events ≡ wrote name content ∷ w.events
unfolding write_route write_entry
write_route-events outside name content w w' h = ground arith

-- A write that fails changes nothing.
pub write_route-failed :
    (outside : Outside) (name : Text) (content : Option Text) (w w' : World) (e : Error)
    → write_route outside name content w ≡ (err e, w')
    → w' ≡ w
unfolding write_route write_entry
write_route-failed outside name content w w' e h = ground arith

-- Writing back what was there before undoes a write.
pub restored :
    (name : Text) (old new : Option Text) (w w1 w2 : World)
    → entry_of old ≡ lookup name w.routes
    → OnlyChanged name new w w1
    → OnlyChanged name old w1 w2
    → SameRoutes w w2
restored name old new w w1 w2 e first second j = elim (text_eq_cases name j) [
  | inl (same, p) ↦ second j ∙ (rw same (e ∙ ap (λ t. lookup t w.routes) p))
  | inr (other, p) ↦ second j ∙ rw other (first j ∙ rw other)
]

pub write_route-ne-directory :
    (outside : Outside) (name : Text) (content : Option Text) (w w' : World)
    → write_route outside name content w ≡ (ok tt, w')
    → lookup name w.routes ≢ some directory
unfolding write_route write_entry
write_route-ne-directory outside name content w w' h d = ground arith

-- Only a directory or the file system is in the way of a write.
pub write_route-over :
    (outside : Outside) (name : Text) (content : Option Text) (w w' : World) (e : Error)
    → lookup name w.routes ≢ some directory
    → write_route outside name content w ≡ (err e, w')
    → (e ≡ os_error) × (outside.write_fails w.events name content ≡ true)
unfolding write_route write_entry
write_route-over outside name content w w' e free h = ground arith

-- A change counted from a world with the same files.
pub OnlyChanged-from :
    (name : Text) (content : Option Text) (w w1 w2 : World)
    → SameRoutes w w1
    → OnlyChanged name content w1 w2
    → OnlyChanged name content w w2
OnlyChanged-from name content w w1 w2 same only j = elim (text_eq_cases name j) [
  | inl (eq, _) ↦ only j ∙ rw eq
  | inr (ne, _) ↦ only j ∙ rw ne (same j)
]

pub OnlyChanged-self :
    (name : Text) (content : Option Text) (w w' : World)
    → OnlyChanged name content w w'
    → lookup name w'.routes ≡ entry_of content
OnlyChanged-self name content w w' only = only name ∙ rw (text_eq_refl name)

-- Writing what is there changes nothing.
pub rewritten :
    (name : Text) (old : Option Text) (w w1 w2 : World)
    → entry_of old ≡ lookup name w.routes
    → SameRoutes w w1
    → OnlyChanged name old w1 w2
    → SameRoutes w w2
rewritten name old w w1 w2 e same second j = elim (text_eq_cases name j) [
  | inl (eq, p) ↦ second j ∙ rw eq (e ∙ ap (λ t. lookup t w.routes) p)
  | inr (ne, _) ↦ second j ∙ rw ne (same j)
]
