-- ===== src/Main/Undone.antt =====
-- When each thing that a log's commands made was the subject of a later command that takes it away.
use hashshashin.Base.{
  ◌≡◌, ◌≢◌, refl, sym, ◌∙◌, subst, ◌⊎◌, inl, inr, [], ◌∷◌, ◌++◌, Option, none, some, arith,
}
use mathlib.Core.List.{append_cancel_right}
use hashshashin.Shell.{Script, Shell, Log, Command, running}
use hashshashin.Shell.Emits.{AllEntries, Emits}
use hashshashin.Routing.Objects.{Object, made, MakesNothing}
use hashshashin.Routing.Removal.{IsRemoved, Removes}

-- One of these later commands is there to remove what this command made.
unfoldable pub IsSettled : Log → Option Object → Type 0
IsSettled later none = Unit
IsSettled later (some o) = IsRemoved o later

-- For everything that a command of the log made, a later command, of the log or of `later`, is there to
-- remove it: it was run, whether or not it succeeded.
unfoldable pub IsUndone : Log → Log → Type 0
unfolding IsSettled
IsUndone later [] = Unit
IsUndone later (e ∷ log) = IsSettled later (made e.command) × IsUndone (e ∷ later) log

-- Commands to remove all that the entries made were run later.
IsUndone-removed :
    (P : Command → Type 0) (later log : Log)
    → ((c : Command) (o : Object) → P c → made c ≡ some o → IsRemoved o later)
    → AllEntries P log
    → IsUndone later log
unfolding IsUndone
IsUndone-removed P later [] h all = tt
IsUndone-removed P later (e ∷ log) h (p, all) =
    (go (made e.command) refl, IsUndone-removed P (e ∷ later) log (λ c o q m. inr (h c o q m)) all)
  where
    go : (o : Option Object) → made e.command ≡ o → IsSettled later o
    go none m = tt
    go (some o) m = h e.command o p m

-- Entries that make nothing, over entries whose objects they remove.
IsUndone-append :
    (P : Command → Type 0) (later xs log : Log)
    → AllEntries MakesNothing xs
    → ((c : Command) (o : Object) → P c → made c ≡ some o → IsRemoved o later ⊎ IsRemoved o xs)
    → AllEntries P log
    → IsUndone later (xs ++ log)
unfolding IsUndone
IsUndone-append P later [] log idle h all =
    IsUndone-removed P later log
      (λ c o p m. elim (h c o p m) [ inl gone ↦ gone | inr never ↦ absurd never ]) all
IsUndone-append P later (x ∷ xs) log (idle, more) h all = (
  subst (λ o. IsSettled later o) (sym idle) tt,
  IsUndone-append P (x ∷ later) xs log more (λ c o p m. shift c o (h c o p m)) all,
)
  where
    shift :
        (c : Command) (o : Object)
        → IsRemoved o later ⊎ IsRemoved o (x ∷ xs)
        → IsRemoved o (x ∷ later) ⊎ IsRemoved o xs
    shift c o (inl gone) = inl (inr gone)
    shift c o (inr (inl now)) = inl (inl now)
    shift c o (inr (inr soon)) = inr soon

-- A cleanup that makes nothing and runs the commands that remove what a log has made.
pub IsUndone-cleanup :
    (P : Command → Type 0) (k : Script) (sh : Shell) (log : Log)
    → Emits MakesNothing k
    → ((c : Command) (o : Object) → P c → made c ≡ some o → Removes o k)
    → AllEntries P log
    → (k sh log).0 ≢ running
    → IsUndone [] (k sh log).1
unfolding Emits Removes
IsUndone-cleanup P k sh log idle gone all ends =
    let (xs, (e, nothing)) = idle sh log in
    subst (λ z. IsUndone [] z) (sym e)
      (IsUndone-append P [] xs log nothing
        (λ c o p m.
          let (ys, (f, here)) = gone c o p m sh log ends in
          inr (subst (λ z. IsRemoved o z) (append_cancel_right ys xs log (sym f ∙ e)) here))
        all)

pub IsUndone-nothing : (log : Log) → AllEntries MakesNothing log → IsUndone [] log
IsUndone-nothing log all =
    IsUndone-removed MakesNothing [] log (λ c o p m. absurd (ground (arith, p, m))) all
