-- ===== src/Routing/Removal.antt =====
-- What the cleanups remove.
use hashshashin.Base.{
  ◌≡◌, ◌≢◌, refl, sym, ap, ◌∙◌, ◌⊎◌, inl, inr, Bool, true, false, List, [], ◌∷◌, ◌++◌, some,
  if◌then◌else◌, arith, append_assoc,
}
use hashshashin.Shell.{
  Script, Shell, Log, Command, Status, ok, command_failed, refused, running, return, then_run, ◌>>◌,
  log_entry, run_quiet, if_succeeds, each,
}
use hashshashin.Shell.Emits.{Emits, Grew}
use hashshashin.Routing.Objects.{Object, removed}

abbrev pub IsRemoved : Object → Log → Type 0
IsRemoved o [] = ⊥
IsRemoved o (e ∷ log) = (removed e ≡ some o) ⊎ IsRemoved o log

-- The new entries have one that removes the object.
abbrev pub RemovedSince : Object → Log → Log → Type 0
RemovedSince o log log' = (ext : Log) × ((log' ≡ ext ++ log) × IsRemoved o ext)

unfoldable pub Removes : Object → Script → Type 0
Removes o m = (sh : Shell) (log : Log) → (m sh log).0 ≢ running → RemovedSince o log (m sh log).1

unfoldable pub IsQuiet : Script → Type 0
IsQuiet m = (sh : Shell) (log : Log) → ((m sh log).0 ≡ ok) ⊎ ((m sh log).0 ≡ running)

pub IsRemoved-append : (o : Object) (xs ys : Log) → IsRemoved o ys → IsRemoved o (xs ++ ys)
IsRemoved-append o [] ys h = h
IsRemoved-append o (x ∷ xs) ys h = inr (IsRemoved-append o xs ys h)

IsRemoved-append_left : (o : Object) (xs ys : Log) → IsRemoved o xs → IsRemoved o (xs ++ ys)
IsRemoved-append_left o (x ∷ xs) ys (inl h) = inl h
IsRemoved-append_left o (x ∷ xs) ys (inr h) = inr (IsRemoved-append_left o xs ys h)
IsRemoved-append_left o [] ys h = elim h [ ]

pub IsQuiet-return : IsQuiet (return ok)
unfolding IsQuiet
IsQuiet-return sh log = inl refl

pub IsQuiet-running : IsQuiet (return running)
unfolding IsQuiet
IsQuiet-running sh log = inr refl

pub IsQuiet-run : (c : Command) → IsQuiet (run_quiet c)
unfolding IsQuiet run_quiet
IsQuiet-run c sh log = inl refl

pub IsQuiet-then : (m k : Script) → IsQuiet m → IsQuiet k → IsQuiet (m >> k)
unfolding IsQuiet
IsQuiet-then m k p q sh log = let (s, log') = m sh log in go s log' (p sh log)
  where
    go :
        (s : Status) (log' : Log)
        → (s ≡ ok) ⊎ (s ≡ running)
        → ((then_run k sh (s, log')).0 ≡ ok) ⊎ ((then_run k sh (s, log')).0 ≡ running)
    go ok log' h = q sh log'
    go running log' h = inr refl
    go (command_failed c) log' h = ground arith
    go refused log' h = ground arith

pub IsQuiet-if : (b : Bool) (m k : Script) → IsQuiet m → IsQuiet k → IsQuiet (if b then m else k)
IsQuiet-if true m k p q = p
IsQuiet-if false m k p q = q

pub IsQuiet-if_succeeds :
    (c : Command) (m k : Script) → IsQuiet m → IsQuiet k → IsQuiet (if_succeeds c m k)
unfolding IsQuiet if_succeeds
IsQuiet-if_succeeds c m k p q sh log = go (sh log c)
  where
    next : Log
    next = log_entry c false sh log ∷ log

    go :
        (b : Bool)
        → ((if b then m sh next else k sh next).0 ≡ ok)
          ⊎ ((if b then m sh next else k sh next).0 ≡ running)
    go true = p sh next
    go false = q sh next

pub IsQuiet-each {ℓ} :
    {A : Type ℓ} (f : A → Script) (xs : List A) → ((x : A) → IsQuiet (f x)) → IsQuiet (each f xs)
unfolding each
IsQuiet-each f [] h = IsQuiet-return
IsQuiet-each f (x ∷ xs) h = IsQuiet-then (f x) (each f xs) (h x) (IsQuiet-each f xs h)

pub ruleset quiet = (IsQuiet-return, IsQuiet-run, IsQuiet-then, IsQuiet-if, IsQuiet-if_succeeds)

pub Removes-run :
    (o : Object) (c : Command)
    → ((b : Bool) → removed (record { command = c; required = false; succeeded = b }) ≡ some o)
    → Removes o (run_quiet c)
unfolding Removes run_quiet
Removes-run o c h sh log ends = (log_entry c false sh log ∷ [], (refl, inl (h (sh log c))))

-- The first part runs the removal, or the second does.
pub Removes-first :
    (P : Command → Type 0) (o : Object) (m k : Script)
    → Removes o m
    → IsQuiet m
    → Emits P k
    → Removes o (m >> k)
unfolding Removes IsQuiet Emits
Removes-first P o m k p calm q sh log =
    let (s, log') = m sh log in go s log' (calm sh log) (p sh log)
  where
    go :
        (s : Status) (log' : Log)
        → (s ≡ ok) ⊎ (s ≡ running)
        → (s ≢ running → RemovedSince o log log')
        → (then_run k sh (s, log')).0 ≢ running
        → RemovedSince o log (then_run k sh (s, log')).1
    go ok log' h since ends =
        let (xs, (e, gone)) = since (λ f. cc) in
        let (ys, (f, all)) = q sh log' in
        (
          ys ++ xs,
          (f ∙ ap (λ z. ys ++ z) e ∙ sym (append_assoc ys xs log), IsRemoved-append o ys xs gone),
        )
    go running log' h since ends = absurd (ends refl)
    go (command_failed c) log' h since ends = since (λ f. cc)
    go refused log' h since ends = since (λ f. cc)

pub Removes-second :
    (P : Command → Type 0) (o : Object) (m k : Script)
    → Emits P m
    → IsQuiet m
    → Removes o k
    → Removes o (m >> k)
unfolding Removes IsQuiet Emits
Removes-second P o m k p calm q sh log =
    let (s, log') = m sh log in go s log' (calm sh log) (p sh log)
  where
    go :
        (s : Status) (log' : Log)
        → (s ≡ ok) ⊎ (s ≡ running)
        → Grew P log log'
        → (then_run k sh (s, log')).0 ≢ running
        → RemovedSince o log (then_run k sh (s, log')).1
    go ok log' h (xs, (e, all)) ends =
        let (ys, (f, gone)) = q sh log' ends in
        (
          ys ++ xs,
          (
            f ∙ ap (λ z. ys ++ z) e ∙ sym (append_assoc ys xs log),
            IsRemoved-append_left o ys xs gone,
          ),
        )
    go running log' h g ends = absurd (ends refl)
    go (command_failed c) log' h g ends = absurd (ground arith)
    go refused log' h g ends = absurd (ground arith)

pub Removes-running : (o : Object) → Removes o (return running)
unfolding Removes
Removes-running o sh log ends = absurd (ends refl)

-- A command that fails when the object is gone.
pub Removes-look :
    (o : Object) (c : Command) (m : Script)
    → Removes o m
    → removed (record { command = c; required = false; succeeded = false }) ≡ some o
    → Removes o (if_succeeds c m (return ok))
unfolding Removes if_succeeds
Removes-look o c m p gone sh log = go (sh log c)
  where
    next : Bool → Log
    next b = record { command = c; required = false; succeeded = b } ∷ log

    go :
        (b : Bool)
        → (if b then m sh (next b) else (ok, next b)).0 ≢ running
        → RemovedSince o log (if b then m sh (next b) else (ok, next b)).1
    go true ends =
        let (xs, (e, h)) = p sh (next true) ends in
        let one : Log = record { command = c; required = false; succeeded = true } ∷ [] in
        (xs ++ one, (e ∙ sym (append_assoc xs one log), IsRemoved-append_left o xs one h))
    go false ends =
        (record { command = c; required = false; succeeded = false } ∷ [], (refl, inl gone))
