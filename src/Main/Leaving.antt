-- ===== src/Main/Leaving.antt =====
-- What stages of a run leave in the kernel, and how that composes.
use hashshashin.Base.{◌≡◌, ◌≢◌, refl, inl, inr, true, [], ◌∷◌, ◌++◌, some}
use hashshashin.Config.{Config}
use hashshashin.Shell.{
  Script, Shell, Log, Command, Status, ok, command_failed, refused, running, ◌>>◌, then_run,
  or_clean_up, clean_up, cleaned, and_after, deferring, finish,
}
use hashshashin.Shell.Emits.{AllEntries}
use hashshashin.Routing.Objects.{Object, made, planned}
use hashshashin.Routing.Kernel.{Kernel}

module _ (w : Kernel) (c : Config) where
  open w use {holds, kept_law}

  -- No planned object is there.
  unfoldable pub Absent : Log → Type 0
  Absent log = (o : Object) → planned true c o ≡ true → holds log o → ⊥

  unfoldable pub Left : (Log → Type 0) → Status × Log → Type 0
  Left J (ok, log) = J log
  Left J (command_failed d, log) = Absent log
  Left J (refused, log) = Absent log
  Left J (running, log) = Unit

  abbrev pub Anything : Log → Type 0
  Anything log = Unit

  -- Objects that commands may not make stay away.
  pub others_gone :
      (P : Command → Type 0) (o : Object)
      → ((command : Command) → P command → made command ≢ some o)
      → (xs log : Log) → AllEntries P xs
      → (holds log o → ⊥)
      → holds (xs ++ log) o
      → ⊥
  others_gone P o never [] log all gone h = gone h
  others_gone P o never (x ∷ xs) log (p, all) gone h = elim (kept_law (xs ++ log) x o h) [
    | inl m ↦ never x.command p m
    | inr before ↦ others_gone P o never xs log all gone before
  ]

  module _ (sh : Shell) where
    unfoldable pub Leaves : (Log → Type 0) → (Log → Type 0) → Script → Type 0
    unfolding Left
    Leaves I J m = (log : Log) → I log → Left J (m sh log)

    pub Leaves-then :
        (I J K : Log → Type 0) (m k : Script) → Leaves I J m → Leaves J K k → Leaves I K (m >> k)
    unfolding Leaves Left
    Leaves-then I J K m k p q log i = let (s, log') = m sh log in go s log' (p log i)
      where
        go : (s : Status) (log' : Log) → Left J (s, log') → Left K (then_run k sh (s, log'))
        go ok log' h = q log' h
        go (command_failed d) log' h = h
        go refused log' h = h
        go running log' h = h

    -- Whatever its status, the script leaves the planned objects away.
    pub Leaves-Absent :
        (I : Log → Type 0) (m : Script)
        → ((log : Log) → I log → (m sh log).0 ≢ running → Absent (m sh log).1)
        → Leaves I Absent m
    unfolding Leaves Left
    Leaves-Absent I m h log i = let (s, log') = m sh log in go s log' (h log i)
      where
        go : (s : Status) (log' : Log) → (s ≢ running → Absent log') → Left Absent (s, log')
        go ok log' h = h (λ e. cc)
        go (command_failed d) log' h = h (λ e. cc)
        go refused log' h = h (λ e. cc)
        go running log' h = tt

    -- A set-up with its cleanup.
    pub Leaves-or_clean_up :
        (I : Log → Type 0) (m k : Script)
        → ((log : Log) → I log → (k sh (m sh log).1).0 ≢ running → Absent (k sh (m sh log).1).1)
        → Leaves I Anything (or_clean_up m k)
    unfolding Leaves Left
    Leaves-or_clean_up I m k h log i = let (s, log') = m sh log in go s log' (h log i)
      where
        after :
            (s : Status) (log' : Log)
            → s ≢ ok
            → ((k sh log').0 ≢ running → Absent (k sh log').1)
            → Left Anything (cleaned k s sh log')
        after s log' failed h = pick s failed (k sh log').0 h
          where
            pick :
                (s : Status)
                → s ≢ ok
                → (s' : Status) → (s' ≢ running → Absent (k sh log').1)
                → Left Anything (and_after s s', (k sh log').1)
            pick ok f s' h = absurd (f refl)
            pick s f running h = tt
            pick running f ok h = tt
            pick running f (command_failed e) h = tt
            pick running f refused h = tt
            pick (command_failed d) f ok h = h (λ e. cc)
            pick (command_failed d) f (command_failed e) h = h (λ e. cc)
            pick (command_failed d) f refused h = h (λ e. cc)
            pick refused f ok h = h (λ e. cc)
            pick refused f (command_failed e) h = h (λ e. cc)
            pick refused f refused h = h (λ e. cc)

        go :
            (s : Status) (log' : Log)
            → ((k sh log').0 ≢ running → Absent (k sh log').1)
            → Left Anything (clean_up k sh (s, log'))
        go ok log' h = tt
        go (command_failed d) log' h = after (command_failed d) log' (λ e. cc) h
        go refused log' h = after refused log' (λ e. cc) h
        go running log' h = tt

    pub Leaves-deferring :
        (k m : Script)
        → ((log : Log) → (k sh log).0 ≢ running → Absent (k sh log).1)
        → (log : Log) → (deferring k m sh log).0 ≢ running
        → Absent (deferring k m sh log).1
    Leaves-deferring k m h log = let (s, log') = m sh log in go s log'
      where
        go :
            (s : Status) (log' : Log)
            → (finish k sh (s, log')).0 ≢ running
            → Absent (finish k sh (s, log')).1
        go ok log' ends = h log' (λ e. ends (rw e refl))
        go (command_failed d) log' ends = h log' (λ e. ends (rw e refl))
        go refused log' ends = h log' (λ e. ends (rw e refl))
        go running log' ends = absurd (ends refl)

    unfoldable pub Finally : (Log → Type 0) → Script → Type 0
    Finally I m = (log : Log) → I log → (m sh log).0 ≢ running → Absent (m sh log).1

    pub Finally-then :
        (I J : Log → Type 0) (m k : Script) → Leaves I J m → Finally J k → Finally I (m >> k)
    unfolding Leaves Left Finally
    Finally-then I J m k p q log i = let (s, log') = m sh log in go s log' (p log i)
      where
        go :
            (s : Status) (log' : Log)
            → Left J (s, log')
            → (then_run k sh (s, log')).0 ≢ running
            → Absent (then_run k sh (s, log')).1
        go ok log' h ends = q log' h ends
        go (command_failed d) log' h ends = h
        go refused log' h ends = h
        go running log' h ends = absurd (ends refl)
