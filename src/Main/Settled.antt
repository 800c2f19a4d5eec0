-- ===== src/Main/Settled.antt =====
-- Whatever fails, a run that ends has run the commands that remove what it made.
use hashshashin.Base.{◌≡◌, ◌≢◌, refl, sym, subst, [], ◌∷◌, some}
use hashshashin.Shell.{
  Script, Shell, Log, Command, Status, ok, command_failed, refused, running, ◌>>◌, then_run,
  or_clean_up, clean_up, cleaned, and_after, deferring, finish,
}
use hashshashin.Shell.Emits.{AllEntries, Emits, AllEntries-append}
use hashshashin.Routing.Objects.{MakesNothing, Object, made}
use hashshashin.Routing.Removal.{Removes}
use hashshashin.Main.Undone.{IsUndone, IsUndone-cleanup, IsUndone-nothing}

AllEntries-map :
    (P Q : Command → Type 0) (log : Log)
    → ((c : Command) → P c → Q c)
    → AllEntries P log
    → AllEntries Q log
AllEntries-map P Q [] f all = tt
AllEntries-map P Q (e ∷ log) f (p, all) = (f e.command p, AllEntries-map P Q log f all)

grown :
    (P : Command → Type 0) (m : Script) (sh : Shell) (log : Log)
    → Emits P m
    → AllEntries P log
    → AllEntries P (m sh log).1
unfolding Emits
grown P m sh log emits all =
    let (xs, (e, new)) = emits sh log in
    subst (λ z. AllEntries P z) (sym e) (AllEntries-append P xs log new all)

-- On success everything made has the property, after a failure the commands that remove all were run.
pub Settled : (Command → Type 0) → Status × Log → Type 0
Settled Q (ok, log) = AllEntries Q log
Settled Q (command_failed c, log) = IsUndone [] log
Settled Q (refused, log) = IsUndone [] log
Settled Q (running, log) = Unit

unfoldable pub Settles : (Command → Type 0) → (Command → Type 0) → Script → Type 0
Settles P Q m = (sh : Shell) (log : Log) → AllEntries P log → Settled Q (m sh log)

unfoldable pub Ends : (Command → Type 0) → Script → Type 0
Ends P m =
    (sh : Shell) (log : Log) → AllEntries P log → (m sh log).0 ≢ running → IsUndone [] (m sh log).1

-- A cleanup for what has the property.
pub record Clears (Q : Command → Type 0) (k : Script) : Type 0 where
  pub idle : Emits MakesNothing k
  pub gone : (c : Command) (o : Object) → Q c → made c ≡ some o → Removes o k

pub Settles-then :
    (P Q R : Command → Type 0) (m k : Script) → Settles P Q m → Settles Q R k → Settles P R (m >> k)
unfolding Settles Settled
Settles-then P Q R m k p q sh log all = let (s, log') = m sh log in go s log' (p sh log all)
  where
    go : (s : Status) (log' : Log) → Settled Q (s, log') → Settled R (then_run k sh (s, log'))
    go ok log' h = q sh log' h
    go (command_failed c) log' h = h
    go refused log' h = h
    go running log' h = h

pub Ends-then : (P Q : Command → Type 0) (m k : Script) → Settles P Q m → Ends Q k → Ends P (m >> k)
unfolding Settles Settled Ends
Ends-then P Q m k p q sh log all = let (s, log') = m sh log in go s log' (p sh log all)
  where
    go :
        (s : Status) (log' : Log)
        → Settled Q (s, log')
        → (then_run k sh (s, log')).0 ≢ running
        → IsUndone [] (then_run k sh (s, log')).1
    go ok log' h ends = q sh log' h ends
    go (command_failed c) log' h ends = h
    go refused log' h ends = h
    go running log' h ends = absurd (ends refl)

pub Settles-nothing : (m : Script) → Emits MakesNothing m → Settles MakesNothing MakesNothing m
unfolding Settles Settled
Settles-nothing m emits sh log all =
    let (s, log') = m sh log in go s log' (grown MakesNothing m sh log emits all)
  where
    go : (s : Status) (log' : Log) → AllEntries MakesNothing log' → Settled MakesNothing (s, log')
    go ok log' h = h
    go (command_failed c) log' h = IsUndone-nothing log' h
    go refused log' h = IsUndone-nothing log' h
    go running log' h = tt

cleaned-Settled :
    (Q R : Command → Type 0) (k : Script) (s : Status) (sh : Shell) (log : Log)
    → Clears Q k
    → AllEntries Q log
    → s ≢ ok
    → Settled R (cleaned k s sh log)
unfolding Settled
cleaned-Settled Q R k s sh log clears all failed =
    go s failed (k sh log).0 (IsUndone-cleanup Q k sh log clears.idle clears.gone all)
  where
    go :
        (s : Status)
        → s ≢ ok
        → (s' : Status) → (s' ≢ running → IsUndone [] (k sh log).1)
        → Settled R (and_after s s', (k sh log).1)
    go ok f s' h = absurd (f refl)
    go s f running h = tt
    go running f ok h = tt
    go running f (command_failed c) h = tt
    go running f refused h = tt
    go (command_failed d) f ok h = h (λ e. cc)
    go (command_failed d) f (command_failed c) h = h (λ e. cc)
    go (command_failed d) f refused h = h (λ e. cc)
    go refused f ok h = h (λ e. cc)
    go refused f (command_failed c) h = h (λ e. cc)
    go refused f refused h = h (λ e. cc)

pub Settles-or_clean_up :
    (P Q : Command → Type 0) (m k : Script)
    → ((c : Command) → P c → Q c)
    → Emits Q m
    → Clears Q k
    → Settles P Q (or_clean_up m k)
unfolding Settles Settled
Settles-or_clean_up P Q m k weaken emits clears sh log all =
    let (s, log') = m sh log in
    go s log' (grown Q m sh log emits (AllEntries-map P Q log weaken all))
  where
    go : (s : Status) (log' : Log) → AllEntries Q log' → Settled Q (clean_up k sh (s, log'))
    go ok log' h = h
    go (command_failed c) log' h =
        cleaned-Settled Q Q k (command_failed c) sh log' clears h (λ e. cc)
    go refused log' h = cleaned-Settled Q Q k refused sh log' clears h (λ e. cc)
    go running log' h = tt

pub Ends-deferring :
    (Q : Command → Type 0) (m k : Script) → Emits Q m → Clears Q k → Ends Q (deferring k m)
unfolding Ends
Ends-deferring Q m k emits clears sh log all =
    let (s, log') = m sh log in go s log' (grown Q m sh log emits all)
  where
    after :
        (s : Status) (log' : Log)
        → AllEntries Q log'
        → (cleaned k s sh log').0 ≢ running
        → IsUndone [] (cleaned k s sh log').1
    after s log' h ends =
        IsUndone-cleanup Q k sh log' clears.idle clears.gone h (λ e. ends (rw e refl))

    go :
        (s : Status) (log' : Log)
        → AllEntries Q log'
        → (finish k sh (s, log')).0 ≢ running
        → IsUndone [] (finish k sh (s, log')).1
    go ok log' h ends = after ok log' h ends
    go (command_failed c) log' h ends = after (command_failed c) log' h ends
    go refused log' h ends = after refused log' h ends
    go running log' h ends = absurd (ends refl)
