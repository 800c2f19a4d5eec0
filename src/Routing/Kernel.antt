-- ===== src/Routing/Kernel.antt =====
-- What the commands do on a system that keeps its word, and what is gone after the cleanups there.
use hashshashin.Base.{
  ℕ, ◌≡◌, ◌≢◌, refl, sym, ◌∙◌, subst, ◌⊎◌, inl, inr, String, false, true, [], ◌∷◌, ◌++◌, some,
  arith,
}
use mathlib.Core.List.{append_cancel_right}
use hashshashin.Config.{Config}
use hashshashin.Shell.{
  Script, Shell, Log, Entry, Status, ok, command_failed, refused, running, ◌>>◌, then_run,
  log_entry, run_quiet, delete_jumps, delete_chain_of, iptables, flush_chain, delete_chain,
}
use hashshashin.Shell.Emits.{AllEntries, Emits}
use hashshashin.Routing.{all_hooks, delete_hook}
use hashshashin.Routing.Objects.{
  Object, chain, rules_of, jump, rule, table, host_route, made, removed, jump_in, MakesNothing,
}
use hashshashin.Routing.Idle.{delete_jumps-Emits}
use hashshashin.Routing.Removal.{IsRemoved, Removes, IsQuiet}
use hashshashin.Routing.Hooks.{delete_jumps-IsQuiet, delete_jumps-Removes}

-- An empty chain that its hook does not jump to can be deleted; all else goes at once.
abbrev pub CanGo : (Object → Type 0) → Object → Type 0
CanGo holds (chain t n) =
    (h : String) × ((jump_in all_hooks t h n ≡ true)
      × ((holds (jump t h n) → ⊥) × (holds (rules_of t n) → ⊥)))
CanGo holds (rules_of t n) = Unit
CanGo holds (jump t h n) = Unit
CanGo holds (rule p) = Unit
CanGo holds (table t) = Unit
CanGo holds (host_route ip) = Unit

-- What iptables(8) and ip(8) say, if nobody else jumps to the program's chains: only the command that
-- makes an object adds it; after -F, `ip rule del`, `ip route flush` and `ip route del` the object is
-- not there, whether they found it or not, nor is a jump that -C did not find, nor a chain after -X if
-- it was empty and not referred to.
pub record Kernel : Type 1 where
  pub holds : Log → Object → Type 0
  pub kept_law :
      (log : Log) (e : Entry) (o : Object)
      → holds (e ∷ log) o
      → (made e.command ≡ some o) ⊎ holds log o
  pub gone_law :
      (log : Log) (e : Entry) (o : Object)
      → removed e ≡ some o
      → CanGo (holds log) o
      → holds (e ∷ log) o
      → ⊥

module _ (w : Kernel) where
  open w use {holds, kept_law, gone_law}

  -- Commands that make nothing leave what is not there.
  idle_gone :
      (xs log : Log) (o : Object)
      → AllEntries MakesNothing xs
      → (holds log o → ⊥)
      → holds (xs ++ log) o
      → ⊥
  idle_gone [] log o all gone h = gone h
  idle_gone (x ∷ xs) log o (idle, all) gone h = elim (kept_law (xs ++ log) x o h) [
    | inl m ↦ ground (arith, idle, m)
    | inr before ↦ idle_gone xs log o all gone before
  ]

  removed_gone :
      (xs log : Log) (o : Object)
      → ((log : Log) → CanGo (holds log) o)
      → AllEntries MakesNothing xs
      → IsRemoved o xs
      → holds (xs ++ log) o
      → ⊥
  removed_gone [] log o free all r h = r
  removed_gone (x ∷ xs) log o free (idle, all) (inl now) h =
      gone_law (xs ++ log) x o now (free (xs ++ log)) h
  removed_gone (x ∷ xs) log o free (idle, all) (inr before) h = elim (kept_law (xs ++ log) x o h) [
    | inl m ↦ ground (arith, idle, m)
    | inr still ↦ removed_gone xs log o free all before still
  ]

  -- After the script, if it ends, the object is not there.
  unfoldable pub Drops : Shell → Object → Script → Type 0
  Drops sh o m = (log : Log) → (m sh log).0 ≢ running → holds (m sh log).1 o → ⊥

  module _ (sh : Shell) where
    pub kept_gone :
        (m : Script) (log : Log) (o : Object)
        → Emits MakesNothing m
        → (holds log o → ⊥)
        → holds (m sh log).1 o
        → ⊥
    unfolding Emits
    kept_gone m log o idle gone =
        let (xs, (e, all)) = idle sh log in
        subst (λ z. holds z o → ⊥) (sym e) (idle_gone xs log o all gone)

    -- An object that goes at once.
    pub Drops-Removes :
        (o : Object) (m : Script)
        → ((log : Log) → CanGo (holds log) o)
        → Emits MakesNothing m
        → Removes o m
        → Drops sh o m
    unfolding Emits Removes Drops
    Drops-Removes o m free idle removes log ends =
        let (xs, (e, all)) = idle sh log in
        let (ys, (f, gone)) = removes sh log ends in
        let same : IsRemoved o xs =
          subst (λ z. IsRemoved o z) (append_cancel_right ys xs log (sym f ∙ e)) gone in
        subst (λ z. holds z o → ⊥) (sym e) (removed_gone xs log o free all same)

    pub Drops-first :
        (o : Object) (m k : Script)
        → IsQuiet m
        → Drops sh o m
        → Emits MakesNothing k
        → Drops sh o (m >> k)
    unfolding Drops IsQuiet
    Drops-first o m k calm drops idle log = let (s, log') = m sh log in go s log' (drops log)
      where
        go :
            (s : Status) (log' : Log)
            → (s ≢ running → holds log' o → ⊥)
            → (then_run k sh (s, log')).0 ≢ running
            → holds (then_run k sh (s, log')).1 o
            → ⊥
        go ok log' gone ends = kept_gone k log' o idle (gone (λ e. cc))
        go (command_failed c) log' gone ends = gone (λ e. cc)
        go refused log' gone ends = gone (λ e. cc)
        go running log' gone ends = absurd (ends refl)

    pub Drops-second : (o : Object) (m k : Script) → IsQuiet m → Drops sh o k → Drops sh o (m >> k)
    unfolding Drops IsQuiet
    Drops-second o m k calm drops log = let (s, log') = m sh log in go s log' (calm sh log)
      where
        go :
            (s : Status) (log' : Log)
            → (s ≡ ok) ⊎ (s ≡ running)
            → (then_run k sh (s, log')).0 ≢ running
            → holds (then_run k sh (s, log')).1 o
            → ⊥
        go ok log' h ends = drops log' ends
        go (command_failed c) log' h ends = absurd (ground arith)
        go refused log' h ends = absurd (ground arith)
        go running log' h ends = absurd (ends refl)

    -- The chain goes once its jump and its rules are gone.
    pub delete_hook-Drops_chain :
        (c : Config) (fuel : ℕ) (t h n : String)
        → jump_in all_hooks t h n ≡ true
        → Drops sh (chain t n) (delete_hook fuel (t, h, n))
    unfolding Drops delete_chain_of run_quiet removed IsQuiet made
    delete_hook-Drops_chain c fuel t h n own log =
        let (s, log') = delete_jumps fuel t h n sh log in
        go s log' (delete_jumps-IsQuiet fuel t h n sh log) (
          Drops-Removes (jump t h n) (delete_jumps fuel t h n) (λ l. tt)
            (delete_jumps-Emits MakesNothing (λ command m. m) fuel t h n)
            (delete_jumps-Removes c fuel t h n) log)
      where
        rest : Script
        rest = run_quiet (iptables t (flush_chain n)) >> run_quiet (iptables t (delete_chain n))

        go :
            (s : Status) (log' : Log)
            → (s ≡ ok) ⊎ (s ≡ running)
            → (s ≢ running → holds log' (jump t h n) → ⊥)
            → (then_run rest sh (s, log')).0 ≢ running
            → holds (then_run rest sh (s, log')).1 (chain t n)
            → ⊥
        go ok log' q gone ends =
            let flush = log_entry (iptables t (flush_chain n)) false sh log' in
            let delete = log_entry (iptables t (delete_chain n)) false sh (flush ∷ log') in
            gone_law (flush ∷ log') delete (chain t n) refl (
              h,
              (
                own,
                (
                  idle_gone (flush ∷ []) log' (jump t h n) (refl, tt) (gone (λ e. cc)),
                  gone_law log' flush (rules_of t n) refl tt,
                ),
              ),
            )
        go (command_failed d) log' q gone ends = absurd (ground arith)
        go refused log' q gone ends = absurd (ground arith)
        go running log' q gone ends = absurd (ends refl)
