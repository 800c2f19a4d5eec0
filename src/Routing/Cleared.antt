-- ===== src/Routing/Cleared.antt =====
-- After the cleanups no planned object is there, on a system that keeps its word.
use hashshashin.Base.{
  ℕ, ◌≡◌, refl, ap₂, subst, inl, inr, String, str_eq, ◌&&◌, true, false, List, [], ◌∷◌, arith,
  Bool-cases,
}
use text.Mathlib.TextEquality.{eq_iff}
use hashshashin.Config.{Config}
use hashshashin.Shell.{Shell, Log, Command, each}
use hashshashin.Shell.Emits.{emits_each}
use hashshashin.Routing.{Hook, all_hooks, delete_hook, cleanup_routing}
use hashshashin.Routing.Setup.{clean}
use hashshashin.Routing.Policy.{cleanup_smart_return_policy}
use hashshashin.Routing.Objects.{
  Object, chain, rules_of, jump, rule, table, host_route, planned, chain_in, jump_in, MakesNothing,
}
use hashshashin.Routing.Idle.{
  delete_hook-Emits, cleanup_routing-Emits, cleanup_rules-Emits, clean-Emits,
}
use hashshashin.Routing.Hooks.{delete_hook-IsQuiet, hooks-IsQuiet}
use hashshashin.Routing.Undo.{policy-IsQuiet, clean-Removes, cleanup_routing-Removes}
use hashshashin.Routing.Kernel.{
  Kernel, CanGo, Drops, Drops-Removes, Drops-first, Drops-second, delete_hook-Drops_chain,
}

-- Each is a hook of the cleanup's list.
abbrev AreOwn : List Hook → Type 0
AreOwn [] = Unit
AreOwn ((t, h, n) ∷ hooks) = (jump_in all_hooks t h n ≡ true) × AreOwn hooks

all_hooks-AreOwn : AreOwn all_hooks
unfolding jump_in
all_hooks-AreOwn = (refl, (refl, (refl, (refl, (refl, (refl, (refl, (refl, tt))))))))

idle : (command : Command) → MakesNothing command → MakesNothing command
idle command h = h

module _ (w : Kernel) (sh : Shell) (c : Config) (fuel : ℕ) where
  hooks-Drops_chain :
      (hooks : List Hook) (t n : String)
      → AreOwn hooks
      → chain_in hooks t n ≡ true
      → Drops w sh (chain t n) (each (delete_hook fuel) hooks)
  unfolding each chain_in
  hooks-Drops_chain [] t n own e = cc
  hooks-Drops_chain ((t', h, n') ∷ hooks) t n (mine, own) e =
      elim (Bool-cases (str_eq t' t && str_eq n' n)) [
        | inl here ↦
            let st : t' ≡ t = ground (arith, eq_iff t' t) in
            let sn : n' ≡ n = ground (arith, eq_iff n' n) in
            Drops-first w sh (chain t n) (delete_hook fuel (t', h, n')) _
              (delete_hook-IsQuiet fuel (t', h, n'))
              (subst (λ x. Drops w sh x (delete_hook fuel (t', h, n'))) (ap₂ chain st sn)
                (delete_hook-Drops_chain w sh c fuel t' h n' mine))
              (emits_each MakesNothing (delete_hook fuel) hooks
                (delete_hook-Emits MakesNothing idle fuel))
        | inr other ↦
            Drops-second w sh (chain t n) (delete_hook fuel (t', h, n')) _
              (delete_hook-IsQuiet fuel (t', h, n'))
              (hooks-Drops_chain hooks t n own (ground (arith, other)))
      ]

  routing-Drops_chain :
      (t n : String)
      → chain_in all_hooks t n ≡ true
      → Drops w sh (chain t n) (cleanup_routing fuel c)
  unfolding cleanup_routing
  routing-Drops_chain t n e =
      Drops-first w sh (chain t n) (each (delete_hook fuel) all_hooks) _ (hooks-IsQuiet c fuel)
        (hooks-Drops_chain all_hooks t n all_hooks-AreOwn e)
        (cleanup_rules-Emits MakesNothing idle c)

  by_removal :
      (o : Object)
      → ((log : Log) → CanGo (w.holds log) o)
      → planned true c o ≡ true
      → Drops w sh o (clean fuel c)
  by_removal o free e =
      Drops-Removes w sh o (clean fuel c) free (clean-Emits MakesNothing idle fuel c)
        (clean-Removes c fuel o e)

  pub clean-Drops : (o : Object) → planned true c o ≡ true → Drops w sh o (clean fuel c)
  unfolding planned clean
  clean-Drops (chain t n) e =
      Drops-second w sh (chain t n) cleanup_smart_return_policy (cleanup_routing fuel c)
        (policy-IsQuiet c) (routing-Drops_chain t n e)
  clean-Drops (rules_of t n) e = by_removal (rules_of t n) (λ l. tt) e
  clean-Drops (jump t h n) e = by_removal (jump t h n) (λ l. tt) e
  clean-Drops (rule p) e = by_removal (rule p) (λ l. tt) e
  clean-Drops (table t) e = by_removal (table t) (λ l. tt) e
  clean-Drops (host_route ip) e = by_removal (host_route ip) (λ l. tt) e

  of_routing :
      (o : Object)
      → ((log : Log) → CanGo (w.holds log) o)
      → planned false c o ≡ true
      → Drops w sh o (cleanup_routing fuel c)
  of_routing o free e =
      Drops-Removes w sh o (cleanup_routing fuel c) free
        (cleanup_routing-Emits MakesNothing idle fuel c) (cleanup_routing-Removes c fuel o e)

  pub cleanup_routing-Drops :
      (o : Object) → planned false c o ≡ true → Drops w sh o (cleanup_routing fuel c)
  unfolding planned
  cleanup_routing-Drops (chain t n) e = routing-Drops_chain t n e
  cleanup_routing-Drops (rules_of t n) e = of_routing (rules_of t n) (λ l. tt) e
  cleanup_routing-Drops (jump t h n) e = of_routing (jump t h n) (λ l. tt) e
  cleanup_routing-Drops (rule p) e = of_routing (rule p) (λ l. tt) e
  cleanup_routing-Drops (table t) e = of_routing (table t) (λ l. tt) e
  cleanup_routing-Drops (host_route ip) e = of_routing (host_route ip) (λ l. tt) e
