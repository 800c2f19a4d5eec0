-- ===== src/Routing/Hooks.antt =====
-- The loop of `cleanupRouting` over the hooks removes each chain and each jump.
use hashshashin.Base.{
  ℕ, zero, suc, ◌≡◌, refl, subst, ap₂, inl, inr, String, str_eq, true, ◌&&◌, List, [], ◌∷◌, arith,
  Bool-cases,
}
use text.Mathlib.TextEquality.{eq_iff}
use hashshashin.Config.{Config}
use hashshashin.Shell.{
  run_quiet, each, delete_jumps, delete_chain_of, iptables, check_jump, delete_jump, flush_chain,
  delete_chain,
}
use hashshashin.Shell.Emits.{Emits, emits_quiet, emits_each}
use hashshashin.Routing.{Hook, all_hooks, delete_hook, cleanup_routing}
use hashshashin.Routing.Idle.{emits}
use hashshashin.Routing.Objects.{Object, chain, rules_of, jump, removed, chain_in, jump_in, InPlan}
use hashshashin.Routing.Plan.{delete_jumps-InPlan, delete_hook-InPlan}
use hashshashin.Routing.Removal.{
  IsRemoved, RemovedSince, Removes, IsQuiet, quiet, IsQuiet-each, IsQuiet-if, IsQuiet-run,
  IsQuiet-running, Removes-running, Removes-look, Removes-run, Removes-first, Removes-second,
}

pub ruleset removes = (Removes-run, quiet, emits)

pub delete_jumps-IsQuiet : (fuel : ℕ) (t h n : String) → IsQuiet (delete_jumps fuel t h n)
unfolding delete_jumps
delete_jumps-IsQuiet zero t h n = IsQuiet-running
delete_jumps-IsQuiet (suc fuel) t h n = search (quiet, delete_jumps-IsQuiet fuel t h n)

pub delete_hook-IsQuiet : (fuel : ℕ) (h : Hook) → IsQuiet (delete_hook fuel h)
unfolding delete_chain_of
delete_hook-IsQuiet fuel (t, h, n) = search (quiet, delete_jumps-IsQuiet fuel t h n) depth 10

-- The loop over the jumps ends with a look that finds none.
module _ (c : Config) where
  pub delete_jumps-Removes :
      (fuel : ℕ) (t h n : String) → Removes (jump t h n) (delete_jumps fuel t h n)
  unfolding delete_jumps removed InPlan
  delete_jumps-Removes zero t h n = Removes-running (jump t h n)
  delete_jumps-Removes (suc fuel) t h n =
      Removes-look (jump t h n) (iptables t (check_jump h n)) _
        (Removes-second (InPlan true c) (jump t h n) (run_quiet (iptables t (delete_jump h n)))
          (delete_jumps fuel t h n)
          (emits_quiet (InPlan true c) (iptables t (delete_jump h n)) refl)
          (IsQuiet-run (iptables t (delete_jump h n))) (delete_jumps-Removes fuel t h n))
        refl

  delete_hook-Removes_jump :
      (fuel : ℕ) (t h n : String) → Removes (jump t h n) (delete_hook fuel (t, h, n))
  unfolding delete_chain_of InPlan
  delete_hook-Removes_jump fuel t h n =
      Removes-first (InPlan true c) (jump t h n) (delete_jumps fuel t h n) _
        (delete_jumps-Removes fuel t h n) (delete_jumps-IsQuiet fuel t h n) (search emits)

  delete_hook-Removes_chain :
      (fuel : ℕ) (t h n : String) → Removes (chain t n) (delete_hook fuel (t, h, n))
  unfolding delete_chain_of InPlan removed
  delete_hook-Removes_chain fuel t h n =
      Removes-second (InPlan true c) (chain t n) (delete_jumps fuel t h n) _
        (delete_jumps-InPlan true c fuel t h n) (delete_jumps-IsQuiet fuel t h n)
        (Removes-second (InPlan true c) (chain t n) (run_quiet (iptables t (flush_chain n))) _
          (search emits) (IsQuiet-run (iptables t (flush_chain n)))
          (Removes-run (chain t n) (iptables t (delete_chain n)) (λ b. refl)))

  delete_hook-Removes_rules_of :
      (fuel : ℕ) (t h n : String) → Removes (rules_of t n) (delete_hook fuel (t, h, n))
  unfolding delete_chain_of InPlan removed
  delete_hook-Removes_rules_of fuel t h n =
      Removes-second (InPlan true c) (rules_of t n) (delete_jumps fuel t h n) _
        (delete_jumps-InPlan true c fuel t h n) (delete_jumps-IsQuiet fuel t h n)
        (Removes-first (InPlan true c) (rules_of t n) (run_quiet (iptables t (flush_chain n))) _
          (Removes-run (rules_of t n) (iptables t (flush_chain n)) (λ b. refl))
          (IsQuiet-run (iptables t (flush_chain n))) (search emits))

  hooks_first :
      (o : Object) (fuel : ℕ) (h : Hook) (hooks : List Hook)
      → Removes o (delete_hook fuel h)
      → Removes o (each (delete_hook fuel) (h ∷ hooks))
  unfolding each
  hooks_first o fuel h hooks p =
      Removes-first (InPlan true c) o (delete_hook fuel h) _ p (delete_hook-IsQuiet fuel h)
        (emits_each (InPlan true c) (delete_hook fuel) hooks (delete_hook-InPlan true c fuel))

  hooks_later :
      (o : Object) (fuel : ℕ) (h : Hook) (hooks : List Hook)
      → Removes o (each (delete_hook fuel) hooks)
      → Removes o (each (delete_hook fuel) (h ∷ hooks))
  unfolding each
  hooks_later o fuel h hooks p =
      Removes-second (InPlan true c) o (delete_hook fuel h) _ (delete_hook-InPlan true c fuel h)
        (delete_hook-IsQuiet fuel h) p

  -- What the loop's round removes of each chain.
  delete_hooks-Removes_of :
      (o : String → String → Object) (fuel : ℕ)
      → ((t h n : String) → Removes (o t n) (delete_hook fuel (t, h, n)))
      → (hooks : List Hook) (t n : String) → chain_in hooks t n ≡ true
      → Removes (o t n) (each (delete_hook fuel) hooks)
  unfolding chain_in
  delete_hooks-Removes_of o fuel round [] t n e = cc
  delete_hooks-Removes_of o fuel round ((t', h, n') ∷ hooks) t n e =
      elim (Bool-cases (str_eq t' t && str_eq n' n)) [
        | inl here ↦
            let st : t' ≡ t = ground (arith, eq_iff t' t) in
            let sn : n' ≡ n = ground (arith, eq_iff n' n) in
            hooks_first (o t n) fuel (t', h, n') hooks
              (subst (λ x. Removes x (delete_hook fuel (t', h, n'))) (ap₂ o st sn) (round t' h n'))
        | inr other ↦
            hooks_later (o t n) fuel (t', h, n') hooks
              (delete_hooks-Removes_of o fuel round hooks t n (ground (arith, other)))
      ]

  pub delete_hooks-Removes_chain :
      (fuel : ℕ) (hooks : List Hook) (t n : String)
      → chain_in hooks t n ≡ true
      → Removes (chain t n) (each (delete_hook fuel) hooks)
  delete_hooks-Removes_chain fuel hooks t n e =
      delete_hooks-Removes_of chain fuel (delete_hook-Removes_chain fuel) hooks t n e

  pub delete_hooks-Removes_rules_of :
      (fuel : ℕ) (hooks : List Hook) (t n : String)
      → chain_in hooks t n ≡ true
      → Removes (rules_of t n) (each (delete_hook fuel) hooks)
  delete_hooks-Removes_rules_of fuel hooks t n e =
      delete_hooks-Removes_of rules_of fuel (delete_hook-Removes_rules_of fuel) hooks t n e

  pub delete_hooks-Removes_jump :
      (fuel : ℕ) (hooks : List Hook) (t h n : String)
      → jump_in hooks t h n ≡ true
      → Removes (jump t h n) (each (delete_hook fuel) hooks)
  unfolding jump_in
  delete_hooks-Removes_jump fuel [] t h n e = cc
  delete_hooks-Removes_jump fuel ((t', h', n') ∷ hooks) t h n e =
      elim (Bool-cases (str_eq t' t && (str_eq h' h && str_eq n' n))) [
        | inl here ↦
            let st : t' ≡ t = ground (arith, eq_iff t' t) in
            let sh : h' ≡ h = ground (arith, eq_iff h' h) in
            let sn : n' ≡ n = ground (arith, eq_iff n' n) in
            hooks_first (jump t h n) fuel (t', h', n') hooks
              (subst (λ x. Removes x (delete_hook fuel (t', h', n'))) (cc)
                (delete_hook-Removes_jump fuel t' h' n'))
        | inr other ↦
            hooks_later (jump t h n) fuel (t', h', n') hooks
              (delete_hooks-Removes_jump fuel hooks t h n (ground (arith, other)))
      ]

  pub hooks-IsQuiet : (fuel : ℕ) → IsQuiet (each (delete_hook fuel) all_hooks)
  hooks-IsQuiet fuel = IsQuiet-each (delete_hook fuel) all_hooks (delete_hook-IsQuiet fuel)

  pub hooks-InPlan : (fuel : ℕ) → Emits (InPlan true c) (each (delete_hook fuel) all_hooks)
  hooks-InPlan fuel =
      emits_each (InPlan true c) (delete_hook fuel) all_hooks (delete_hook-InPlan true c fuel)

  -- What the hooks' loop removes.
  pub by_hooks :
      (fuel : ℕ) (o : Object)
      → Removes o (each (delete_hook fuel) all_hooks)
      → Removes o (cleanup_routing fuel c)
  unfolding cleanup_routing InPlan
  by_hooks fuel o p =
      Removes-first (InPlan true c) o (each (delete_hook fuel) all_hooks) _ p (hooks-IsQuiet fuel)
        (search emits depth 12)
