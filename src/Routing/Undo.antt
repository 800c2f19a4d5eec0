-- ===== src/Routing/Undo.antt =====
-- The cleanups remove every planned object.
use hashshashin.Base.{
  ℕ, ◌≡◌, subst, inl, inr, String, str_eq, true, false, ◌&&◌, not, arith, Bool-cases,
}
use text.Mathlib.TextEquality.{eq_iff}
use hashshashin.Config.{Config}
use hashshashin.Shell.{Script}
use hashshashin.Routing.{all_hooks, cleanup_routing}
use hashshashin.Routing.Policy.{cleanup_smart_return_policy}
use hashshashin.Routing.Setup.{clean}
use hashshashin.Routing.Objects.{
  Object, chain, rules_of, jump, rule, table, host_route, removed, planned, InPlan,
}
use hashshashin.Routing.Plan.{cleanup_smart_return_policy-InPlan, cleanup_routing-InPlan}
use hashshashin.Routing.Removal.{Removes, IsQuiet, quiet, Removes-first, Removes-second}
use hashshashin.Routing.Hooks.{
  removes, hooks-IsQuiet, hooks-InPlan, by_hooks, delete_hooks-Removes_chain,
  delete_hooks-Removes_rules_of, delete_hooks-Removes_jump,
}

module _ (c : Config) where
  rules-Removes :
      (fuel : ℕ)
      → Removes (rule "66") (cleanup_routing fuel c) × Removes (rule "77") (cleanup_routing fuel c)
  unfolding cleanup_routing InPlan removed
  rules-Removes fuel = (
    search
        (
          removes,
          Removes-first (InPlan true c),
          Removes-second (InPlan true c),
          hooks-IsQuiet c fuel,
          hooks-InPlan c fuel,
        )
        depth 14,
    search
        (
          removes,
          Removes-first (InPlan true c),
          Removes-second (InPlan true c),
          hooks-IsQuiet c fuel,
          hooks-InPlan c fuel,
        )
        depth 14,
  )

  tables-Removes :
      (fuel : ℕ)
      → Removes (table "166") (cleanup_routing fuel c)
        × Removes (table "167") (cleanup_routing fuel c)
  unfolding cleanup_routing InPlan removed
  tables-Removes fuel = (
    search
        (
          removes,
          Removes-first (InPlan true c),
          Removes-second (InPlan true c),
          hooks-IsQuiet c fuel,
          hooks-InPlan c fuel,
        )
        depth 14,
    search
        (
          removes,
          Removes-first (InPlan true c),
          Removes-second (InPlan true c),
          hooks-IsQuiet c fuel,
          hooks-InPlan c fuel,
        )
        depth 14,
  )

  route-Removes :
      (fuel : ℕ)
      → str_eq c.role "kharej" && not (str_eq c.network.iran_public_ip "") ≡ true
      → Removes (host_route c.network.iran_public_ip) (cleanup_routing fuel c)
  unfolding cleanup_routing InPlan removed
  route-Removes fuel e = rw e (
      search
        (
          removes,
          Removes-first (InPlan true c),
          Removes-second (InPlan true c),
          hooks-IsQuiet c fuel,
          hooks-InPlan c fuel,
        )
        depth 14)

  policy-Removes :
      Removes (rule "68") cleanup_smart_return_policy
      × Removes (table "168") cleanup_smart_return_policy
  unfolding cleanup_smart_return_policy InPlan removed
  policy-Removes = (
    search (removes, Removes-first (InPlan true c), Removes-second (InPlan true c)) depth 14,
    search (removes, Removes-first (InPlan true c), Removes-second (InPlan true c)) depth 14,
  )

  pub policy-IsQuiet : IsQuiet cleanup_smart_return_policy
  unfolding cleanup_smart_return_policy
  policy-IsQuiet = search quiet

  by_routing :
      (fuel : ℕ) (o : Object) → Removes o (cleanup_routing fuel c) → Removes o (clean fuel c)
  unfolding clean
  by_routing fuel o p =
      Removes-second (InPlan true c) o cleanup_smart_return_policy _
        (cleanup_smart_return_policy-InPlan true c) policy-IsQuiet p

  by_policy :
      (fuel : ℕ) (o : Object) → Removes o cleanup_smart_return_policy → Removes o (clean fuel c)
  unfolding clean
  by_policy fuel o p =
      Removes-first (InPlan true c) o cleanup_smart_return_policy _ p policy-IsQuiet
        (cleanup_routing-InPlan true c fuel)

  named :
      (o : String → Object) (a p : String) (m : Script)
      → str_eq a p ≡ true
      → Removes (o a) m
      → Removes (o p) m
  named o a p m e h = subst (λ x. Removes (o x) m) ((eq_iff a p).0 e) h

  -- The cleanups together, if they end, remove every planned object.
  pub clean-Removes : (fuel : ℕ) (o : Object) → planned true c o ≡ true → Removes o (clean fuel c)
  unfolding planned
  clean-Removes fuel (chain t n) e =
      by_routing fuel (chain t n)
        (by_hooks c fuel (chain t n) (delete_hooks-Removes_chain c fuel all_hooks t n e))
  clean-Removes fuel (rules_of t n) e =
      by_routing fuel (rules_of t n)
        (by_hooks c fuel (rules_of t n) (delete_hooks-Removes_rules_of c fuel all_hooks t n e))
  clean-Removes fuel (jump t h n) e =
      by_routing fuel (jump t h n)
        (by_hooks c fuel (jump t h n) (delete_hooks-Removes_jump c fuel all_hooks t h n e))
  clean-Removes fuel (rule p) e = elim (Bool-cases (str_eq "66" p)) [
    | inl a ↦
        named rule "66" p (clean fuel c) a (by_routing fuel (rule "66") (rules-Removes fuel).0)
    | inr a' ↦ elim (Bool-cases (str_eq "77" p)) [
      | inl b ↦
          named rule "77" p (clean fuel c) b (by_routing fuel (rule "77") (rules-Removes fuel).1)
      | inr b' ↦
          named rule "68" p (clean fuel c) (ground (arith, a', b'))
            (by_policy fuel (rule "68") policy-Removes.0)
    ]
  ]
  clean-Removes fuel (table p) e = elim (Bool-cases (str_eq "166" p)) [
    | inl a ↦
        named table "166" p (clean fuel c) a (by_routing fuel (table "166") (tables-Removes fuel).0)
    | inr a' ↦ elim (Bool-cases (str_eq "167" p)) [
      | inl b ↦
          named table "167" p (clean fuel c) b
            (by_routing fuel (table "167") (tables-Removes fuel).1)
      | inr b' ↦
          named table "168" p (clean fuel c) (ground (arith, a', b'))
            (by_policy fuel (table "168") policy-Removes.1)
    ]
  ]
  clean-Removes fuel (host_route ip) e =
      named host_route c.network.iran_public_ip ip (clean fuel c) (ground arith)
        (by_routing fuel (host_route c.network.iran_public_ip) (route-Removes fuel (ground arith)))

  -- The cleanup of routing.go, if it ends, removes all but the policy's objects.
  pub cleanup_routing-Removes :
      (fuel : ℕ) (o : Object) → planned false c o ≡ true → Removes o (cleanup_routing fuel c)
  unfolding planned
  cleanup_routing-Removes fuel (chain t n) e =
      by_hooks c fuel (chain t n) (delete_hooks-Removes_chain c fuel all_hooks t n e)
  cleanup_routing-Removes fuel (rules_of t n) e =
      by_hooks c fuel (rules_of t n) (delete_hooks-Removes_rules_of c fuel all_hooks t n e)
  cleanup_routing-Removes fuel (jump t h n) e =
      by_hooks c fuel (jump t h n) (delete_hooks-Removes_jump c fuel all_hooks t h n e)
  cleanup_routing-Removes fuel (rule p) e = elim (Bool-cases (str_eq "66" p)) [
    | inl a ↦ named rule "66" p (cleanup_routing fuel c) a (rules-Removes fuel).0
    | inr a' ↦
        named rule "77" p (cleanup_routing fuel c) (ground (arith, a')) (rules-Removes fuel).1
  ]
  cleanup_routing-Removes fuel (table p) e = elim (Bool-cases (str_eq "166" p)) [
    | inl a ↦ named table "166" p (cleanup_routing fuel c) a (tables-Removes fuel).0
    | inr a' ↦
        named table "167" p (cleanup_routing fuel c) (ground (arith, a')) (tables-Removes fuel).1
  ]
  cleanup_routing-Removes fuel (host_route ip) e =
      named host_route c.network.iran_public_ip ip (cleanup_routing fuel c) (ground arith)
        (route-Removes fuel (ground arith))
