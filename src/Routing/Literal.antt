-- ===== src/Routing/Literal.antt =====
-- A system that takes away exactly what the laws of Routing/Kernel.antt ask for, everything being there
-- at the start: for the examples.
use hashshashin.Base.{◌≡◌, String, Bool, ◌⊎◌, inl, inr, [], ◌∷◌, some, arith}
use hashshashin.Shell.{
  Log, Entry, Command, Op, iptables, ip_link, ip_addr, rule_add, rule_del, route_add,
  route_replace_in, route_flush, route_replace, route_del, tc, sysctl, new_chain, flush_chain,
  delete_chain, check_jump, insert_jump, delete_jump, append_rule, check_rule, insert_rule,
}
use hashshashin.Routing.Objects.{Object, made, removed}
use hashshashin.Routing.Kernel.{Kernel, CanGo}

unfoldable pub Standing : Log → Object → Type 0
unfolding made removed
Standing [] o = Unit
Standing (e ∷ log) o =
    (made e.command ≡ some o)
    ⊎ (Standing log o × (((removed e ≡ some o) × CanGo (Standing log) o) → ⊥))

op_apart :
    (t : String) (op : Op) (q b : Bool) (o : Object)
    → made (iptables t op) ≡ some o
    → removed (record { command = iptables t op; required = q; succeeded = b }) ≡ some o
    → ⊥
unfolding made removed
op_apart t (new_chain c) q b o m r = ground (arith, m, r)
op_apart t (flush_chain c) q b o m r = ground (arith, m, r)
op_apart t (delete_chain c) q b o m r = ground (arith, m, r)
op_apart t (check_jump h c) q b o m r = ground (arith, m, r)
op_apart t (insert_jump h c) q b o m r = ground (arith, m, r)
op_apart t (delete_jump h c) q b o m r = ground (arith, m, r)
op_apart t (append_rule c args) q b o m r = ground (arith, m, r)
op_apart t (check_rule c args) q b o m r = ground (arith, m, r)
op_apart t (insert_rule c args) q b o m r = ground (arith, m, r)

-- No command makes what it removes.
made-removed :
    (c : Command) (q b : Bool) (o : Object)
    → made c ≡ some o
    → removed (record { command = c; required = q; succeeded = b }) ≡ some o
    → ⊥
unfolding made removed
made-removed (iptables t op) q b o m r = op_apart t op q b o m r
made-removed (ip_link args) q b o m r = ground (arith, m, r)
made-removed (ip_addr args) q b o m r = ground (arith, m, r)
made-removed (rule_add p k t) q b o m r = ground (arith, m, r)
made-removed (rule_del p k t) q b o m r = ground (arith, m, r)
made-removed (route_add t args) q b o m r = ground (arith, m, r)
made-removed (route_replace_in t args) q b o m r = ground (arith, m, r)
made-removed (route_flush t) q b o m r = ground (arith, m, r)
made-removed (route_replace ip dev) q b o m r = ground (arith, m, r)
made-removed (route_del ip dev) q b o m r = ground (arith, m, r)
made-removed (tc args) q b o m r = ground (arith, m, r)
made-removed (sysctl args) q b o m r = ground (arith, m, r)

Standing-kept :
    (log : Log) (e : Entry) (o : Object)
    → Standing (e ∷ log) o
    → (made e.command ≡ some o) ⊎ Standing log o
unfolding Standing
Standing-kept log e o (inl m) = inl m
Standing-kept log e o (inr (h, stays)) = inr h

Standing-gone :
    (log : Log) (e : Entry) (o : Object)
    → removed e ≡ some o
    → CanGo (Standing log) o
    → Standing (e ∷ log) o
    → ⊥
unfolding Standing
Standing-gone log e o r can (inl m) = made-removed e.command e.required e.succeeded o m r
Standing-gone log e o r can (inr (h, stays)) = stays (r, can)

pub literal : Kernel
literal = record { holds = Standing; kept_law = Standing-kept; gone_law = Standing-gone }
