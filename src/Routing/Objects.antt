-- ===== src/Routing/Objects.antt =====
-- What the commands of a set-up leave in the kernel, and that it all lies within one plan.
use hashshashin.Base.{
  ◌≡◌, String, str_eq, Bool, true, false, ◌&&◌, ◌||◌, not, List, [], ◌∷◌, Option, none, some,
}
use hashshashin.Config.{Config}
use hashshashin.Shell.{
  Command, Op, Entry, iptables, rule_add, rule_del, route_add, route_replace_in, route_flush,
  route_replace, route_del, ip_link, ip_addr, tc, sysctl, new_chain, flush_chain, delete_chain,
  check_jump, insert_jump, delete_jump, append_rule, check_rule, insert_rule,
}
use hashshashin.Routing.{Hook, all_hooks}

-- A chain, the rules in it, the jump to it, a policy rule, the routes of a table, a host's route. What
-- belongs to the TUN device goes with it.
pub data Object : Type 0 where
  chain rules_of : String → String → Object
  jump : String → String → String → Object
  rule table : String → Object
  host_route : String → Object

op_made : String → Op → Option Object
op_made t (new_chain c) = some (chain t c)
op_made t (flush_chain c) = none
op_made t (delete_chain c) = none
op_made t (check_jump hook c) = none
op_made t (insert_jump hook c) = some (jump t hook c)
op_made t (delete_jump hook c) = none
op_made t (append_rule c args) = some (rules_of t c)
op_made t (check_rule c args) = none
op_made t (insert_rule c args) = some (rules_of t c)

unfoldable pub made : Command → Option Object
unfolding op_made
made (iptables t op) = op_made t op
made (ip_link args) = none
made (ip_addr args) = none
made (rule_add priority mark t) = some (rule priority)
made (rule_del priority mark t) = none
made (route_add t args) = some (table t)
made (route_replace_in t args) = some (table t)
made (route_flush t) = none
made (route_replace ip dev) = some (host_route ip)
made (route_del ip dev) = none
made (tc args) = none
made (sysctl args) = none

op_removed : String → Op → Bool → Option Object
op_removed t (new_chain c) b = none
op_removed t (flush_chain c) b = some (rules_of t c)
op_removed t (delete_chain c) b = some (chain t c)
op_removed t (check_jump hook c) true = none
op_removed t (check_jump hook c) false = some (jump t hook c)
op_removed t (insert_jump hook c) b = none
op_removed t (delete_jump hook c) b = none
op_removed t (append_rule c args) b = none
op_removed t (check_rule c args) b = none
op_removed t (insert_rule c args) b = none

removed_by : Command → Bool → Option Object
unfolding op_removed
removed_by (iptables t op) b = op_removed t op b
removed_by (ip_link args) b = none
removed_by (ip_addr args) b = none
removed_by (rule_add priority mark t) b = none
removed_by (rule_del priority mark t) b = some (rule priority)
removed_by (route_add t args) b = none
removed_by (route_replace_in t args) b = none
removed_by (route_flush t) b = some (table t)
removed_by (route_replace ip dev) b = none
removed_by (route_del ip dev) b = some (host_route ip)
removed_by (tc args) b = none
removed_by (sysctl args) b = none

-- What a command is there to remove, whether or not the system lets it; a jump that is looked for and
-- not there counts as removed.
unfoldable pub removed : Entry → Option Object
unfolding removed_by
removed e = removed_by e.command e.succeeded

-- Hooks whose chain, or whose jump, this is.
unfoldable pub chain_in : List Hook → String → String → Bool
chain_in [] t c = false
chain_in ((t', hook, c') ∷ hooks) t c = (str_eq t' t && str_eq c' c) || chain_in hooks t c

unfoldable pub jump_in : List Hook → String → String → String → Bool
jump_in [] t h c = false
jump_in ((t', hook, c') ∷ hooks) t h c =
    (str_eq t' t && (str_eq hook h && str_eq c' c)) || jump_in hooks t h c

-- The objects that this configuration's node may make, those of smart_policy.go too or not.
unfoldable pub planned : Bool → Config → Object → Bool
unfolding chain_in jump_in
planned policy c (chain t n) = chain_in all_hooks t n
planned policy c (rules_of t n) = chain_in all_hooks t n
planned policy c (jump t hook n) = jump_in all_hooks t hook n
planned policy c (rule p) = str_eq "66" p || (str_eq "77" p || (policy && str_eq "68" p))
planned policy c (table t) = str_eq "166" t || (str_eq "167" t || (policy && str_eq "168" t))
planned policy c (host_route ip) =
    str_eq c.role "kharej"
    && (not (str_eq c.network.iran_public_ip "") && str_eq c.network.iran_public_ip ip)

unfoldable pub planned_all : Bool → Config → Option Object → Bool
planned_all policy c none = true
planned_all policy c (some o) = planned policy c o

-- What the command makes is planned.
unfoldable pub InPlan : Bool → Config → Command → Type 0
unfolding made planned planned_all
InPlan policy c command = planned_all policy c (made command) ≡ true

abbrev pub MakesNothing : Command → Type 0
MakesNothing command = made command ≡ none
