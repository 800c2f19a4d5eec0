-- ===== src/Routing/Toy.antt =====
-- A system whose jumps are counted, one at the start from each hook, and where every other command
-- succeeds: for the examples.
use hashshashin.Base.{
  ℕ, ◌+◌, ◌-◌, ◌≤◌, ◌<◌, ◌≡◌, ◌≢◌, refl, String, str_eq, Bool, true, false, ◌&&◌, [], ◌∷◌,
  if◌then◌else◌, arith, ltb,
}
use text.Mathlib.TextEquality.{eq_iff}
use hashshashin.Shell.{
  Shell, Log, Entry, Command, Op, iptables, ip_link, ip_addr, rule_add, rule_del, route_add,
  route_replace_in, route_flush, route_replace, route_del, tc, sysctl, new_chain, flush_chain,
  delete_chain, check_jump, insert_jump, delete_jump, append_rule, check_rule, insert_rule,
}
use hashshashin.Routing.{Hook}
use hashshashin.Routing.Ending.{Firewall}

abbrev pub same_hook : Hook → String → String → String → Bool
same_hook (t, h, n) t' h' n' = str_eq t t' && (str_eq h h' && str_eq n n')

op_count : Hook → String → Op → Bool → ℕ → ℕ
op_count hook t (insert_jump h n) b k = if same_hook hook t h n then k + 1 else k
op_count hook t (delete_jump h n) true k = if same_hook hook t h n then k - 1 else k
op_count hook t (delete_jump h n) false k = k
op_count hook t (new_chain c) b k = k
op_count hook t (flush_chain c) b k = k
op_count hook t (delete_chain c) b k = k
op_count hook t (check_jump h n) b k = k
op_count hook t (append_rule c args) b k = k
op_count hook t (check_rule c args) b k = k
op_count hook t (insert_rule c args) b k = k

command_count : Hook → Command → Bool → ℕ → ℕ
unfolding op_count
command_count hook (iptables t op) b k = op_count hook t op b k
command_count hook (ip_link args) b k = k
command_count hook (ip_addr args) b k = k
command_count hook (rule_add p m t) b k = k
command_count hook (rule_del p m t) b k = k
command_count hook (route_add t args) b k = k
command_count hook (route_replace_in t args) b k = k
command_count hook (route_flush t) b k = k
command_count hook (route_replace ip dev) b k = k
command_count hook (route_del ip dev) b k = k
command_count hook (tc args) b k = k
command_count hook (sysctl args) b k = k

unfoldable pub count : Log → Hook → ℕ
unfolding command_count
count [] hook = 1
count (e ∷ log) hook = command_count hook e.command e.succeeded (count log hook)

op_answer : Log → String → Op → Bool
op_answer log t (check_jump h n) = ltb 0 (count log (t, h, n))
op_answer log t (insert_jump h n) = true
op_answer log t (delete_jump h n) = true
op_answer log t (new_chain c) = true
op_answer log t (flush_chain c) = true
op_answer log t (delete_chain c) = true
op_answer log t (append_rule c args) = true
op_answer log t (check_rule c args) = true
op_answer log t (insert_rule c args) = true

unfoldable pub counting : Shell
unfolding op_answer count
counting log (iptables t op) = op_answer log t op
counting log (ip_link args) = true
counting log (ip_addr args) = true
counting log (rule_add p m t) = true
counting log (rule_del p m t) = true
counting log (route_add t args) = true
counting log (route_replace_in t args) = true
counting log (route_flush t) = true
counting log (route_replace ip dev) = true
counting log (route_del ip dev) = true
counting log (tc args) = true
counting log (sysctl args) = true

pub count_delete :
    (log : Log) (t h n : String) (e : Entry)
    → e.command ≡ iptables t (delete_jump h n)
    → e.succeeded ≡ true
    → 0 < count log (t, h, n)
    → count (e ∷ log) (t, h, n) < count log (t, h, n)
unfolding count
count_delete log t h n e c done more =
    rw (c, done) (ground (arith, eq_iff t t, eq_iff h h, eq_iff n n))

op_others :
    (t h n t' : String) (op : Op) (b : Bool) (k : ℕ)
    → iptables t' op ≢ iptables t (insert_jump h n)
    → op_count (t, h, n) t' op b k ≤ k
unfolding op_count
op_others t h n t' (insert_jump h' n') b k other =
    ground (arith, eq_iff t t', eq_iff h h', eq_iff n n')
op_others t h n t' (delete_jump h' n') true k other = ground arith
op_others t h n t' (delete_jump h' n') false k other = omega arith
op_others t h n t' (new_chain c) b k other = omega arith
op_others t h n t' (flush_chain c) b k other = omega arith
op_others t h n t' (delete_chain c) b k other = omega arith
op_others t h n t' (check_jump h' n') b k other = omega arith
op_others t h n t' (append_rule c args) b k other = omega arith
op_others t h n t' (check_rule c args) b k other = omega arith
op_others t h n t' (insert_rule c args) b k other = omega arith

command_others :
    (t h n : String) (c : Command) (b : Bool) (k : ℕ)
    → c ≢ iptables t (insert_jump h n)
    → command_count (t, h, n) c b k ≤ k
unfolding command_count
command_others t h n (iptables t' op) b k other = op_others t h n t' op b k other
command_others t h n (ip_link args) b k other = omega arith
command_others t h n (ip_addr args) b k other = omega arith
command_others t h n (rule_add p m t') b k other = omega arith
command_others t h n (rule_del p m t') b k other = omega arith
command_others t h n (route_add t' args) b k other = omega arith
command_others t h n (route_replace_in t' args) b k other = omega arith
command_others t h n (route_flush t') b k other = omega arith
command_others t h n (route_replace ip dev) b k other = omega arith
command_others t h n (route_del ip dev) b k other = omega arith
command_others t h n (tc args) b k other = omega arith
command_others t h n (sysctl args) b k other = omega arith

pub count_others :
    (log : Log) (t h n : String) (e : Entry)
    → e.command ≢ iptables t (insert_jump h n)
    → count (e ∷ log) (t, h, n) ≤ count log (t, h, n)
unfolding count
count_others log t h n e other =
    command_others t h n e.command e.succeeded (count log (t, h, n)) other

op_one : (hook : Hook) (t : String) (op : Op) (b : Bool) (k : ℕ) → op_count hook t op b k ≤ k + 1
unfolding op_count
op_one hook t (insert_jump h n) b k = ground arith
op_one hook t (delete_jump h n) true k = ground arith
op_one hook t (delete_jump h n) false k = omega arith
op_one hook t (new_chain c) b k = omega arith
op_one hook t (flush_chain c) b k = omega arith
op_one hook t (delete_chain c) b k = omega arith
op_one hook t (check_jump h n) b k = omega arith
op_one hook t (append_rule c args) b k = omega arith
op_one hook t (check_rule c args) b k = omega arith
op_one hook t (insert_rule c args) b k = omega arith

command_one : (hook : Hook) (c : Command) (b : Bool) (k : ℕ) → command_count hook c b k ≤ k + 1
unfolding command_count
command_one hook (iptables t op) b k = op_one hook t op b k
command_one hook (ip_link args) b k = omega arith
command_one hook (ip_addr args) b k = omega arith
command_one hook (rule_add p m t) b k = omega arith
command_one hook (rule_del p m t) b k = omega arith
command_one hook (route_add t args) b k = omega arith
command_one hook (route_replace_in t args) b k = omega arith
command_one hook (route_flush t) b k = omega arith
command_one hook (route_replace ip dev) b k = omega arith
command_one hook (route_del ip dev) b k = omega arith
command_one hook (tc args) b k = omega arith
command_one hook (sysctl args) b k = omega arith

pub count_one :
    (log : Log) (t h n : String) (e : Entry) → count (e ∷ log) (t, h, n) ≤ count log (t, h, n) + 1
unfolding count
count_one log t h n e = command_one (t, h, n) e.command e.succeeded (count log (t, h, n))

unfoldable pub counting-Firewall : Firewall counting
unfolding counting
counting-Firewall = record {
  jumps = count;
  check_law = λ log t h n. refl;
  delete_works = λ log t h n more. refl;
  delete_law = count_delete;
  others_law = count_others;
  insert_law = count_one;
}
