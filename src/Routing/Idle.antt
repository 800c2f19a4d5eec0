-- ===== src/Routing/Idle.antt =====
-- The cleanups make nothing.
use hashshashin.Base.{ℕ, zero, suc, ◌≡◌, String, none}
use hashshashin.Config.{Config}
use hashshashin.Shell.{Command, delete_jumps, delete_chain_of}
use hashshashin.Shell.Emits.{
  Emits, emits_return, emits_cmd, emits_quiet, emits_ipt, emits_if, emits_if_succeeds, emits_then,
  emits_or_clean_up, emits_each,
}
use hashshashin.Routing.{Hook, all_hooks, delete_hook, cleanup_rules, cleanup_routing}
use hashshashin.Routing.Policy.{cleanup_smart_return_policy}
use hashshashin.Routing.Setup.{clean}
use hashshashin.Routing.Objects.{made}

pub ruleset emits = (
  emits_return, emits_cmd, emits_quiet, emits_ipt, emits_if, emits_if_succeeds, emits_then,
  emits_or_clean_up, emits_each,
)

-- Any property that the commands which make nothing have.
module _ (P : Command → Type 0) (idle : (command : Command) → made command ≡ none → P command) where
  pub cleanup_smart_return_policy-Emits : Emits P cleanup_smart_return_policy
  unfolding cleanup_smart_return_policy made
  cleanup_smart_return_policy-Emits = search (emits, idle) depth 16

  pub delete_jumps-Emits :
      (fuel : ℕ) (table hook custom : String) → Emits P (delete_jumps fuel table hook custom)
  unfolding delete_jumps made
  delete_jumps-Emits zero table hook custom = search emits
  delete_jumps-Emits (suc fuel) table hook custom =
      search (emits, idle, delete_jumps-Emits fuel table hook custom) depth 8

  pub delete_hook-Emits : (fuel : ℕ) (h : Hook) → Emits P (delete_hook fuel h)
  unfolding delete_chain_of made
  delete_hook-Emits fuel (table, hook, custom) =
      search (emits, idle, delete_jumps-Emits fuel table hook custom) depth 16

  pub cleanup_rules-Emits : (c : Config) → Emits P (cleanup_rules c)
  unfolding cleanup_rules made
  cleanup_rules-Emits c = search (emits, idle) depth 16

  pub cleanup_routing-Emits : (fuel : ℕ) (c : Config) → Emits P (cleanup_routing fuel c)
  unfolding cleanup_routing made
  cleanup_routing-Emits fuel c =
      search (emits, idle, emits_each P (delete_hook fuel) all_hooks (delete_hook-Emits fuel)) depth
        16

  pub clean-Emits : (fuel : ℕ) (c : Config) → Emits P (clean fuel c)
  unfolding clean
  clean-Emits fuel c =
      emits_then P cleanup_smart_return_policy _ cleanup_smart_return_policy-Emits
        (cleanup_routing-Emits fuel c)
