-- ===== src/Routing/Plan.antt =====
-- Every set-up makes planned objects only.
use hashshashin.Base.{none, ℕ, ◌⊎◌, ◌≡◌, ◌≢◌, refl, String, str_eq, Bool, true, not, List, arith}
use hashshashin.Base.Int.{ℤ}
use hashshashin.Config.{Config, Port, Library, Checked, passed}
use hashshashin.Config.Load.{has_ports}
use hashshashin.Shell.{Command, ok, each, reset_chain, delete_jumps, route_replace}
use hashshashin.Shell.Emits.{Emits, emits_return, emits_if, emits_each}
use text.Mathlib.TextEquality.{eq_iff}
use hashshashin.Routing.{
  setup_tun, setup_transport_bypass, protocols, Hook, delete_hook, cleanup_routing, iran_hooks,
  kharej_hooks, reset_hook,
}
use hashshashin.Routing.Iran.{iran_port, iran_mss, setup_iran_routing}
use hashshashin.Routing.Kharej.{kharej_port, kharej_mss, setup_kharej_routing}
use hashshashin.Routing.Setup.{setup_routing}
use hashshashin.Routing.Policy.{
  cleanup_smart_return_policy, set_kharej_return_path, mark_port, setup_smart_return_policy,
}
use hashshashin.Routing.Firewall.{install_carrier_rule, setup_carrier_firewall}
use hashshashin.ReturnPath.{ReturnPath, direct, tunnel, other}
use hashshashin.Routing.Objects.{InPlan, made}
use hashshashin.Routing.Idle.{
  emits, cleanup_smart_return_policy-Emits, delete_jumps-Emits, delete_hook-Emits,
  cleanup_routing-Emits,
}

module _ (policy : Bool) (c : Config) where
  pub idle-InPlan : (command : Command) → made command ≡ none → InPlan policy c command
  unfolding InPlan
  idle-InPlan command h = rw h refl

  iran_hooks-InPlan : Emits (InPlan policy c) (each reset_hook iran_hooks)
  unfolding each reset_chain InPlan
  iran_hooks-InPlan = search emits depth 40

  kharej_hooks-InPlan : Emits (InPlan policy c) (each reset_hook kharej_hooks)
  unfolding each reset_chain InPlan
  kharej_hooks-InPlan = search emits depth 40

  setup_transport_bypass-InPlan : Emits (InPlan policy c) (setup_transport_bypass c)
  unfolding setup_transport_bypass InPlan
  setup_transport_bypass-InPlan = search emits depth 16

  pub cleanup_smart_return_policy-InPlan : Emits (InPlan policy c) cleanup_smart_return_policy
  cleanup_smart_return_policy-InPlan =
      cleanup_smart_return_policy-Emits (InPlan policy c) idle-InPlan

  pub delete_jumps-InPlan :
      (fuel : ℕ) (table hook custom : String)
      → Emits (InPlan policy c) (delete_jumps fuel table hook custom)
  delete_jumps-InPlan fuel table hook custom =
      delete_jumps-Emits (InPlan policy c) idle-InPlan fuel table hook custom

  pub delete_hook-InPlan : (fuel : ℕ) (h : Hook) → Emits (InPlan policy c) (delete_hook fuel h)
  delete_hook-InPlan fuel h = delete_hook-Emits (InPlan policy c) idle-InPlan fuel h

  pub cleanup_routing-InPlan : (fuel : ℕ) → Emits (InPlan policy c) (cleanup_routing fuel c)
  cleanup_routing-InPlan fuel = cleanup_routing-Emits (InPlan policy c) idle-InPlan fuel c

module _ (itoa : ℤ → String) (policy : Bool) (c : Config) where
  pub setup_tun-InPlan : Emits (InPlan policy c) (setup_tun itoa c)
  unfolding setup_tun InPlan
  setup_tun-InPlan = search emits depth 16

  iran_port-InPlan :
      (p : Port) (proto : String) → Emits (InPlan policy c) (iran_port itoa c p proto)
  unfolding iran_port InPlan
  iran_port-InPlan p proto = search emits depth 16

  iran_mss-InPlan : Emits (InPlan policy c) (iran_mss itoa c)
  unfolding iran_mss InPlan
  iran_mss-InPlan = search emits depth 16

  iran_ports-InPlan :
      (ps : List Port)
      → Emits (InPlan policy c) (each (λ p. each (iran_port itoa c p) (protocols p.protocol)) ps)
  iran_ports-InPlan ps = emits_each (InPlan policy c) _ ps (λ p.
      emits_each (InPlan policy c) _ (protocols p.protocol) (λ proto. iran_port-InPlan p proto))

  setup_iran_routing-InPlan : Emits (InPlan policy c) (setup_iran_routing itoa c)
  unfolding setup_iran_routing InPlan
  setup_iran_routing-InPlan =
      search (emits, iran_hooks-InPlan policy c, iran_ports-InPlan c.ports, iran_mss-InPlan) depth
        30

  kharej_port-InPlan :
      (p : Port) (proto : String) → Emits (InPlan policy c) (kharej_port itoa c p proto)
  unfolding kharej_port InPlan
  kharej_port-InPlan p proto = search emits depth 16

  kharej_mss-InPlan : (p : Port) → Emits (InPlan policy c) (kharej_mss itoa c p)
  unfolding kharej_mss InPlan
  kharej_mss-InPlan p = search emits depth 16

  kharej_ports-InPlan :
      (ps : List Port)
      → Emits (InPlan policy c) (each (λ p. each (kharej_port itoa c p) (protocols p.protocol)) ps)
  kharej_ports-InPlan ps = emits_each (InPlan policy c) _ ps (λ p.
      emits_each (InPlan policy c) _ (protocols p.protocol) (λ proto. kharej_port-InPlan p proto))

  host_route-InPlan :
      c.role ≡ "kharej"
      → c.network.iran_public_ip ≢ ""
      → InPlan policy c (route_replace c.network.iran_public_ip c.tun.name)
  unfolding InPlan
  host_route-InPlan role named = ground (
    arith,
    eq_iff c.role "kharej",
    eq_iff c.network.iran_public_ip "",
    eq_iff c.network.iran_public_ip c.network.iran_public_ip,
  )

  setup_kharej_routing-InPlan :
      c.role ≡ "kharej"
      → c.network.iran_public_ip ≢ ""
      → Emits (InPlan policy c) (setup_kharej_routing itoa c)
  unfolding setup_kharej_routing InPlan
  setup_kharej_routing-InPlan role named =
      search
        (
          emits,
          kharej_hooks-InPlan policy c,
          kharej_ports-InPlan c.ports,
          setup_transport_bypass-InPlan policy c,
          kharej_mss-InPlan,
          host_route-InPlan,
        )
        depth 30

  pub setup_routing-InPlan :
      (c.role ≡ "iran") ⊎ (c.role ≡ "kharej")
      → (has_ports c.ports ≡ true → c.network.iran_public_ip ≢ "")
      → Emits (InPlan policy c) (setup_routing itoa c)
  unfolding setup_routing
  setup_routing-InPlan role named =
      emits_if (InPlan policy c) (not (has_ports c.ports)) _ _
        (λ e. emits_return (InPlan policy c) ok)
        (λ e.
          emits_if (InPlan policy c) (str_eq c.role "iran") _ _ (λ here. setup_iran_routing-InPlan)
            (λ other.
              setup_kharej_routing-InPlan (ground (arith, role, eq_iff c.role "iran"))
                (named (ground arith))))

  install_carrier_rule-InPlan :
      (port : Checked ℤ) → Emits (InPlan policy c) (install_carrier_rule itoa c port)
  unfolding install_carrier_rule InPlan
  install_carrier_rule-InPlan (Checked.refused e) = search emits depth 16
  install_carrier_rule-InPlan (passed port) = search emits depth 16

  pub setup_carrier_firewall-InPlan :
      (l : Library) → Emits (InPlan policy c) (setup_carrier_firewall itoa l c)
  unfolding setup_carrier_firewall
  setup_carrier_firewall-InPlan l = search (emits, install_carrier_rule-InPlan) depth 16

module _ (itoa : ℤ → String) (c : Config) where
  pub set_kharej_return_path-InPlan :
      (path : ReturnPath) → Emits (InPlan true c) (set_kharej_return_path itoa c path)
  unfolding set_kharej_return_path InPlan
  set_kharej_return_path-InPlan direct = search emits depth 16
  set_kharej_return_path-InPlan tunnel = search emits depth 16
  set_kharej_return_path-InPlan (other s) = search emits depth 16

  mark_port-InPlan : (p : Port) (proto : String) → Emits (InPlan true c) (mark_port itoa c p proto)
  unfolding mark_port InPlan
  mark_port-InPlan p proto = search (emits, cleanup_smart_return_policy-InPlan true c) depth 16

  mark_ports-InPlan :
      (ps : List Port)
      → Emits (InPlan true c) (each (λ p. each (mark_port itoa c p) (protocols p.protocol)) ps)
  mark_ports-InPlan ps =
      emits_each (InPlan true c) _ ps (λ p.
        emits_each (InPlan true c) _ (protocols p.protocol) (λ proto. mark_port-InPlan p proto))

  pub setup_smart_return_policy-InPlan : Emits (InPlan true c) (setup_smart_return_policy itoa c)
  unfolding setup_smart_return_policy InPlan
  setup_smart_return_policy-InPlan =
      search
        (
          emits,
          cleanup_smart_return_policy-InPlan true c,
          mark_ports-InPlan c.ports,
          set_kharej_return_path-InPlan direct,
        )
        depth 16
