-- ===== src/Routing/Halting.antt =====
-- Every set-up ends, on a system where the cleanups do.
use hashshashin.Base.{String, List}
use hashshashin.Base.Int.{ℤ}
use hashshashin.Config.{Config, Port, Library, Checked, passed}
use hashshashin.Shell.{Shell, each}
use hashshashin.Routing.{
  setup_tun, setup_transport_bypass, protocols, iran_hooks, kharej_hooks, reset_hook,
}
use hashshashin.Routing.Iran.{iran_port, iran_mss, setup_iran_routing}
use hashshashin.Routing.Kharej.{kharej_port, kharej_mss, setup_kharej_routing}
use hashshashin.Routing.Setup.{setup_routing}
use hashshashin.Routing.Policy.{
  cleanup_smart_return_policy, set_kharej_return_path, mark_port, setup_smart_return_policy,
}
use hashshashin.Routing.Firewall.{install_carrier_rule, setup_carrier_firewall}
use hashshashin.ReturnPath.{ReturnPath, direct, tunnel, other}
use hashshashin.Routing.Ending.{Firewall}
use hashshashin.Routing.Bounded.{IsPlain, Stays, stays, Stays-each}

module _ (sh : Shell) (w : Firewall sh) where
  iran_hooks-Stays : Stays sh w (each reset_hook iran_hooks)
  unfolding each
  iran_hooks-Stays = search stays depth 40

  kharej_hooks-Stays : Stays sh w (each reset_hook kharej_hooks)
  unfolding each
  kharej_hooks-Stays = search stays depth 40

  pub policy-Stays : Stays sh w cleanup_smart_return_policy
  unfolding cleanup_smart_return_policy IsPlain
  policy-Stays = search stays depth 16

  module _ (itoa : ℤ → String) (c : Config) where
    bypass-Stays : Stays sh w (setup_transport_bypass c)
    unfolding setup_transport_bypass IsPlain
    bypass-Stays = search stays depth 16

    pub setup_tun-Stays : Stays sh w (setup_tun itoa c)
    unfolding setup_tun IsPlain
    setup_tun-Stays = search stays depth 16

    iran_port-Stays : (p : Port) (proto : String) → Stays sh w (iran_port itoa c p proto)
    unfolding iran_port IsPlain
    iran_port-Stays p proto = search stays depth 16

    iran_mss-Stays : Stays sh w (iran_mss itoa c)
    unfolding iran_mss IsPlain
    iran_mss-Stays = search stays depth 16

    iran_ports-Stays :
        (ps : List Port)
        → Stays sh w (each (λ p. each (iran_port itoa c p) (protocols p.protocol)) ps)
    iran_ports-Stays ps =
        Stays-each sh w _ ps
          (λ p. Stays-each sh w _ (protocols p.protocol) (λ proto. iran_port-Stays p proto))

    setup_iran_routing-Stays : Stays sh w (setup_iran_routing itoa c)
    unfolding setup_iran_routing IsPlain
    setup_iran_routing-Stays =
        search (stays, iran_hooks-Stays, iran_ports-Stays c.ports, iran_mss-Stays) depth 30

    kharej_port-Stays : (p : Port) (proto : String) → Stays sh w (kharej_port itoa c p proto)
    unfolding kharej_port IsPlain
    kharej_port-Stays p proto = search stays depth 16

    kharej_mss-Stays : (p : Port) → Stays sh w (kharej_mss itoa c p)
    unfolding kharej_mss IsPlain
    kharej_mss-Stays p = search stays depth 16

    kharej_ports-Stays :
        (ps : List Port)
        → Stays sh w (each (λ p. each (kharej_port itoa c p) (protocols p.protocol)) ps)
    kharej_ports-Stays ps =
        Stays-each sh w _ ps
          (λ p. Stays-each sh w _ (protocols p.protocol) (λ proto. kharej_port-Stays p proto))

    setup_kharej_routing-Stays : Stays sh w (setup_kharej_routing itoa c)
    unfolding setup_kharej_routing IsPlain
    setup_kharej_routing-Stays =
        search
          (stays, kharej_hooks-Stays, kharej_ports-Stays c.ports, bypass-Stays, kharej_mss-Stays)
          depth 30

    pub setup_routing-Stays : Stays sh w (setup_routing itoa c)
    unfolding setup_routing
    setup_routing-Stays =
        search (stays, setup_iran_routing-Stays, setup_kharej_routing-Stays) depth 8

    install_carrier_rule-Stays : (port : Checked ℤ) → Stays sh w (install_carrier_rule itoa c port)
    unfolding install_carrier_rule IsPlain
    install_carrier_rule-Stays (Checked.refused e) = search stays depth 16
    install_carrier_rule-Stays (passed port) = search stays depth 16

    pub setup_carrier_firewall-Stays : (l : Library) → Stays sh w (setup_carrier_firewall itoa l c)
    unfolding setup_carrier_firewall
    setup_carrier_firewall-Stays l = search (stays, install_carrier_rule-Stays) depth 16

    pub set_kharej_return_path-Stays :
        (path : ReturnPath) → Stays sh w (set_kharej_return_path itoa c path)
    unfolding set_kharej_return_path IsPlain
    set_kharej_return_path-Stays direct = search stays depth 16
    set_kharej_return_path-Stays tunnel = search stays depth 16
    set_kharej_return_path-Stays (other s) = search stays depth 16

    mark_port-Stays : (p : Port) (proto : String) → Stays sh w (mark_port itoa c p proto)
    unfolding mark_port IsPlain
    mark_port-Stays p proto = search (stays, policy-Stays) depth 16

    mark_ports-Stays :
        (ps : List Port)
        → Stays sh w (each (λ p. each (mark_port itoa c p) (protocols p.protocol)) ps)
    mark_ports-Stays ps =
        Stays-each sh w _ ps
          (λ p. Stays-each sh w _ (protocols p.protocol) (λ proto. mark_port-Stays p proto))

    pub setup_smart_return_policy-Stays : Stays sh w (setup_smart_return_policy itoa c)
    unfolding setup_smart_return_policy IsPlain
    setup_smart_return_policy-Stays =
        search (stays, policy-Stays, mark_ports-Stays c.ports, set_kharej_return_path-Stays direct)
          depth 16
