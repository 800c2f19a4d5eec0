-- ===== src/Config/Serving.antt =====
-- What `loadConfig` guarantees of the service ports.
use hashshashin.Base.{
  String, subst, ◌≡◌, ◌≢◌, sym, str_eq, Bool, true, false, not, ◌&&◌, [], Option, arith, ◌⊎◌, inl,
  inr, Bool-cases, if◌then◌else◌,
}
use text.Mathlib.TextEquality.{eq_iff}
use hashshashin.Base.Int.{ℤ}
use hashshashin.Config.{
  NetworkConfig, Config, probe_is_carrier, Library, Checked, passed, ◌>>=◌, ◌>>◌, guard,
}
use hashshashin.Config.Load.{
  eq_ℤ, has_ports, check_ports, listen_port, transport_network, probe_in_use, check_conflicts,
  check_network, check_services,
}
use hashshashin.Config.Bounds.{guard_passed, guard_last}
use hashshashin.Config.Addresses.{
  HasPort, listen_port-HasPort, RunsOn, RunsOn-transport_network, Probes, Probes-probe_in_use,
}
use hashshashin.Config.Ports.{ArePorts, AreFree, check_ports-ArePorts, check_conflicts-AreFree}
use hashshashin.Config.Passed.{bind_passed, step_passed}

-- A service list that is not empty: its addresses, its ports, and the carrier's own port.
pub record IsServing (l : Library) (c : Config) : Type 0 where
  pub carrier_port : ℤ
  pub addresses :
      (c.network.public_interface ≢ "")
      × (c.network.public_ip ≢ "")
      × (c.network.foreign_public_ip ≢ "")
      × (c.network.iran_public_ip ≢ "")
  pub ipv4 :
      (l.parses_ipv4 c.network.public_ip ≡ true)
      × (l.parses_ipv4 c.network.foreign_public_ip ≡ true)
      × (l.parses_ipv4 c.network.iran_public_ip ≡ true)
  pub listens : HasPort l c.transport.listen carrier_port
  pub ports : ArePorts c.ports
  pub free :
      (proto : String) (probe : Option ℤ)
      → RunsOn c.transport.kind proto
      → Probes c probe
      → AreFree carrier_port proto probe c.ports
  pub probe :
      c.smart_return.enabled ≡ true
      → (c.transport.kind ≡ "tcp") ⊎ (carrier_port ≢ c.smart_return.probe_port)

check_network-named :
    (l : Library) (n : NetworkConfig)
    → check_network l n ≡ passed tt
    → (n.public_interface ≢ "")
      × (n.public_ip ≢ "")
      × (n.foreign_public_ip ≢ "")
      × (n.iran_public_ip ≢ "")
unfolding check_network
check_network-named l n h =
    let (named, rest) =
      guard_passed
        (not (str_eq n.public_interface "")
          && (not (str_eq n.public_ip "")
              && (not (str_eq n.foreign_public_ip "") && not (str_eq n.iran_public_ip ""))))
        _ h in
    (
      (λ e. ground (arith, eq_iff n.public_interface "")),
      (λ e. ground (arith, eq_iff n.public_ip "")),
      (λ e. ground (arith, eq_iff n.foreign_public_ip "")),
      (λ e. ground (arith, eq_iff n.iran_public_ip "")),
    )

check_network-ipv4 :
    (l : Library) (n : NetworkConfig)
    → check_network l n ≡ passed tt
    → (l.parses_ipv4 n.public_ip ≡ true)
      × (l.parses_ipv4 n.foreign_public_ip ≡ true)
      × (l.parses_ipv4 n.iran_public_ip ≡ true)
unfolding check_network
check_network-ipv4 l n h =
    let (named, h1) =
      guard_passed
        (not (str_eq n.public_interface "")
          && (not (str_eq n.public_ip "")
              && (not (str_eq n.foreign_public_ip "") && not (str_eq n.iran_public_ip ""))))
        _ h in
    let (public, h2) = guard_passed (l.parses_ipv4 n.public_ip) _ h1 in
    let (foreign, h3) = guard_passed (l.parses_ipv4 n.foreign_public_ip) _ h2 in
    (public, foreign, guard_last (l.parses_ipv4 n.iran_public_ip) _ h3)

-- The carrier's own port is not the probe's, unless they are of two protocols.
probe_apart :
    (c : Config) (port : ℤ)
    → not (
        c.smart_return.enabled
        && (str_eq (transport_network c.transport.kind) "udp"
            && eq_ℤ port c.smart_return.probe_port))
      ≡ true
    → c.smart_return.enabled ≡ true
    → (c.transport.kind ≡ "tcp") ⊎ (port ≢ c.smart_return.probe_port)
unfolding transport_network
probe_apart c port apart enabled = elim (Bool-cases (str_eq c.transport.kind "tcp")) [
  | inl tcp ↦ inl ((eq_iff c.transport.kind "tcp").0 tcp)
  | inr other ↦ inr (λ same.
      let hit : eq_ℤ port c.smart_return.probe_port ≡ true = rw same (ground arith) in
      let udp : str_eq (transport_network c.transport.kind) "udp" ≡ true =
        rw (other, transport_network) in
      absurd (ground (arith, apart, enabled, udp, hit)))
]

pub check_services-IsServing :
    (l : Library) (c : Config)
    → check_services l c ≡ passed tt
    → has_ports c.ports ≡ true
    → IsServing l c
unfolding check_services
check_services-IsServing l c h some_port = go (has_ports c.ports) some_port h
  where
    checks : Checked (Unit {0})
    checks = do
      check_network l c.network
      check_ports [] c.ports
      carrier_port ← listen_port l c.transport.listen
      check_conflicts carrier_port (transport_network c.transport.kind) (probe_in_use c) c.ports
      guard
          (not (
            c.smart_return.enabled
            && (str_eq (transport_network c.transport.kind) "udp"
                && eq_ℤ carrier_port c.smart_return.probe_port)))
          probe_is_carrier

    go : (b : Bool) → b ≡ true → (if not b then passed tt else checks) ≡ passed tt → IsServing l c
    go true e h =
        let (network, h1) = step_passed (check_network l c.network) h in
        let (ports, h2) = step_passed (check_ports [] c.ports) h1 in
        let (port, (listens, h3)) = bind_passed (listen_port l c.transport.listen) h2 in
        let (free, h4) =
          step_passed
            (check_conflicts port (transport_network c.transport.kind) (probe_in_use c) c.ports)
            h3 in
        record {
          carrier_port = port;
          addresses = check_network-named l c.network network;
          ipv4 = check_network-ipv4 l c.network network;
          listens = listen_port-HasPort l c.transport.listen port listens;
          ports = check_ports-ArePorts c.ports ports;
          free = λ proto probe on uses.
              subst (λ q. AreFree port proto q c.ports) (sym (Probes-probe_in_use c probe uses))
                (subst (λ n. AreFree port n (probe_in_use c) c.ports)
                  (sym (RunsOn-transport_network c.transport.kind proto on))
                  (check_conflicts-AreFree port (transport_network c.transport.kind)
                    (probe_in_use c) c.ports free));
          probe = probe_apart c port (guard_last _ _ h4);
        }
    go false e h = cc
