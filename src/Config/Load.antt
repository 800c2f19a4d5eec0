-- ===== src/Config/Load.antt =====
-- config.go, `loadConfig` from the decoded record on, in the order of the source's checks.
use Prim.Native.Char.{code}
use hashshashin.Base.{
  ℕ, ◌+◌, String, str_eq, Bool, true, false, not, ◌&&◌, ◌||◌, List, [], ◌∷◌, Option, none, some,
  leb, ltb, ◌==◌, if◌then◌else◌, length,
}
use hashshashin.Base.Bytes.{Bytes}
use hashshashin.Base.Int.{ℤ, pos, pos_part, neg_part, ltb_ℤ, ◌*ℤ◌}
use hashshashin.Config.{
  Config, Port, NetworkConfig, Library, Checked, passed, refused, ◌>>=◌, ◌>>◌, guard, or_default,
  or_text, within, bad_role, bad_mode, bad_transport, long_tun_name, bad_mtu, bad_keepalive,
  short_timeout, bad_rekey, bad_key, bad_listen, no_peer, bad_peer, bad_cidr, bad_peer_ip,
  smart_needs_direct, smart_needs_ports, missing_network, bad_address, bad_port, bad_protocol,
  duplicate_port, bad_listen_port, carrier_conflict, probe_conflict, probe_is_carrier,
}
use hashshashin.Config.Defaults.{
  apply_performance_defaults, validate_performance, apply_kcp_defaults, validate_kcp,
  apply_smart_return_defaults, validate_smart_return,
}

abbrev pub eq_ℤ : ℤ → ℤ → Bool
eq_ℤ a b = (pos_part a == pos_part b) && (neg_part a == neg_part b)

-- Lines 91 to 117: the texts and numbers that have a default.
unfoldable pub fill_basics : Config → Config
fill_basics c = record c {
  transport = record c.transport {
    kind = or_text c.transport.kind "udp";
    keepalive_seconds = or_default c.transport.keepalive_seconds 5;
    session_timeout_seconds = or_default c.transport.session_timeout_seconds 25;
    rekey_minutes = or_default c.transport.rekey_minutes 30;
  };
  tun = record c.tun { name = or_text c.tun.name "hsh0"; mtu = or_default c.tun.mtu 1320 };
}

-- The bytes of a text in UTF-8, which Go's len counts.
unfoldable pub byte_len : String → ℕ
byte_len String.[] = 0
byte_len (String.◌∷◌ c s) =
    (if ltb (code c) 128
      then 1
      else if ltb (code c) 2048
      then 2
      else if ltb (code c) 65536
      then 3
      else 4)
    + byte_len s

-- Lines 94 to 126, on the filled record.
unfoldable pub check_basics : Config → Checked (Unit {0})
unfolding byte_len
check_basics c = do
  guard
      (str_eq c.transport.kind "udp"
        || (str_eq c.transport.kind "tcp" || str_eq c.transport.kind "kcp"))
      bad_transport
  guard (leb (byte_len c.tun.name) 15) long_tun_name
  guard (within 900 1400 c.tun.mtu) bad_mtu
  guard (within 2 60 c.transport.keepalive_seconds) bad_keepalive
  guard (not (ltb_ℤ c.transport.session_timeout_seconds (c.transport.keepalive_seconds *ℤ pos 2)))
      short_timeout
  guard (within 5 1440 c.transport.rekey_minutes) bad_rekey

unfoldable pub validate_transport_address : Library → String → String → Bool
validate_transport_address l kind addr =
    if str_eq kind "tcp"
    then l.resolves_tcp addr
    else if str_eq kind "udp" || str_eq kind "kcp"
    then l.resolves_udp addr
    else false

unfoldable pub is_key : Option Bytes → Bool
is_key none = false
is_key (some key) = length key == 32

-- Lines 140 to 160.
unfoldable pub check_addresses : Library → Config → Checked (Unit {0})
unfolding validate_transport_address is_key
check_addresses l c = do
  guard (is_key (l.decode_key c.transport.key)) bad_key
  guard (validate_transport_address l c.transport.kind c.transport.listen) bad_listen
  guard (not (str_eq c.role "iran") || not (str_eq c.transport.peer "")) no_peer
  guard
      (not (str_eq c.role "iran") || validate_transport_address l c.transport.kind c.transport.peer)
      bad_peer
  guard (l.parses_cidr c.tun.local_cidr) bad_cidr
  guard (l.parses_ipv4 c.tun.peer_ip) bad_peer_ip

unfoldable pub has_ports : List Port → Bool
has_ports [] = false
has_ports (p ∷ ps) = true

-- Lines 162 to 173.
unfoldable pub check_smart_return : Config → Checked Config
check_smart_return c =
    if c.smart_return.enabled
    then (do
      guard (str_eq c.mode "direct-return") smart_needs_direct
      guard (has_ports c.ports) smart_needs_ports
      validate_smart_return (apply_smart_return_defaults c.smart_return)
      passed (record c { smart_return = apply_smart_return_defaults c.smart_return }))
    else passed c

-- Lines 178 to 186.
unfoldable pub check_network : Library → NetworkConfig → Checked (Unit {0})
check_network l n = do
  guard
      (not (str_eq n.public_interface "")
        && (not (str_eq n.public_ip "")
            && (not (str_eq n.foreign_public_ip "") && not (str_eq n.iran_public_ip ""))))
      missing_network
  guard (l.parses_ipv4 n.public_ip) bad_address
  guard (l.parses_ipv4 n.foreign_public_ip) bad_address
  guard (l.parses_ipv4 n.iran_public_ip) bad_address

-- The keys "port/protocol" that the loop has seen.
unfoldable pub seen_port : List Port → Port → Bool
seen_port [] p = false
seen_port (q ∷ qs) p = (eq_ℤ q.port p.port && str_eq q.protocol p.protocol) || seen_port qs p

-- Lines 188 to 201.
unfoldable pub check_ports : List Port → List Port → Checked (Unit {0})
unfolding seen_port
check_ports seen [] = passed tt
check_ports seen (p ∷ ps) =
    let rest = check_ports (p ∷ seen) ps in
    do
      guard (within 1 65535 p.port) (bad_port p.port p.protocol)
      guard (str_eq p.protocol "tcp" || (str_eq p.protocol "udp" || str_eq p.protocol "both"))
          (bad_protocol p.port p.protocol)
      guard (not (seen_port seen p)) (duplicate_port p.port p.protocol)
      rest

unfoldable pub parse_port : Library → Option String → Checked ℤ
parse_port l none = refused bad_listen_port
parse_port l (some text) = elim (l.atoi text) [
  | none ↦ refused bad_listen_port
  | some n ↦ if within 1 65535 n then passed n else refused bad_listen_port
]

unfoldable pub listen_port : Library → String → Checked ℤ
unfolding parse_port
listen_port l addr = parse_port l (l.split_port addr)

unfoldable pub transport_network : String → String
transport_network kind = if str_eq kind "tcp" then "tcp" else "udp"

unfoldable pub protocol_includes : String → String → Bool
protocol_includes service carrier = str_eq service "both" || str_eq service carrier

-- Line 211: no clash with the probe port, if that is in use.
unfoldable pub probe_clear : Option ℤ → Port → Bool
probe_clear none p = true
probe_clear (some q) p =
    not (eq_ℤ p.port q && (str_eq p.protocol "udp" || str_eq p.protocol "both"))

-- Lines 207 to 214, for the carrier's port and protocol, and the probe port.
unfoldable pub check_conflicts : ℤ → String → Option ℤ → List Port → Checked (Unit {0})
unfolding protocol_includes probe_clear
check_conflicts carrier_port proto probe [] = passed tt
check_conflicts carrier_port proto probe (p ∷ ps) =
    let rest = check_conflicts carrier_port proto probe ps in
    do
      guard (not (eq_ℤ p.port carrier_port && protocol_includes p.protocol proto))
          (carrier_conflict p.port p.protocol)
      guard (probe_clear probe p) (probe_conflict p.port p.protocol)
      rest

unfoldable pub probe_in_use : Config → Option ℤ
probe_in_use c = if c.smart_return.enabled then some c.smart_return.probe_port else none

-- Lines 175 to 217.
unfoldable pub check_services : Library → Config → Checked (Unit {0})
check_services l c = if not (has_ports c.ports) then passed tt else (do
  check_network l c.network
  check_ports [] c.ports
  carrier_port ← listen_port l c.transport.listen
  check_conflicts carrier_port (transport_network c.transport.kind) (probe_in_use c) c.ports
  guard
      (not (
        c.smart_return.enabled
        && (str_eq (transport_network c.transport.kind) "udp"
            && eq_ℤ carrier_port c.smart_return.probe_port)))
      probe_is_carrier)

unfoldable pub fill_performance_of : Library → Config → Config
fill_performance_of l c = record c {
  performance = apply_performance_defaults l.lower_trim l.num_cpu c.performance;
}

-- Lines 133 to 138.
unfoldable pub check_kcp : Config → Checked Config
check_kcp c =
    if str_eq c.transport.kind "kcp"
    then (do
      validate_kcp (apply_kcp_defaults c.transport.kcp)
      passed (record c {
        transport = record c.transport { kcp = apply_kcp_defaults c.transport.kcp };
      }))
    else passed c

unfoldable pub load_config : Library → Config → Checked Config
load_config l c = do
  guard (str_eq c.role "iran" || str_eq c.role "kharej") bad_role
  guard (str_eq c.mode "full" || str_eq c.mode "direct-return") bad_mode
  let basics = fill_basics c
  check_basics basics
  let tuned = fill_performance_of l basics
  validate_performance tuned.performance
  with_kcp ← check_kcp tuned
  check_addresses l with_kcp
  with_smart ← check_smart_return with_kcp
  check_services l with_smart
  passed with_smart
