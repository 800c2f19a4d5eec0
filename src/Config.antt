-- ===== src/Config.antt =====
-- config.go and performance.go: the configuration, and what it takes from the standard library. JSON
-- decoding is left to encoding/json: the model starts from the decoded record. Go's int is a signed
-- number of any size here; no sum or product of the checks comes near its bounds.
pub mod Defaults
pub mod Load
pub mod Bounds
pub mod Presets
pub mod Ports
pub mod Addresses
pub mod Passed
pub mod Serving
pub mod Accepted
pub mod Sample
mod Tests
use hashshashin.Base.{
  ℕ, ◌+◌, ◌*◌, ◌≡◌, String, str_eq, Bool, true, false, not, ◌&&◌, ◌||◌, List, [], ◌∷◌, Option, none,
  some, ◌==◌, if◌then◌else◌,
}
use hashshashin.Base.Bytes.{Bytes}
use hashshashin.Base.Int.{ℤ, pos, pos_part, neg_part, ltb_ℤ}

pub record Port : Type 0 where
  pub port : ℤ
  pub protocol : String

pub record KcpConfig : Type 0 where
  pub data_shards : ℤ
  pub parity_shards : ℤ
  pub no_delay : ℤ
  pub interval : ℤ
  pub resend : ℤ
  pub no_congestion : ℤ
  pub send_window : ℤ
  pub receive_window : ℤ
  pub mtu : ℤ
  pub socket_buffer : ℤ

pub record SmartReturnConfig : Type 0 where
  pub enabled : Bool
  pub probe_port : ℤ
  pub interval_seconds : ℤ
  pub timeout_seconds : ℤ
  pub fail_threshold : ℤ
  pub recover_threshold : ℤ

pub record PerformanceConfig : Type 0 where
  pub profile : String
  pub tun_queues : ℤ
  pub receive_workers : ℤ
  pub tx_queue_len : ℤ
  pub qdisc : String
  pub socket_buffer : ℤ
  pub stats_interval_seconds : ℤ

pub record TransportConfig : Type 0 where
  pub kind : String
  pub listen : String
  pub peer : String
  pub key : String
  pub keepalive_seconds : ℤ
  pub session_timeout_seconds : ℤ
  pub rekey_minutes : ℤ
  pub kcp : KcpConfig

pub record TunConfig : Type 0 where
  pub name : String
  pub local_cidr : String
  pub peer_ip : String
  pub mtu : ℤ

pub record NetworkConfig : Type 0 where
  pub public_interface : String
  pub public_ip : String
  pub public_gateway : String
  pub foreign_public_ip : String
  pub iran_public_ip : String
  pub lock_service_ports : Bool

pub record Config : Type 0 where
  pub role : String
  pub mode : String
  pub transport : TransportConfig
  pub smart_return : SmartReturnConfig
  pub performance : PerformanceConfig
  pub tun : TunConfig
  pub network : NetworkConfig
  pub ports : List Port

-- What the checks ask of encoding/base64, net, strconv, strings and runtime: whether a text decodes or
-- resolves, the port of a host:port text as a number, the text in lower case without the spaces
-- round it, and the number of CPUs.
pub record Library : Type 0 where
  pub decode_key : String → Option Bytes
  pub resolves_tcp : String → Bool
  pub resolves_udp : String → Bool
  pub parses_cidr : String → Bool
  pub parses_ipv4 : String → Bool
  pub split_port : String → Option String
  pub atoi : String → Option ℤ
  pub lower_trim : String → String
  pub num_cpu : ℤ

-- One constructor for each message.
pub data Error : Type 0 where
  bad_role bad_mode bad_transport long_tun_name bad_mtu : Error
  bad_keepalive short_timeout bad_rekey : Error
  bad_profile bad_queues bad_workers bad_tx_queue bad_qdisc bad_socket_buffer bad_stats : Error
  bad_shards half_fec bad_kcp_flags bad_kcp_timing bad_windows bad_kcp_mtu bad_kcp_buffer : Error
  bad_key bad_listen no_peer bad_peer bad_cidr bad_peer_ip : Error
  smart_needs_direct smart_needs_ports bad_probe_port bad_interval bad_timeout bad_thresholds :
      Error
  missing_network bad_address : Error
  bad_port bad_protocol duplicate_port : ℤ → String → Error
  bad_listen_port unsupported : Error
  carrier_conflict probe_conflict : ℤ → String → Error
  probe_is_carrier : Error

-- What a check returns: the configuration or part of it, or the message of the first failure.
pub data Checked {ℓ} (A : Type ℓ) : Type ℓ where
  refused : Error → Checked A
  passed : A → Checked A

infixl 5 ◌>>=◌ ◌>>◌
abbrev pub ◌>>=◌ {ℓ κ} : {A : Type ℓ} {B : Type κ} → Checked A → (A → Checked B) → Checked B
refused message >>= next = refused message
passed value >>= next = next value

abbrev pub ◌>>◌ {ℓ} : {B : Type ℓ} → Checked (Unit {0}) → Checked B → Checked B
check >> next = check >>= λ _. next

-- `if !b { return e }`.
abbrev pub guard : Bool → Error → Checked (Unit {0})
guard true e = passed tt
guard false e = refused e

-- `if x == 0 { x = d }` and `if s == "" { s = d }`.
abbrev pub is_zero : ℤ → Bool
is_zero x = (pos_part x == 0) && (neg_part x == 0)

abbrev pub or_default : ℤ → ℕ → ℤ
or_default x d = if is_zero x then pos d else x

abbrev pub or_text : String → String → String
or_text s d = if str_eq s "" then d else s

-- Not (x < lo || x > hi).
abbrev pub within : ℕ → ℕ → ℤ → Bool
within lo hi x = not (ltb_ℤ x (pos lo) || ltb_ℤ (pos hi) x)
