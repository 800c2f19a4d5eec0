-- ===== src/Tunnel.antt =====
-- transport.go and crypto.go: the state that the goroutines of one process share, the session, and
-- the methods on them. A method that takes a lock is one step; the atomic counters wrap at 2 ^ 64.
-- The session is shared by a pointer: `address` stands for the pointer, and the session that
-- `tunnelState` points to is kept in the state, so that an update through the pointer is seen.
pub mod Handshake
pub mod Data
pub mod Dispatch
pub mod Supervisor
pub mod Sample
mod Tests
use hashshashin.Base.{
  ℕ, ◌+◌, ◌-◌, ◌%◌, ◌*◌, ◌^◌, String, Bool, true, false, List, [], ◌∷◌, ◌++◌, Option, none, some,
  ltb, ◌==◌, if◌then◌else◌, length, take,
}
use hashshashin.Base.Bytes.{Bytes, codes}
use hashshashin.Crypto.{Crypto}
use hashshashin.Clock.{second}
use hashshashin.Replay.{ReplayWindow, empty_window}
use hashshashin.ReturnPath.Mailbox.{Channel}

abbrev pub add_u64 : ℕ → ℕ → ℕ
add_u64 a b = (a + b) % 2 ^ 64

pub record Session : Type 0 where
  pub address : ℕ
  pub tx_aead : Bytes
  pub rx_aead : Bytes
  pub peer : String
  pub created : ℕ
  pub tx : ℕ
  pub replay : ReplayWindow
  pub last_seen : ℕ
  pub tx_bytes : ℕ
  pub rx_bytes : ℕ
  pub metered : Bool  -- whether `metrics` points to the state's counters

pub record Metrics : Type 0 where
  pub data_tx_bytes : ℕ
  pub data_rx_bytes : ℕ
  pub data_tx_packets : ℕ
  pub data_rx_packets : ℕ
  pub control_tx_bytes : ℕ
  pub control_rx_bytes : ℕ
  pub control_tx_pkts : ℕ
  pub control_rx_pkts : ℕ
  pub send_errors : ℕ
  pub decrypt_errors : ℕ
  pub replay_drops : ℕ
  pub no_session_drops : ℕ
  pub tun_read_errors : ℕ

pub record HelloRecord : Type 0 where
  pub expires : ℕ
  pub ack : Bytes

pub record State : Type 0 where
  pub session : Option Session
  pub pending : Bytes
  pub pending_set : Bool
  pub hellos : List (Bytes × HelloRecord)
  pub probe_ack : Channel
  pub metrics : Metrics

-- What a handler does to the outside: a datagram to a peer, or a packet to the TUN device.
pub data Effect : Type 0 where
  write_packet : Bytes → String → Effect
  write_tun : Bytes → Effect

unfoldable pub store_session : State → Session → State
store_session st v = record st { session = some (record v { metered = true }) }

-- `clearIf`: only the session that the caller looked at.
unfoldable pub clear_if : State → Session → State × Bool
clear_if st v = elim st.session [
  | none ↦ (st, false)
  | some current ↦
      if current.address == v.address then (record st { session = none }, true) else (st, false)
]

unfoldable pub touch : Session → ℕ → Session
touch s now = record s { last_seen = now }

-- Durations are cut off at 0, which no comparison with a positive limit sees.
unfoldable pub age : Session → ℕ → ℕ
age s now = now - s.created

unfoldable pub idle : Session → ℕ → ℕ
idle s now = if s.last_seen == 0 then 3600 * second else now - s.last_seen

-- The `derive` of `deriveSession`.
unfoldable pub derive : Crypto → Bytes → Bytes → Bytes → String → Bytes
derive c psk cn sn label = c.hmac psk (codes "hashshashin/v1/" ++ codes label ++ cn ++ sn)

-- `makeAEAD`: AES takes keys of 16, 24 or 32 bytes, and this one is cut to 32.
unfoldable pub make_aead : Bytes → Option Bytes
make_aead key = let block = take 32 key in if length block == 32 then some block else none

-- The session of `deriveSession` from its two keys.
unfoldable pub session_with : Bytes → Bytes → String → Bool → ℕ → ℕ → Session
unfolding touch
session_with c2s s2c peer initiator address now =
    touch
      (record {
        address = address;
        tx_aead = if initiator then c2s else s2c;
        rx_aead = if initiator then s2c else c2s;
        peer = peer;
        created = now;
        tx = 0;
        replay = empty_window;
        last_seen = 0;
        tx_bytes = 0;
        rx_bytes = 0;
        metered = false;
      })
      now

unfoldable pub derive_session :
    Crypto → Bytes → Bytes → Bytes → String → Bool → ℕ → ℕ → Option Session
unfolding make_aead session_with
derive_session c psk cn sn peer initiator address now =
    elim (make_aead (derive c psk cn sn "c2s")) [
      | none ↦ none
      | some c2s ↦ elim (make_aead (derive c psk cn sn "s2c")) [
        | none ↦ none
        | some s2c ↦ some (session_with c2s s2c peer initiator address now)
      ]
    ]
