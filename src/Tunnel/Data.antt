-- ===== src/Tunnel/Data.antt =====
-- transport.go, `sendEncrypted` and `handleEncrypted`: the data path inside a session.
pub mod RoundTrip
pub mod Nonces
pub mod Frame
pub mod Once
use hashshashin.Base.{
  ℕ, ◌+◌, ◌^◌, String, Bool, true, false, not, ◌&&◌, List, [], ◌∷◌, ◌++◌, Option, none, some, ltb,
  ◌==◌, str_eq, if◌then◌else◌, length, take, drop, slice, get_elem?,
}
use hashshashin.Base.Bytes.{Bytes, get_be}
use hashshashin.Crypto.{Crypto}
use hashshashin.Wire.{make_nonce, header, msg_data, msg_direct_probe_ack}
use hashshashin.Replay.{accept}
use hashshashin.ReturnPath.Mailbox.{notify_probe_ack}
use hashshashin.Tunnel.{State, Session, Metrics, Effect, write_tun, add_u64, touch}

-- The counters after a packet was written.
unfoldable pub count_sent : ℕ → ℕ → Metrics → Metrics
count_sent typ size m =
    if typ == msg_data
    then record m {
      data_tx_bytes = add_u64 m.data_tx_bytes size;
      data_tx_packets = add_u64 m.data_tx_packets 1;
    }
    else record m {
      control_tx_bytes = add_u64 m.control_tx_bytes size;
      control_tx_pkts = add_u64 m.control_tx_pkts 1;
    }

-- The packet of a session's next counter.
unfoldable pub sealed_packet : Crypto → Session → ℕ → Bytes → Bytes
sealed_packet c s typ payload =
    let counter = add_u64 s.tx 1 in
    header typ counter ++ c.seal s.tx_aead (make_nonce counter) payload (header typ counter)

-- `sendEncrypted` on the session `s`; `written` tells whether the carrier took the packet. The new
-- session, the new counters and the packet given to the carrier for the session's peer.
unfoldable pub send_encrypted :
    Crypto → Session → Metrics → ℕ → Bytes → Bool → Session × Metrics × Bytes
send_encrypted c s m typ payload written =
    let counter = add_u64 s.tx 1 in
    let packet = sealed_packet c s typ payload in
    if written
    then (
      record s { tx = counter; tx_bytes = add_u64 s.tx_bytes (length payload) },
      if s.metered then count_sent typ (length payload) m else m,
      packet,
    )
    else (
      record s { tx = counter },
      if s.metered then record m { send_errors = add_u64 m.send_errors 1 } else m,
      packet,
    )

-- The `switch` on the type of an accepted packet.
unfoldable pub deliver : ℕ → Bytes → State → State × List Effect
deliver typ plain st =
    if typ == msg_data
    then (
      record st {
        metrics = record m {
          data_rx_bytes = add_u64 m.data_rx_bytes (length plain);
          data_rx_packets = add_u64 m.data_rx_packets 1;
        };
      },
      if ltb 0 (length plain) then write_tun plain ∷ [] else [],
    )
    else (let counted : State = record st {
      metrics = record m {
        control_rx_bytes = add_u64 m.control_rx_bytes (length plain);
        control_rx_pkts = add_u64 m.control_rx_pkts 1;
      };
    } in
        if (typ == msg_direct_probe_ack) && (length plain == 16)
        then (record counted { probe_ack = notify_probe_ack st.probe_ack plain }, [])
        else (counted, []))
  where
    open st use {metrics as m}

-- After the tag verified: the replay window, then the packet.
unfoldable pub receive_plain : ℕ → ℕ → ℕ → Bytes → Session → State → State × List Effect
receive_plain now typ counter plain ss st =
    let (window, fresh) = accept ss.replay counter in
    if not fresh
    then (
      record st {
        metrics = record st.metrics { replay_drops = add_u64 st.metrics.replay_drops 1 };
      },
      [],
    )
    else deliver typ plain (record st {
      session = some (record (touch ss now) {
        replay = window;
        rx_bytes = add_u64 ss.rx_bytes (length plain);
      });
    })

-- p[4].
abbrev pub type_byte : Bytes → ℕ
type_byte p = get_be (slice 4 5 p)

-- With the result of `Open` at hand.
unfoldable pub after_open : ℕ → ℕ → ℕ → Session → State → Option Bytes → State × List Effect
after_open now typ counter ss st none = (
  record st {
    metrics = record st.metrics { decrypt_errors = add_u64 st.metrics.decrypt_errors 1 };
  },
  [],
)
after_open now typ counter ss st (some plain) = receive_plain now typ counter plain ss st

unfoldable pub open_packet : Crypto → ℕ → Bytes → Session → State → State × List Effect
unfolding after_open
open_packet c now p ss st =
    let counter = get_be (slice 5 13 p) in
    after_open now (type_byte p) counter ss st
      (c.unseal ss.rx_aead (make_nonce counter) (drop 13 p) (take 13 p))

-- With the session at hand.
unfoldable pub for_session :
    Crypto → ℕ → String → Bytes → State → Option Session → State × List Effect
for_session c now peer p st none = (st, [])
for_session c now peer p st (some ss) =
    if not (str_eq peer ss.peer) then (st, []) else open_packet c now p ss st

unfoldable pub handle_encrypted : Crypto → ℕ → String → Bytes → State → State × List Effect
unfolding for_session
handle_encrypted c now peer p st =
    if ltb (length p) 29 then (st, []) else for_session c now peer p st st.session
