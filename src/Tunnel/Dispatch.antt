-- ===== src/Tunnel/Dispatch.antt =====
-- transport.go, `recvLoop` and main.go, `tunSendLoop`: one round of each loop. The receive workers and
-- the TUN pumps take turns on the shared state; each round is one step.
pub mod Roles
use hashshashin.Base.{
  ℕ, String, str_eq, Bool, true, false, not, ◌||◌, List, [], ◌∷◌, Option, none, some, ltb, ◌==◌,
  if◌then◌else◌, length, take,
}
use hashshashin.Base.Bytes.{Bytes, bytes_eq}
use hashshashin.Crypto.{Crypto}
use hashshashin.Wire.{
  magic, msg_hello, msg_hello_ack, msg_data, msg_keepalive, msg_direct_probe_ack,
}
use hashshashin.Tunnel.{State, Session, Effect, write_packet, add_u64}
use hashshashin.Tunnel.Handshake.{handle_hello, handle_hello_ack}
use hashshashin.Tunnel.Data.{type_byte, handle_encrypted, send_encrypted}

-- The `switch` of `recvLoop` on the type byte.
unfoldable pub dispatch :
    Crypto
    → Bytes
    → ℕ
    → ℕ
    → Option Bytes
    → String
    → ℕ
    → String
    → Bytes
    → State
    → State × List Effect
dispatch c key now address sn role typ peer p st =
    if typ == msg_hello
    then (if str_eq role "kharej" then handle_hello c key now address sn peer p st else (st, []))
    else if typ == msg_hello_ack
    then (if str_eq role "iran"
        then (handle_hello_ack c key now address peer p st, [])
        else (st, []))
    else if (typ == msg_data) || ((typ == msg_keepalive) || (typ == msg_direct_probe_ack))
    then handle_encrypted c now peer p st
    else (st, [])

-- A packet read from the carrier; a read error only logs and waits.
unfoldable pub recv_packet :
    Crypto → Bytes → ℕ → ℕ → Option Bytes → String → String → Bytes → State → State × List Effect
unfolding dispatch
recv_packet c key now address sn role peer p st =
    if ltb (length p) 5 || not (bytes_eq (take 4 p) magic)
    then (st, [])
    else dispatch c key now address sn role (type_byte p) peer p st

-- `sendEncrypted` on the session that the state holds.
unfoldable pub send_on : Crypto → ℕ → Bytes → Bool → Session → State → State × List Effect
send_on c typ payload written ss st =
    let (ss', metrics, packet) = send_encrypted c ss st.metrics typ payload written in
    (record st { session = some ss'; metrics = metrics }, write_packet packet ss.peer ∷ [])

unfoldable pub pump : Crypto → Bytes → Bool → State → Option Session → State × List Effect
pump c payload written st none = (
  record st {
    metrics = record st.metrics { no_session_drops = add_u64 st.metrics.no_session_drops 1 };
  },
  [],
)
pump c payload written st (some ss) = send_on c msg_data payload written ss st

-- What `ReadQueue` gave: a packet, or an error while the context lives or is done.
pub data TunRead : Type 0 where
  packet : Bytes → TunRead
  failed : (done : Bool) → TunRead

-- Whether the loop goes on, ends quietly or ends with an error.
pub data Round : Type 0 where
  goes_on stops fails : Round

unfoldable pub tun_send_round : Crypto → TunRead → Bool → State → Round × State × List Effect
unfolding pump send_on
tun_send_round c (failed true) written st = (stops, st, [])
tun_send_round c (failed false) written st = (
  fails,
  record st {
    metrics = record st.metrics { tun_read_errors = add_u64 st.metrics.tun_read_errors 1 };
  },
  [],
)
tun_send_round c (packet payload) written st =
    let (st', effects) = pump c payload written st st.session in (goes_on, st', effects)
