-- ===== src/Carrier/Open.antt =====
-- carrier.go, carrier_udp.go, carrier_tcp.go and carrier_kcp.go: the constructors of the carriers, what
-- each opens and closes on the way, and its Close. Sockets, the resolver and kcp-go are parameters.
pub mod Sockets
pub mod Ready
mod Tests
use hashshashin.Base.{
  ℕ, ◌+◌, ◌*◌, String, str_eq, Bool, true, false, List, [], ◌∷◌, ◌++◌, Option, none, some, ◌==◌,
  if◌then◌else◌,
}
use hashshashin.Base.Int.{ℤ, ltb_ℤ}
use hashshashin.Base.Bytes.{Bytes}
use hashshashin.Config.{Config}
use hashshashin.Carrier.{StreamCarrier, close}
use hashshashin.Carrier.Udp.{UdpCarrier, new_udp_carrier}

-- What a carrier opens.
pub data Socket : Type 0 where
  packet_socket stream_listener kcp_listener : Socket

pub data SocketEvent : Type 0 where
  opened closed : Socket → SocketEvent

-- The settings of a KCP session.
pub record KcpTuning : Type 0 where
  pub stream_mode : Bool
  pub no_delay : ℤ
  pub interval : ℤ
  pub resend : ℤ
  pub no_congestion : ℤ
  pub send_window : ℤ
  pub receive_window : ℤ
  pub mtu : ℤ
  pub ack_no_delay : Bool
  pub buffer : ℤ

-- `tuneKCPSession`, for a connection that is a *kcp.UDPSession.
unfoldable pub tune_kcp_session : Config → KcpTuning
tune_kcp_session c =
    let k = c.transport.kcp in
    record {
      stream_mode = true;
      no_delay = k.no_delay;
      interval = k.interval;
      resend = k.resend;
      no_congestion = k.no_congestion;
      send_window = k.send_window;
      receive_window = k.receive_window;
      mtu = k.mtu;
      ack_no_delay = true;
      buffer =
          if ltb_ℤ k.socket_buffer c.performance.socket_buffer
          then c.performance.socket_buffer
          else k.socket_buffer;
    }

-- binary.LittleEndian.Uint32.
unfoldable pub get_le : Bytes → ℕ
get_le [] = 0
get_le (b ∷ bs) = b + 256 * get_le bs

-- `randomConversationID` from the four bytes that rand.Read gives, none if it fails.
unfoldable pub random_conversation_id : Option Bytes → Option ℕ
random_conversation_id none = none
random_conversation_id (some b) = let v = get_le b in some (if v == 0 then 1 else v)

-- The KCP dialer: the conversation number of the session that it returns, where `creates` tells whether
-- kcp.NewConn3 succeeds.
unfoldable pub dial_kcp : Option Bytes → (ℕ → Bool) → Option ℕ
dial_kcp random creates = elim (random_conversation_id random) [
  | none ↦ none
  | some v ↦ if creates v then some v else none
]

-- How a stream carrier comes by its connections: the dialer with its address, or a listener.
pub data Source (A : Type 0) : Type 0 where
  dials_tcp : (peer : String) → (buffer : ℤ) → Source A
  dials_kcp : (peer : A) → (data_shards parity_shards : ℤ) → Source A
  accepts : Socket → Source A

-- What `tune` does to a connection.
pub data Tuning : Type 0 where
  untuned : Tuning
  tunes_tcp : (buffer : ℤ) → Tuning
  tunes_kcp : KcpTuning → Tuning

pub record Stream (A : Type 0) : Type 0 where
  pub name : String
  pub default_id : String
  pub source : Source A
  pub tuning : Tuning

pub data AnyCarrier (A : Type 0) : Type 0 where
  udp : UdpCarrier A → AnyCarrier A
  tcp : Stream A → AnyCarrier A
  kcp : Stream A → AnyCarrier A

-- What the system answers: whether a socket opens for an address, and then whether it is a *net.UDPConn,
-- and whether kcp.ServeConn succeeds.
pub record Network (A : Type 0) : Type 0 where
  pub listen_packet : String → Option Bool
  pub listen_stream : String → Bool
  pub resolve_udp : String → Option A
  pub to_text : A → String
  pub serves_kcp : Bool

-- `DefaultPeer`.
unfoldable pub default_peer : {A : Type 0} → AnyCarrier A → String
default_peer (udp u) = u.default_peer
default_peer (tcp s) = s.default_id
default_peer (kcp s) = s.default_id

-- A carrier, or an error, with what was opened and closed, oldest first.
abbrev pub Opening : Type 0 → Type 0
Opening A = Option (AnyCarrier A) × List SocketEvent

module _ {A : Type 0} (net : Network A) (c : Config) where
  udp_to : Option A → Opening A
  udp_to none = (none, opened packet_socket ∷ closed packet_socket ∷ [])
  udp_to (some peer) = (
    some (udp (new_udp_carrier net.resolve_udp net.to_text (some peer))),
    opened packet_socket ∷ [],
  )

  udp_on : Option Bool → Opening A
  unfolding udp_to
  udp_on none = (none, [])
  udp_on (some false) = (none, opened packet_socket ∷ closed packet_socket ∷ [])
  udp_on (some true) = if str_eq c.role "iran" then udp_to (net.resolve_udp c.transport.peer) else (
    some (udp (new_udp_carrier net.resolve_udp net.to_text none)),
    opened packet_socket ∷ [],
  )

  unfoldable pub open_udp : Opening A
  unfolding udp_on
  open_udp = udp_on (net.listen_packet c.transport.listen)

  tcp_stream : Source A → Tuning → AnyCarrier A
  tcp_stream source tuning =
      tcp (record { name = "tcp"; default_id = "tcp-peer"; source = source; tuning = tuning })

  unfoldable pub open_tcp : Opening A
  unfolding tcp_stream
  open_tcp =
      let buffer = c.performance.socket_buffer in
      if str_eq c.role "iran"
      then (some (tcp_stream (dials_tcp c.transport.peer buffer) untuned), [])
      else if net.listen_stream c.transport.listen
      then (
        some (tcp_stream (accepts stream_listener) (tunes_tcp buffer)),
        opened stream_listener ∷ [],
      )
      else (none, [])

  kcp_stream : Source A → AnyCarrier A
  unfolding tune_kcp_session
  kcp_stream source = kcp (record {
    name = "kcp";
    default_id = "kcp-peer";
    source = source;
    tuning = tunes_kcp (tune_kcp_session c);
  })

  kcp_to : Option A → Opening A
  unfolding kcp_stream
  kcp_to none = (none, opened packet_socket ∷ closed packet_socket ∷ [])
  kcp_to (some peer) = (
    some (kcp_stream (dials_kcp peer c.transport.kcp.data_shards c.transport.kcp.parity_shards)),
    opened packet_socket ∷ [],
  )

  kcp_on : Option Bool → Opening A
  unfolding kcp_stream kcp_to
  kcp_on none = (none, [])
  kcp_on (some is_udp) =
      if str_eq c.role "iran"
      then kcp_to (net.resolve_udp c.transport.peer)
      else if net.serves_kcp
      then (
        some (kcp_stream (accepts kcp_listener)),
        opened packet_socket ∷ opened kcp_listener ∷ [],
      )
      else (none, opened packet_socket ∷ closed packet_socket ∷ [])

  unfoldable pub open_kcp : Opening A
  unfolding kcp_on
  open_kcp = kcp_on (net.listen_packet c.transport.listen)

  unfoldable pub new_carrier : Opening A
  unfolding open_udp open_tcp open_kcp
  new_carrier =
      if str_eq c.transport.kind "udp"
      then open_udp
      else if str_eq c.transport.kind "tcp"
      then open_tcp
      else if str_eq c.transport.kind "kcp"
      then open_kcp
      else (none, [])

listener_of : {A : Type 0} → Source A → List SocketEvent
listener_of (dials_tcp peer buffer) = []
listener_of (dials_kcp peer d p) = []
listener_of (accepts s) = closed s ∷ []

-- What Close closes besides the held connection.
unfoldable pub close_carrier : {A : Type 0} → AnyCarrier A → List SocketEvent
unfolding listener_of
close_carrier (udp u) = closed packet_socket ∷ []
close_carrier (tcp s) = listener_of s.source
close_carrier (kcp s) = listener_of s.source ++ closed packet_socket ∷ []

-- The error of kcpCarrier's Close: that of the stream carrier, else that of its socket.
unfoldable pub close_kcp {ℓ} :
    {E : Type ℓ} → Option E → Option E → Option E → StreamCarrier → Option E × StreamCarrier
close_kcp conn_error listener_error packet_error s =
    let (e, s') = close conn_error listener_error s in
    (elim e [ none ↦ packet_error | some err ↦ some err ], s')
