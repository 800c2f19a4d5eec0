-- ===== src/Tunnel/Supervisor.antt =====
-- transport.go, `clientSupervisor`, `serverSupervisor` and `handshakeClient`: the loops that keep a
-- session alive. The tickers and the receive path are events, in the order in which they happen.
pub mod Progress
use hashshashin.Base.{
  ℕ, ◌+◌, ◌*◌, String, str_eq, Bool, true, false, ◌||◌, List, [], ◌∷◌, Option, none, some, ltb,
  if◌then◌else◌,
}
use hashshashin.Base.Bytes.{Bytes}
use hashshashin.Crypto.{Crypto}
use hashshashin.Clock.{second}
use hashshashin.Wire.{make_hello, msg_keepalive}
use hashshashin.Tunnel.{State, Session, Effect, write_packet, age, idle, clear_if}
use hashshashin.Tunnel.Handshake.{handle_hello_ack, set_pending, drop_pending}
use hashshashin.Tunnel.Dispatch.{send_on}

-- The limits of a checked configuration, in seconds and minutes.
pub record Limits : Type 0 where
  pub session_timeout_seconds : ℕ
  pub rekey_minutes : ℕ

unfoldable pub need_handshake : Limits → ℕ → Option Session → Bool
unfolding age idle
need_handshake l now none = true
need_handshake l now (some ss) =
    ltb (l.session_timeout_seconds * second) (idle ss now)
    || ltb (l.rekey_minutes * (60 * second)) (age ss now)

-- One tick of `serverSupervisor`.
unfoldable pub server_tick :
    Crypto → Limits → ℕ → Bool → State → Option Session → State × List Effect
unfolding idle clear_if send_on
server_tick c l now written st none = (st, [])
server_tick c l now written st (some ss) =
    if ltb (l.session_timeout_seconds * second) (idle ss now)
    then ((clear_if st ss).0, [])
    else send_on c msg_keepalive [] written ss st

-- One tick of `clientSupervisor` after its handshake attempt, if one was needed.
unfoldable pub client_tick : Crypto → Bool → State → Option Session → State × List Effect
unfolding send_on
client_tick c written st none = (st, [])
client_tick c written st (some ss) = send_on c msg_keepalive [] written ss st

-- What happens while `handshakeClient` waits: its context ends, its tickers fire (a retry writes the
-- hello again), or the receive path handles an acknowledgement.
pub data Event : Type 0 where
  cancelled : Event
  retry : (written : Bool) → Event
  poll : Event
  ack_arrives : (now address : ℕ) (peer : String) → Bytes → Event

pub data Outcome : Type 0 where
  established : Outcome
  no_peer no_random write_failed context_done : Outcome
  waiting : Outcome

abbrev pub is_new : ℕ → Option Session → Bool
is_new started none = false
is_new started (some ss) = ltb started (ss.created + second)

-- The loop, from the `select` on.
unfoldable pub await : Crypto → Bytes → ℕ → List Event → State → Outcome × State
await c key started [] st = (waiting, st)
await c key started (cancelled ∷ es) st = (context_done, st)
await c key started (retry false ∷ es) st = (write_failed, st)
await c key started (retry true ∷ es) st =
    let again = await c key started es st in
    if is_new started st.session then (established, st) else again
await c key started (poll ∷ es) st =
    let again = await c key started es st in
    if is_new started st.session then (established, st) else again
await c key started (ack_arrives now address peer p ∷ es) st =
    await c key started es (handle_hello_ack c key now address peer p st)

-- The deferred call runs on every return; a call that still waits has not returned.
unfoldable pub returned : Bytes → Outcome × State → Outcome × State
returned cn (waiting, st) = (waiting, st)
returned cn (established, st) = (established, drop_pending cn st)
returned cn (no_peer, st) = (no_peer, drop_pending cn st)
returned cn (no_random, st) = (no_random, drop_pending cn st)
returned cn (write_failed, st) = (write_failed, drop_pending cn st)
returned cn (context_done, st) = (context_done, drop_pending cn st)

-- With the random nonce at hand: the hello is written once before the loop is entered, and the loop
-- looks at the session before it first waits.
unfoldable pub handshake_with :
    Crypto → Bytes → ℕ → Bytes → Bool → List Event → State → Outcome × State
unfolding await returned set_pending drop_pending
handshake_with c key started cn false es st = returned cn (write_failed, set_pending cn st)
handshake_with c key started cn true es st = returned cn (
    if is_new started st.session
    then (established, set_pending cn st)
    else await c key started es (set_pending cn st))

unfoldable pub handshake_client :
    Crypto → String → Bytes → ℕ → Option Bytes → Bool → List Event → State → Outcome × State
unfolding handshake_with
handshake_client c peer key started cn written es st =
    if str_eq peer "" then (no_peer, st) else elim cn [
      | none ↦ (no_random, st)
      | some nonce ↦ handshake_with c key started nonce written es st
    ]
