-- ===== src/Tunnel/Data/Once.antt =====
-- A data packet that the network delivers twice reaches the TUN device once.
use hashshashin.Base.{
  ℕ, ◌<◌, ◌≡◌, refl, ap, ◌∙◌, Bool, true, false, List, [], ◌∷◌, some, arith, length, lt→ltb,
}
use hashshashin.Base.Bytes.{Bytes}
use hashshashin.Crypto.{Crypto}
use hashshashin.Wire.{msg_data}
use hashshashin.Replay.{accept}
use hashshashin.Replay.Spec.{is_fresh, contains}
use hashshashin.Replay.Window.{Represents, accept-Refines}
use hashshashin.Tunnel.{State, Session, Metrics, write_tun, add_u64, touch}
use hashshashin.Tunnel.Data.{send_encrypted, deliver, receive_plain, handle_encrypted}
use hashshashin.Tunnel.Data.RoundTrip.{handle_encrypted-send_encrypted, send_encrypted_lem}

-- The session and the counters after a fresh data packet.
abbrev session_after : ℕ → ℕ → Bytes → Session → Session
session_after now n plain ss = record (touch ss now) {
  replay = (accept ss.replay n).0;
  rx_bytes = add_u64 ss.rx_bytes (length plain);
}

abbrev state_after : ℕ → ℕ → Bytes → Session → State → State
state_after now n plain ss st = record st {
  session = some (session_after now n plain ss);
  metrics = record st.metrics {
    data_rx_bytes = add_u64 st.metrics.data_rx_bytes (length plain);
    data_rx_packets = add_u64 st.metrics.data_rx_packets 1;
  };
}

receive_plain_fresh :
    (now n : ℕ) (plain : Bytes) (ss : Session) (st : State)
    → (accept ss.replay n).1 ≡ true
    → 0 < length plain
    → receive_plain now msg_data n plain ss st
      ≡ (state_after now n plain ss st, write_tun plain ∷ [])
unfolding receive_plain deliver touch
receive_plain_fresh now n plain ss st fresh full = rw (fresh, receive_plain, lt→ltb _ _ full)

receive_plain_stale :
    (now typ n : ℕ) (plain : Bytes) (ss : Session) (st : State)
    → (accept ss.replay n).1 ≡ false
    → receive_plain now typ n plain ss st ≡ (
      record st {
        metrics = record st.metrics { replay_drops = add_u64 st.metrics.replay_drops 1 };
      },
      [],
    )
unfolding receive_plain
receive_plain_stale now typ n plain ss st stale = rw (stale, receive_plain)

contains_own : (n : ℕ) (seen : List ℕ) → contains n (n ∷ seen) ≡ true
unfolding contains
contains_own n seen = ground arith

accept_twice :
    (seen : List ℕ) (ss : Session) (n now : ℕ) (plain : Bytes)
    → Represents seen ss.replay
    → is_fresh seen n ≡ true
    → ((accept ss.replay n).1 ≡ true) × ((accept (session_after now n plain ss).replay n).1 ≡ false)
accept_twice seen ss n now plain rep fresh =
    let (first, rep') = accept-Refines seen ss.replay n rep in
    let noted : Represents (n ∷ seen) (accept ss.replay n).0 = rw fresh at rep' in
    let (second, _) = accept-Refines (n ∷ seen) (accept ss.replay n).0 n noted in
    (first ∙ fresh, second ∙ ground (arith, contains_own n seen))

-- A sealed, non-empty data packet whose counter the window has not seen is written to the TUN device
-- as it was sent. The same packet once more, at any later time, writes nothing and only adds one to
-- the count of replays.
pub handle_encrypted-once :
    (c : Crypto) (s : Session) (m : Metrics) (payload : Bytes) (written : Bool) (now later : ℕ)
    (seen : List ℕ) (ss : Session) (st : State)
    → st.session ≡ some ss
    → ss.rx_aead ≡ s.tx_aead
    → Represents seen ss.replay
    → is_fresh seen (add_u64 s.tx 1) ≡ true
    → 0 < length payload
    → let (s', m', packet) = send_encrypted c s m msg_data payload written in
      let (st1, out1) = handle_encrypted c now ss.peer packet st in
      let (st2, out2) = handle_encrypted c later ss.peer packet st1 in
      (out1 ≡ write_tun payload ∷ [])
      × (out2 ≡ [])
      × (st2 ≡ record st1 {
        metrics = record st1.metrics { replay_drops = add_u64 st1.metrics.replay_drops 1 };
      })
unfolding touch
handle_encrypted-once c s m payload written now later seen ss st here keys rep fresh full =
    let n = add_u64 s.tx 1 in
    let next = (send_encrypted_lem c s m msg_data payload written).0 in
    let packet = (send_encrypted c s m msg_data payload written).2 in
    let (good, bad) = accept_twice seen ss n now payload rep fresh in
    let first : handle_encrypted c now ss.peer packet st
        ≡ (state_after now n payload ss st, write_tun payload ∷ []) =
      handle_encrypted-send_encrypted c s m msg_data payload written now ss st here keys
      ∙ rw next (receive_plain_fresh now n payload ss st good full) in
    let st1 = state_after now n payload ss st in
    let second =
      handle_encrypted-send_encrypted c s m msg_data payload written later
        (session_after now n payload ss) st1 refl keys
      ∙ rw next
          (receive_plain_stale later msg_data n payload (session_after now n payload ss) st1 bad) in
    rw first (refl, ap (λ r. r.1) second, ap (λ r. r.0) second)
