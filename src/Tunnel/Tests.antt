-- ===== src/Tunnel/Tests.antt =====
-- A handshake and a few packets between two concrete nodes, and the theorems at them.
use hashshashin.Base.{
  ◌≡◌, ◌≢◌, refl, String, true, false, List, [], ◌∷◌, ◌++◌, none, some, arith, length, replicate,
  take, slice, ◌⊎◌,
}
use text.Mathlib.TextEquality.{eq_iff}
use hashshashin.Base.Bytes.{Bytes}
use hashshashin.Crypto.Toy.{toy}
use hashshashin.Wire.{make_hello, make_hello_ack, msg_data}
use hashshashin.Replay.Spec.{contains, newest}
use hashshashin.Tunnel.{Session, write_packet, write_tun, add_u64, derive, session_with}
use hashshashin.Tunnel.Sample.{
  no_metrics, new_state, psk, cn, sn, at, iran_end, kharej_end, kharej_state, keys_match,
  window_is_empty,
}
use hashshashin.Tunnel.Handshake.{find_hello, sweep, handle_hello, handle_hello_ack, set_pending}
use hashshashin.Tunnel.Handshake.Agreement.{Agree, handshake-Agree}
use hashshashin.Tunnel.Handshake.Repeats.{
  after_first, handle_hello-repeat, handle_hello-replayed, handle_hello_ack-once,
  handle_hello_ack-authentic,
}
use hashshashin.Tunnel.Data.{send_encrypted, receive_plain, handle_encrypted}
use hashshashin.Tunnel.Data.RoundTrip.{handle_encrypted-send_encrypted}
use hashshashin.Tunnel.Data.Nonces.{Sending, packets, AreSealed, AreDistinct, packets-AreDistinct}
use hashshashin.Tunnel.Data.Frame.{IsPassive, handle_encrypted-IsPassive}
use hashshashin.Tunnel.Data.Once.{handle_encrypted-once}
use hashshashin.Tunnel.Dispatch.{recv_packet}
use hashshashin.Tunnel.Dispatch.Roles.{
  IsClientSide, recv_packet-IsClientSide, IsServerSide, recv_packet-IsServerSide,
}
use hashshashin.Tunnel.Supervisor.{poll, retry, ack_arrives, established, handshake_client}
use hashshashin.Tunnel.Supervisor.Progress.{
  IsSettled, with_client_session, handshake_client-establishes, handshake_client-IsSettled,
}

no_record : find_hello cn (sweep (at 1000) []) ≡ none
unfolding find_hello sweep
no_record = refl

handshake-Agree_example :
    let (server', sent_back) =
      handle_hello toy psk
        (at 1000)
        7
        (some sn)
        "iran:1"
        (make_hello toy psk (at 990) cn)
        new_state in
    let ack = make_hello_ack toy psk cn sn in
    let client' = handle_hello_ack toy psk (at 991) 8 "kharej:1" ack (set_pending cn new_state) in
    (x : Session) × (y : Session) × (sent_back ≡ write_packet ack "iran:1" ∷ [])
    × (client'.session ≡ some x)
    × (server'.session ≡ some y)
    × Agree x y "kharej:1" "iran:1"
    × (client'.pending_set ≡ false)
handshake-Agree_example =
    handshake-Agree toy psk cn sn (at 990) (at 1000) (at 991) 7 8 "iran:1" "kharej:1" new_state
      new_state refl refl (omega arith) no_record

-- The same hello after a minute.
handle_hello-repeat_example :
    let st =
      after_first toy psk cn sn
        (at 990)
        (at 1000)
        7
        "iran:1"
        new_state
        refl
        (omega arith)
        no_record in
    handle_hello toy psk (at 1060) 9 (some cn) "other:1" (make_hello toy psk (at 990) cn) st ≡ (
      record st { hellos = sweep (at 1060) st.hellos },
      write_packet (make_hello_ack toy psk cn sn) "other:1" ∷ [],
    )
handle_hello-repeat_example =
    handle_hello-repeat toy psk cn sn (at 990) (at 1000) 7 "iran:1" new_state refl (omega arith)
      no_record (at 1060) 9 (some cn) "other:1" (omega arith) (omega arith)

-- A hello stamped 80 seconds ahead, sent again 150 seconds later.
handle_hello-replayed_example :
    let st =
      after_first toy psk cn sn
        (at 1080)
        (at 1000)
        7
        "iran:1"
        new_state
        refl
        (omega arith)
        no_record in
    (handle_hello toy psk
      (at 1150)
      9
      (some cn)
      "other:1"
      (make_hello toy psk (at 1080) cn)
      st).0.session
    ≡ some
        (record (session_with
          (derive toy psk cn cn "c2s")
          (derive toy psk cn cn "s2c")
          "other:1"
          false
          9
          (at 1150)) { metered = true })
handle_hello-replayed_example =
    handle_hello-replayed toy psk cn sn (at 1080) (at 1000) 7 "iran:1" new_state refl (omega arith)
      no_record (at 1150) 9 cn "other:1" (omega arith) (omega arith)

abbrev ack_packet : Bytes
ack_packet = make_hello_ack toy psk cn sn

handle_hello_ack-once_example :
    let st = handle_hello_ack toy psk (at 991) 8 "kharej:1" ack_packet (set_pending cn new_state) in
    (st ≡ set_pending cn new_state)
    ⊎ (handle_hello_ack toy psk (at 992) 9 "other:1" ack_packet st ≡ st)
handle_hello_ack-once_example =
    handle_hello_ack-once toy psk (at 991) 8 (at 992) 9 "kharej:1" "other:1" ack_packet ack_packet
      (set_pending cn new_state)

handle_hello_ack-authentic_example :
    let st = set_pending cn new_state in
    (handle_hello_ack toy psk (at 991) 8 "kharej:1" ack_packet st ≡ st)
    ⊎ ((length ack_packet ≡ 101)
        × (toy.hmac psk (take 69 ack_packet) ≡ slice 69 101 ack_packet)
        × (st.pending_set ≡ true)
        × (st.pending ≡ slice 5 37 ack_packet))
handle_hello_ack-authentic_example =
    handle_hello_ack-authentic toy psk (at 991) 8 "kharej:1" ack_packet (set_pending cn new_state)

abbrev ip_packet : Bytes
ip_packet = 69 ∷ 0 ∷ 0 ∷ 20 ∷ []

handle_encrypted-send_encrypted_example :
    let (s', m', packet) = send_encrypted toy iran_end no_metrics msg_data ip_packet true in
    handle_encrypted toy (at 1000) kharej_end.peer packet kharej_state
    ≡ receive_plain (at 1000) msg_data s'.tx ip_packet kharej_end kharej_state
handle_encrypted-send_encrypted_example =
    handle_encrypted-send_encrypted toy iran_end no_metrics msg_data ip_packet true (at 1000)
      kharej_end kharej_state refl keys_match

handle_encrypted-once_example :
    let (s', m', packet) = send_encrypted toy iran_end no_metrics msg_data ip_packet true in
    let (st1, out1) = handle_encrypted toy (at 1000) kharej_end.peer packet kharej_state in
    let (st2, out2) = handle_encrypted toy (at 1001) kharej_end.peer packet st1 in
    (out1 ≡ write_tun ip_packet ∷ [])
    × (out2 ≡ [])
    × (st2 ≡ record st1 {
      metrics = record st1.metrics { replay_drops = add_u64 st1.metrics.replay_drops 1 };
    })
unfolding contains newest session_with
handle_encrypted-once_example =
    handle_encrypted-once toy iran_end no_metrics ip_packet true (at 1000) (at 1001) [] kharej_end
      kharej_state refl keys_match window_is_empty refl (omega arith)

abbrev three_sendings : List Sending
three_sendings =
    record { typ = 3; payload = ip_packet; written = true }
    ∷ record { typ = 4; payload = []; written = false }
    ∷ record { typ = 3; payload = ip_packet; written = true }
    ∷ []

packets-AreDistinct_example :
    (ns : List Bytes) × AreSealed toy iran_end.tx_aead ns three_sendings
      (packets toy iran_end no_metrics three_sendings)
    × AreDistinct ns
unfolding session_with
packets-AreDistinct_example =
    packets-AreDistinct toy iran_end no_metrics three_sendings (omega arith)

handle_encrypted-IsPassive_example :
    IsPassive kharej_state (handle_encrypted toy (at 1000) "iran:1" (replicate 40 0) kharej_state)
handle_encrypted-IsPassive_example =
    handle_encrypted-IsPassive toy (at 1000) "iran:1" (replicate 40 0) kharej_state

recv_packet-IsClientSide_example : IsClientSide new_state (
    recv_packet toy psk
      (at 1000)
      7
      (some sn)
      "iran"
      "other:1"
      (make_hello toy psk (at 990) cn)
      new_state)
recv_packet-IsClientSide_example =
    recv_packet-IsClientSide toy psk (at 1000) 7 (some sn) "other:1"
      (make_hello toy psk (at 990) cn) new_state

recv_packet-IsServerSide_example : IsServerSide "iran:1" new_state (
    recv_packet toy psk
      (at 1000)
      7
      (some sn)
      "kharej"
      "iran:1"
      (make_hello toy psk (at 990) cn)
      new_state)
recv_packet-IsServerSide_example =
    recv_packet-IsServerSide toy psk (at 1000) 7 (some sn) "iran:1" (make_hello toy psk (at 990) cn)
      new_state

peer_is_named : ◌≢◌ {A = String} "kharej:1" ""
peer_is_named = ground (arith, eq_iff "kharej:1" "")

handshake_client-establishes_example :
    handshake_client toy "kharej:1" psk
      (at 990)
      (some cn)
      true
      ((poll ∷ retry true ∷ []) ++ (ack_arrives (at 991) 8 "kharej:1" ack_packet ∷ poll ∷ []))
      new_state
    ≡ (established, with_client_session toy psk cn sn "kharej:1" 8 (at 991) new_state)
handshake_client-establishes_example =
    handshake_client-establishes toy "kharej:1" "kharej:1" psk cn sn (at 990) (at 991) 8
      (poll ∷ retry true ∷ []) [] new_state peer_is_named refl refl refl (refl, tt) (omega arith)

handshake_client-IsSettled_example :
    IsSettled cn
      (handshake_client toy "kharej:1" psk (at 990) (some cn) false (poll ∷ []) new_state)
handshake_client-IsSettled_example =
    handshake_client-IsSettled toy "kharej:1" psk cn (at 990) false (poll ∷ []) new_state
      peer_is_named
