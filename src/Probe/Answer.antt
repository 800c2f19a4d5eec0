-- ===== src/Probe/Answer.antt =====
-- The responder and the way back of its acknowledgement.
use hashshashin.Base.{
  ℕ, ◌<◌, ◌≡◌, refl, ap, ◌∙◌, sym, ◌⊎◌, inl, inr, String, Bool, true, false, not, List, [], ◌∷◌,
  ◌++◌, Option, none, some, arith, length, take, take_long, if◌then◌else◌,
}
use hashshashin.Base.Bytes.{Bytes, bytes_eq, put_u64}
use hashshashin.Crypto.{Crypto}
use hashshashin.Wire.{msg_direct_probe_ack, make_direct_probe, header}
use hashshashin.Replay.{accept}
use hashshashin.ReturnPath.Mailbox.{
  capacity, drained, notify_probe_ack, Ready, wait_probe_ack, wait-notify,
}
use hashshashin.Config.{Config}
use hashshashin.Tunnel.{State, Session, Effect, write_packet, add_u64}
use hashshashin.Tunnel.Data.{receive_plain, deliver, handle_encrypted, sealed_packet}
use hashshashin.Tunnel.Data.RoundTrip.{
  handle_encrypted-send_encrypted, send_encrypted_lem, sealed_packet-PacketFields,
}
use hashshashin.Tunnel.Dispatch.{send_on, recv_packet, dispatch}
use hashshashin.Tunnel.Handshake.Agreement.{IsTimely}
use hashshashin.Probe.{
  Heard, heard, failed, buffer_size, acknowledge, answer_verified, answer_peer, respond_round,
  verify_direct_probe,
}
use hashshashin.Probe.Verify.{
  make_direct_probe-ProbeFields, IsProbe, verify_direct_probe-IsProbe, verify-make_direct_probe,
}

-- When a round may answer.
module _ {A : Type 0} (same_ip : A → String → Bool) (c : Crypto) (key : Bytes) (now : ℕ)
    (config : Config) where
  -- A probe from the configured address, answered with its nonce through the session.
  pub record IsAnswer (written : Bool) (peer : A) (p : Bytes) (st : State) (r : State × List Effect)
      : Type 0 where
    pub nonce : Bytes
    pub session : Session
    pub foreign : same_ip peer config.network.foreign_public_ip ≡ true
    pub genuine : IsProbe c key now nonce (take buffer_size p)
    pub connected : st.session ≡ some session
    pub answer : r ≡ send_on c msg_direct_probe_ack nonce written session st

  unfoldable pub IsJustified : Bool → Heard A → State → State × List Effect → Type 0
  IsJustified written failed st r = r ≡ (st, [])
  IsJustified written (heard none p) st r = r ≡ (st, [])
  IsJustified written (heard (some peer) p) st r = (r ≡ (st, [])) ⊎ IsAnswer written peer p st r

  acknowledge-cases :
      (written : Bool) (peer : A) (p nonce : Bytes) (st : State) (s : Option Session)
      → same_ip peer config.network.foreign_public_ip ≡ true
      → IsProbe c key now nonce (take buffer_size p)
      → st.session ≡ s
      → let r = acknowledge c nonce written st s in (r ≡ (st, [])) ⊎ IsAnswer written peer p st r
  unfolding acknowledge
  acknowledge-cases written peer p nonce st none f g e = inl refl
  acknowledge-cases written peer p nonce st (some ss) f g e = inr (record {
    nonce = nonce;
    session = ss;
    foreign = f;
    genuine = g;
    connected = e;
    answer = refl;
  })

  answer_verified-cases :
      (written : Bool) (peer : A) (p : Bytes) (st : State) (n : Option Bytes)
      → same_ip peer config.network.foreign_public_ip ≡ true
      → verify_direct_probe c key now (take buffer_size p) ≡ n
      → let r = answer_verified c written st n in (r ≡ (st, [])) ⊎ IsAnswer written peer p st r
  unfolding answer_verified
  answer_verified-cases written peer p st none f e = inl refl
  answer_verified-cases written peer p st (some nonce) f e =
      acknowledge-cases written peer p nonce st st.session f
        (verify_direct_probe-IsProbe c key now (take buffer_size p) nonce e) refl

  peer-cases :
      (written : Bool) (peer : A) (p : Bytes) (st : State) (b : Bool)
      → same_ip peer config.network.foreign_public_ip ≡ b
      → let r =
          if not b
          then (st, [])
          else answer_verified c written st (verify_direct_probe c key now (take buffer_size p)) in
        (r ≡ (st, [])) ⊎ IsAnswer written peer p st r
  peer-cases written peer p st false e = inl refl
  peer-cases written peer p st true e =
      answer_verified-cases written peer p st (verify_direct_probe c key now (take buffer_size p)) e
        refl

  -- Whatever the responder hears, it changes nothing and sends nothing, unless the datagram came from the
  -- configured address, is a recent probe that bears a good HMAC, and a session is there: then it does
  -- what sendEncrypted does with the probe's nonce. A failed read does nothing.
  pub respond_round-IsJustified :
      (written : Bool) (got : Heard A) (st : State)
      → let (goes_on, st', effects) = respond_round same_ip c key now config written got st in
        IsJustified written got st (st', effects)
  unfolding respond_round answer_peer IsJustified
  respond_round-IsJustified written failed st = refl
  respond_round-IsJustified written (heard none p) st = refl
  respond_round-IsJustified written (heard (some peer) p) st =
      peer-cases written peer p st (same_ip peer config.network.foreign_public_ip) refl

-- One acknowledgement received in a session whose window has not seen its counter.
receive_ack :
    (now n : ℕ) (nonce : Bytes) (ss : Session) (st : State)
    → (accept ss.replay n).1 ≡ true
    → length nonce ≡ 16
    → (receive_plain now msg_direct_probe_ack n nonce ss st).0.probe_ack
      ≡ notify_probe_ack st.probe_ack nonce
unfolding receive_plain deliver
receive_ack now n nonce ss st fresh h = rw (fresh, h, receive_plain)

-- The receive loop hands an acknowledgement to the data path, on either node.
recv_packet-sealed_packet :
    (c : Crypto) (key : Bytes) (now address : ℕ) (sn : Option Bytes) (role peer : String)
    (s : Session) (nonce : Bytes) (st : State)
    → let packet = sealed_packet c s msg_direct_probe_ack nonce in
      recv_packet c key now address sn role peer packet st ≡ handle_encrypted c now peer packet st
unfolding recv_packet dispatch sealed_packet header put_u64 bytes_eq
recv_packet-sealed_packet c key now address sn role peer s nonce st =
    let f = sealed_packet-PacketFields c s msg_direct_probe_ack nonce in
    ground (arith, f.size, f.kind)

send_on_lem :
    (c : Crypto) (nonce : Bytes) (written : Bool) (s : Session) (st : State)
    → (send_on c msg_direct_probe_ack nonce written s st).1
      ≡ write_packet (sealed_packet c s msg_direct_probe_ack nonce) s.peer ∷ []
unfolding send_on
send_on_lem c nonce written s st =
    let (next, sent) = send_encrypted_lem c s st.metrics msg_direct_probe_ack nonce written in
    ap (λ p. write_packet p s.peer ∷ []) sent

take-make_direct_probe :
    (c : Crypto) (key : Bytes) (now : ℕ) (nonce : Bytes)
    → length nonce ≡ 16
    → take buffer_size (make_direct_probe c key now nonce) ≡ make_direct_probe c key now nonce
take-make_direct_probe c key now nonce h =
    let size = (make_direct_probe-ProbeFields c key now nonce h).size in
    take_long (make_direct_probe c key now nonce) {n = buffer_size} (omega (arith, size))

module _ {A : Type 0} (same_ip : A → String → Bool) where
  respond_round-answers :
      (c : Crypto) (key nonce : Bytes) (sent now : ℕ) (config : Config) (written : Bool) (peer : A)
      (s : Session) (st : State)
      → length nonce ≡ 16
      → IsTimely sent now
      → same_ip peer config.network.foreign_public_ip ≡ true
      → st.session ≡ some s
      → let probe = heard (some peer) (make_direct_probe c key sent nonce) in
        (respond_round same_ip c key now config written probe st).2
        ≡ write_packet (sealed_packet c s msg_direct_probe_ack nonce) s.peer ∷ []
  unfolding respond_round
  respond_round-answers c key nonce sent now config written peer s st h timely foreign here =
      let found = verify-make_direct_probe c key sent now nonce h timely in
      rw (foreign, take-make_direct_probe c key sent nonce h, found, here)
        (send_on_lem c nonce written s (record st { session = some s }))

  -- A probe that the monitor made less than 90 seconds away, heard from the configured address while the
  -- Iran node has a session: the responder sends one packet to that session's peer, and the Kharej node
  -- whose session has the matching key, has not seen its counter and whose channel has room, when it
  -- receives that packet from the peer it knows, lets the wait for the probe's nonce end with success,
  -- if the wait takes the channel's content first.
  pub wait-respond_round :
      (c : Crypto) (key nonce : Bytes) (sent now later address : ℕ) (sn : Option Bytes)
      (config : Config) (written : Bool) (peer : A) (s ss : Session) (iran kharej : State)
      (queue : List Bytes) (rest : List Ready)
      → length nonce ≡ 16
      → IsTimely sent now
      → same_ip peer config.network.foreign_public_ip ≡ true
      → iran.session ≡ some s
      → kharej.session ≡ some ss
      → ss.rx_aead ≡ s.tx_aead
      → (accept ss.replay (add_u64 s.tx 1)).1 ≡ true
      → kharej.probe_ack ≡ some queue
      → length queue < capacity
      → let probe = heard (some peer) (make_direct_probe c key sent nonce) in
        let (goes_on, iran', effects) = respond_round same_ip c key now config written probe iran in
        (packet : Bytes) × (effects ≡ write_packet packet s.peer ∷ [])
        × (let (kharej', sent_on) =
              recv_packet c key later address sn "kharej" ss.peer packet kharej in
            (left : List Ready) × (wait_probe_ack nonce (drained kharej'.probe_ack ++ rest)
              ≡ some (true, left)))
  wait-respond_round c key nonce sent now later address sn config written peer s ss iran kharej
        queue rest h timely foreign here there keys fresh open_queue room =
      let packet = sealed_packet c s msg_direct_probe_ack nonce in
      let opened =
        handle_encrypted-send_encrypted c s iran.metrics msg_direct_probe_ack nonce written later ss
          kharej there keys in
      let (next, packed) = send_encrypted_lem c s iran.metrics msg_direct_probe_ack nonce written in
      let taken : recv_packet c key later address sn "kharej" ss.peer packet kharej
          ≡ receive_plain later msg_direct_probe_ack (add_u64 s.tx 1) nonce ss kharej =
        recv_packet-sealed_packet c key later address sn "kharej" ss.peer s nonce kharej
        ∙ ap (λ p. handle_encrypted c later ss.peer p kharej) (sym packed)
        ∙ opened
        ∙ ap (λ n. receive_plain later msg_direct_probe_ack n nonce ss kharej) next in
      let noted = receive_ack later (add_u64 s.tx 1) nonce ss kharej fresh h in
      (
        packet,
        respond_round-answers c key nonce sent now config written peer s iran h timely foreign here,
        rw (taken, noted, open_queue) (wait-notify nonce queue rest room),
      )
