-- ===== src/Tunnel/Data/RoundTrip.antt =====
-- A packet from one end of a session to the other.
use hashshashin.Base.{
  ℕ, ◌≤◌, ◌≡◌, refl, ◌∙◌, Bool, true, false, some, arith, length, take, drop, slice, ltb,
}
use text.Mathlib.TextPositions.{eq_refl}
use hashshashin.Base.Bytes.{Bytes, put_u64, get_be, get_be-put_u64}
use hashshashin.Crypto.{Crypto}
use hashshashin.Wire.{make_nonce, header}
use hashshashin.Tunnel.{State, Session, Metrics, add_u64}
use hashshashin.Tunnel.Data.{
  sealed_packet, send_encrypted, receive_plain, type_byte, after_open, open_packet, for_session,
  handle_encrypted,
}

-- The packet of `s` read back: its parts are where `handle_encrypted` looks for them.
pub record PacketFields (c : Crypto) (s : Session) (typ : ℕ) (payload p : Bytes) : Type 0 where
  pub size : 29 ≤ length p
  pub start : take 13 p ≡ header typ (add_u64 s.tx 1)
  pub rest :
      drop 13 p
      ≡ c.seal s.tx_aead (make_nonce (add_u64 s.tx 1)) payload (header typ (add_u64 s.tx 1))
  pub counter : get_be (slice 5 13 p) ≡ add_u64 s.tx 1
  pub kind : type_byte p ≡ typ

pub sealed_packet-PacketFields :
    (c : Crypto) (s : Session) (typ : ℕ) (payload : Bytes)
    → PacketFields c s typ payload (sealed_packet c s typ payload)
unfolding sealed_packet header put_u64 get_be
sealed_packet-PacketFields c s typ payload =
    let n = add_u64 s.tx 1 in
    record {
      size = omega (arith, c.length-seal s.tx_aead (make_nonce n) payload (header typ n));
      start = refl;
      rest = refl;
      counter = get_be-put_u64 n (omega arith);
      kind = omega arith;
    }

pub send_encrypted_lem :
    (c : Crypto) (s : Session) (m : Metrics) (typ : ℕ) (payload : Bytes) (written : Bool)
    → let (s', m', packet) = send_encrypted c s m typ payload written in
      (s'.tx ≡ add_u64 s.tx 1) × (packet ≡ sealed_packet c s typ payload)
unfolding send_encrypted
send_encrypted_lem c s m typ payload true = (refl, refl)
send_encrypted_lem c s m typ payload false = (refl, refl)

open_packet-sealed_packet :
    (c : Crypto) (s : Session) (typ : ℕ) (payload : Bytes) (now : ℕ) (ss : Session) (st : State)
    → ss.rx_aead ≡ s.tx_aead
    → open_packet c now (sealed_packet c s typ payload) ss st
      ≡ receive_plain now typ (add_u64 s.tx 1) payload ss st
unfolding open_packet after_open
open_packet-sealed_packet c s typ payload now ss st keys =
    let f = sealed_packet-PacketFields c s typ payload in
    let n = add_u64 s.tx 1 in
    let opened : c.unseal ss.rx_aead (make_nonce n) (drop 13 (sealed_packet c s typ payload))
          (take 13 (sealed_packet c s typ payload))
        ≡ some payload =
      rw (f.start, f.rest, keys) (c.unseal-seal s.tx_aead (make_nonce n) payload (header typ n)) in
    simp (f.counter, f.kind, opened, after_open)

-- A packet that one end seals, whether data, keepalive or probe acknowledgement, is opened by the
-- other end if that end's receive key is the sender's and it knows the sender's address: what is
-- left is the replay window's word on the sender's next counter, and then the payload itself.
pub handle_encrypted-send_encrypted :
    (c : Crypto) (s : Session) (m : Metrics) (typ : ℕ) (payload : Bytes) (written : Bool) (now : ℕ)
    (ss : Session) (st : State)
    → st.session ≡ some ss
    → ss.rx_aead ≡ s.tx_aead
    → let (s', m', packet) = send_encrypted c s m typ payload written in
      handle_encrypted c now ss.peer packet st ≡ receive_plain now typ s'.tx payload ss st
unfolding handle_encrypted for_session
handle_encrypted-send_encrypted c s m typ payload written now ss st here keys =
    let (next, sent) = send_encrypted_lem c s m typ payload written in
    let packet = sealed_packet c s typ payload in
    let long : ltb (length packet) 29 ≡ false =
      ground (arith, (sealed_packet-PacketFields c s typ payload).size) in
    let found : handle_encrypted c now ss.peer packet st
        ≡ for_session c now ss.peer packet st (some ss) =
      simp (long, here, handle_encrypted) in
    simp (sent, next)
      (found
        ∙ simp (
          eq_refl ss.peer,
          for_session,
          open_packet-sealed_packet c s typ payload now ss st keys,
        ))
