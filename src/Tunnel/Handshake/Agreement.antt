-- ===== src/Tunnel/Handshake/Agreement.antt =====
-- A hello, its answer and the acknowledgement, from packet to packet.
use hashshashin.Base.{
  ℕ, ◌+◌, ◌*◌, ◌/◌, ◌^◌, ◌≤◌, ◌<◌, ◌≡◌, refl, ap, ◌∙◌, String, true, false, [], ◌∷◌, ◌++◌, Option,
  none, some, arith, length, take, slice, length-append, take-append_length, drop-append_length,
  take_all, append_assoc,
}
use hashshashin.Base.Bytes.{Bytes, put_u64, get_be, get_be-put_u64, bytes_eq_refl}
use hashshashin.Crypto.{Crypto}
use hashshashin.Wire.{make_hello, hello_body, make_hello_ack, hello_ack_body}
use hashshashin.Clock.{second, max_skew, unix_u64, is_recent, is_recent_lem}
use hashshashin.Tunnel.{State, Session, write_packet, derive, session_with, store_session}
use hashshashin.Tunnel.Handshake.{
  handle_hello, answer_hello, answer_new, hello_size, handle_hello_ack, set_pending, take_ack,
  find_hello, sweep,
}
use hashshashin.Tunnel.Handshake.Keys.{derive_session_lem}
use hashshashin.Replay.{empty_window}

record HelloFields (c : Crypto) (key : Bytes) (now : ℕ) (cn p : Bytes) : Type 0 where
  size : length p ≡ hello_size
  signed_part : take 45 p ≡ hello_body now cn
  tag : slice 45 77 p ≡ c.hmac key (hello_body now cn)
  stamp : slice 5 13 p ≡ put_u64 (unix_u64 now)
  nonce : slice 13 45 p ≡ cn

make_hello-HelloFields :
    (c : Crypto) (key : Bytes) (now : ℕ) (cn : Bytes)
    → length cn ≡ 32
    → HelloFields c key now cn (make_hello c key now cn)
unfolding make_hello put_u64
make_hello-HelloFields c key now cn h =
    let tag = c.hmac key (hello_body now cn) in
    record {
      size = omega (arith, length-append cn tag, c.length-hmac key (hello_body now cn));
      signed_part = rw (take-append_length cn tag {n = 32} h);
      tag =
          rw (drop-append_length cn tag {n = 32} h)
            (take_all tag (c.length-hmac key (hello_body now cn)));
      stamp = refl;
      nonce = take-append_length cn tag {n = 32} h;
    }

record AckFields (c : Crypto) (key cn sn p : Bytes) : Type 0 where
  size : length p ≡ 101
  signed_part : take 69 p ≡ hello_ack_body cn sn
  tag : slice 69 101 p ≡ c.hmac key (hello_ack_body cn sn)
  client_nonce : slice 5 37 p ≡ cn
  server_nonce : slice 37 69 p ≡ sn

make_hello_ack-AckFields :
    (c : Crypto) (key cn sn : Bytes)
    → length cn ≡ 32
    → length sn ≡ 32
    → AckFields c key cn sn (make_hello_ack c key cn sn)
unfolding make_hello_ack
make_hello_ack-AckFields c key cn sn hc hs =
    let tag = c.hmac key (hello_ack_body cn sn) in
    let long : length tag ≡ 32 = c.length-hmac key (hello_ack_body cn sn) in
    let both : length (cn ++ sn) ≡ 64 = omega (arith, length-append cn sn) in
    let regroup : (cn ++ sn) ++ tag ≡ cn ++ (sn ++ tag) = append_assoc cn sn tag in
    record {
      size = omega (arith, length-append (cn ++ sn) tag);
      signed_part = rw (take-append_length (cn ++ sn) tag {n = 64} both);
      tag = rw (drop-append_length (cn ++ sn) tag {n = 64} both) (take_all tag long);
      client_nonce = rw regroup (take-append_length cn (sn ++ tag) {n = 32} hc);
      server_nonce =
          rw (regroup, drop-append_length cn (sn ++ tag) {n = 32} hc)
            (take-append_length sn tag {n = 32} hs);
    }

-- The time stamp of a hello, seen by a clock within 90 seconds of the sender's.
abbrev pub IsTimely : ℕ → ℕ → Type 0
IsTimely sent now =
    (sent / second < 2 ^ 63)
    × (now ≤ sent / second * second + max_skew)
    × (sent / second * second ≤ now + max_skew)

pub is_recent-unix :
    (sent now : ℕ) → IsTimely sent now → is_recent now (get_be (put_u64 (unix_u64 sent))) ≡ true
is_recent-unix sent now h =
    let fits : unix_u64 sent < 2 ^ 63 = omega arith in
    let same : unix_u64 sent ≡ sent / second = omega arith in
    rw (get_be-put_u64 (unix_u64 sent) (omega arith), is_recent_lem now (unix_u64 sent) fits, same)
      (ground arith)

-- A timely hello under the shared key passes every check: what follows is the answer to its nonce.
pub handle_hello-accepts :
    (c : Crypto) (key : Bytes) (sent now address : ℕ) (cn : Bytes) (sn : Option Bytes)
    (peer : String) (st : State)
    → length cn ≡ 32
    → IsTimely sent now
    → handle_hello c key now address sn peer (make_hello c key sent cn) st
      ≡ answer_hello c key now address peer cn sn st
unfolding handle_hello
handle_hello-accepts c key sent now address cn sn peer st h timely =
    let f = make_hello-HelloFields c key sent cn h in
    rw (
      f.size,
      f.signed_part,
      f.tag,
      bytes_eq_refl (c.hmac key (hello_body sent cn)),
      f.stamp,
      is_recent-unix sent now timely,
      f.nonce,
      handle_hello,
    )

-- What the two processes hold after the exchange: the same two keys, crosswise, the other's address
-- as it was seen, fresh counters and an empty replay window.
pub record Agree (client server : Session) (server_addr client_addr : String) : Type 0 where
  pub upload : client.tx_aead ≡ server.rx_aead
  pub download : server.tx_aead ≡ client.rx_aead
  pub client_peer : client.peer ≡ server_addr
  pub server_peer : server.peer ≡ client_addr
  pub unused : (client.tx ≡ 0) × (server.tx ≡ 0)
  pub windows : (client.replay ≡ empty_window) × (server.replay ≡ empty_window)

-- The answer to a new nonce: a stored session and one acknowledgement.
pub answer_new_lem :
    (c : Crypto) (key : Bytes) (now address : ℕ) (peer : String) (cn sn : Bytes) (st : State)
    → let ss =
        session_with (derive c key cn sn "c2s") (derive c key cn sn "s2c") peer false address now in
      ((answer_new c key now address peer cn (some sn) st).0.session
        ≡ some (record ss { metered = true }))
      × ((answer_new c key now address peer cn (some sn) st).1
          ≡ write_packet (make_hello_ack c key cn sn) peer ∷ [])
unfolding answer_new store_session
answer_new_lem c key now address peer cn sn st =
    let derived = derive_session_lem c key cn sn peer false address now in
    (rw (derived, answer_new), rw (derived, answer_new))

pub handle_hello_ack_lem :
    (c : Crypto) (key : Bytes) (now address : ℕ) (peer : String) (cn sn : Bytes) (st : State)
    → length cn ≡ 32
    → length sn ≡ 32
    → let ss =
        session_with (derive c key cn sn "c2s") (derive c key cn sn "s2c") peer true address now in
      handle_hello_ack c key now address peer (make_hello_ack c key cn sn) (set_pending cn st)
      ≡ record st {
        session = some (record ss { metered = true });
        pending = cn;
        pending_set = false;
      }
unfolding handle_hello_ack set_pending take_ack store_session
handle_hello_ack_lem c key now address peer cn sn st hc hs =
    let f = make_hello_ack-AckFields c key cn sn hc hs in
    rw (
      f.size,
      f.signed_part,
      f.tag,
      bytes_eq_refl (c.hmac key (hello_ack_body cn sn)),
      f.client_nonce,
      bytes_eq_refl cn,
      f.server_nonce,
      derive_session_lem c key cn sn peer true address now,
      handle_hello_ack,
      take_ack,
    )

-- A whole handshake over a network that delivers: the server takes a timely hello whose nonce it
-- has no record of, sends one packet, and that packet gives the waiting client a session that
-- agrees with the server's.
pub handshake-Agree :
    (c : Crypto) (key cn sn : Bytes) (sent now later a b : ℕ) (client_addr server_addr : String)
    (client server : State)
    → length cn ≡ 32
    → length sn ≡ 32
    → IsTimely sent now
    → find_hello cn (sweep now server.hellos) ≡ none
    → let (server', sent_back) =
        handle_hello c key now a (some sn) client_addr (make_hello c key sent cn) server in
      let ack = make_hello_ack c key cn sn in
      let client' = handle_hello_ack c key later b server_addr ack (set_pending cn client) in
      (x : Session) × (y : Session) × (sent_back ≡ write_packet ack client_addr ∷ [])
      × (client'.session ≡ some x)
      × (server'.session ≡ some y)
      × Agree x y server_addr client_addr
      × (client'.pending_set ≡ false)
unfolding answer_hello session_with
handshake-Agree c key cn sn sent now later a b client_addr server_addr client server hc hs timely
      new =
    let swept : State = record server { hellos = sweep now server.hellos } in
    let c2s = derive c key cn sn "c2s" in
    let s2c = derive c key cn sn "s2c" in
    let answered : handle_hello c key now a (some sn) client_addr (make_hello c key sent cn) server
        ≡ answer_new c key now a client_addr cn (some sn) swept =
      handle_hello-accepts c key sent now a cn (some sn) client_addr server hc timely
      ∙ rw (new, answer_hello) in
    let (stored, written) = answer_new_lem c key now a client_addr cn sn swept in
    let taken = handle_hello_ack_lem c key later b server_addr cn sn client hc hs in
    (
      record (session_with c2s s2c server_addr true b later) { metered = true },
      record (session_with c2s s2c client_addr false a now) { metered = true },
      ap (λ r. r.1) answered ∙ written,
      ap (λ r. r.session) taken,
      ap (λ r. r.0.session) answered ∙ stored,
      record {
        upload = refl;
        download = refl;
        client_peer = refl;
        server_peer = refl;
        unused = (refl, refl);
        windows = (refl, refl);
      },
      ap (λ r. r.pending_set) taken,
    )
