-- ===== src/Tunnel/Dispatch/Roles.antt =====
-- What each role does with the packets that reach it.
use hashshashin.Base.{
  ℕ, ◌≡◌, refl, String, false, not, ◌||◌, List, [], ◌∷◌, Option, none, some, arith, length, take,
  slice, Bool-cases, Option-cases, inl, inr, ltb, ◌==◌,
}
use hashshashin.Base.Bytes.{Bytes, bytes_eq, get_be}
use hashshashin.Crypto.{Crypto}
use hashshashin.Clock.{is_recent}
use hashshashin.Wire.{
  magic, msg_hello, msg_hello_ack, msg_data, msg_keepalive, msg_direct_probe_ack,
}
use hashshashin.Tunnel.{State, Effect, write_packet, write_tun, derive_session, store_session}
use hashshashin.Tunnel.Handshake.{
  handle_hello, handle_hello_ack, take_ack, answer_hello, answer_new, find_hello, sweep,
}
use hashshashin.Tunnel.Data.{type_byte, handle_encrypted}
use hashshashin.Tunnel.Data.Frame.{NoSend, handle_encrypted-IsPassive}
use hashshashin.Tunnel.Dispatch.{dispatch, recv_packet}

-- The node sends nothing, and records no hello.
abbrev pub IsClientSide : State → State × List Effect → Type 0
IsClientSide st (st', es) = NoSend es × (st'.hellos ≡ st.hellos)

hello_ack-hellos :
    (c : Crypto) (key : Bytes) (now a : ℕ) (peer : String) (p : Bytes) (st : State)
    → (handle_hello_ack c key now a peer p st).hellos ≡ st.hellos
unfolding handle_hello_ack take_ack store_session
hello_ack-hellos c key now a peer p st = ground arith

dispatch-IsClientSide :
    (c : Crypto) (key : Bytes) (now a : ℕ) (sn : Option Bytes) (typ : ℕ) (peer : String) (p : Bytes)
    (st : State)
    → IsClientSide st (dispatch c key now a sn "iran" typ peer p st)
unfolding dispatch
dispatch-IsClientSide c key now a sn typ peer p st = elim (Bool-cases (typ == msg_hello)) [
  | inl hello ↦ rw hello (tt, refl)
  | inr not_hello ↦ elim (Bool-cases (typ == msg_hello_ack)) [
    | inl ack ↦ rw (not_hello, ack) (tt, hello_ack-hellos c key now a peer p st)
    | inr not_ack ↦
        let (keeps, silent) = handle_encrypted-IsPassive c now peer p st in
        elim (Bool-cases
          ((typ == msg_data) || ((typ == msg_keepalive) || (typ == msg_direct_probe_ack)))) [
            | inl sealed ↦ rw (not_hello, not_ack, sealed) (silent, keeps.hellos)
            | inr unknown ↦ rw (not_hello, not_ack, unknown) (tt, refl)
          ]
  ]
]

-- A packet that recvLoop reads from the carrier, whatever its bytes and its sender, makes an Iran node send
-- nothing, and no hello is recorded for it. Probes reach the node by a socket of their own and are not
-- among these packets.
pub recv_packet-IsClientSide :
    (c : Crypto) (key : Bytes) (now a : ℕ) (sn : Option Bytes) (peer : String) (p : Bytes)
    (st : State)
    → IsClientSide st (recv_packet c key now a sn "iran" peer p st)
unfolding recv_packet
recv_packet-IsClientSide c key now a sn peer p st =
    elim (Bool-cases (ltb (length p) 5 || not (bytes_eq (take 4 p) magic))) [
      | inl foreign ↦ rw foreign (tt, refl)
      | inr ours ↦ rw ours (dispatch-IsClientSide c key now a sn (type_byte p) peer p st)
    ]

-- A packet is answered only to its sender, by one packet at most, and the client's pending
-- nonce is not touched.
abbrev pub OneAnswer : String → List Effect → Type 0
OneAnswer peer [] = Unit
OneAnswer peer (write_packet p to ∷ es) = (to ≡ peer) × NoSend es
OneAnswer peer (write_tun p ∷ es) = NoSend es

abbrev pub IsServerSide : String → State → State × List Effect → Type 0
IsServerSide peer st (st', es) =
    OneAnswer peer es × (st'.pending ≡ st.pending) × (st'.pending_set ≡ st.pending_set)

answer_new-IsServerSide :
    (c : Crypto) (key : Bytes) (now a : ℕ) (peer : String) (cn : Bytes) (sn : Option Bytes)
    (base st : State)
    → st.pending ≡ base.pending
    → st.pending_set ≡ base.pending_set
    → IsServerSide peer base (answer_new c key now a peer cn sn st)
unfolding answer_new store_session
answer_new-IsServerSide c key now a peer cn none base st p q = (tt, p, q)
answer_new-IsServerSide c key now a peer cn (some sn) base st p q =
    elim (Option-cases (derive_session c key cn sn peer false a now)) [
      | inl failed ↦ rw (failed, answer_new) (tt, p, q)
      | inr (ss, derived) ↦ rw (derived, answer_new) ((refl, tt), p, q)
    ]

answer_hello-IsServerSide :
    (c : Crypto) (key : Bytes) (now a : ℕ) (peer : String) (cn : Bytes) (sn : Option Bytes)
    (st : State)
    → IsServerSide peer st (answer_hello c key now a peer cn sn st)
unfolding answer_hello
answer_hello-IsServerSide c key now a peer cn sn st =
    elim (Option-cases (find_hello cn (sweep now st.hellos))) [
      | inl new ↦
          rw (new, answer_hello)
            (answer_new-IsServerSide c key now a peer cn sn st
              (record st { hellos = sweep now st.hellos }) refl refl)
      | inr (old, known) ↦ rw (known, answer_hello) ((refl, tt), refl, refl)
    ]

handle_hello-IsServerSide :
    (c : Crypto) (key : Bytes) (now a : ℕ) (sn : Option Bytes) (peer : String) (p : Bytes)
    (st : State)
    → IsServerSide peer st (handle_hello c key now a sn peer p st)
unfolding handle_hello
handle_hello-IsServerSide c key now a sn peer p st = elim (Bool-cases (length p == 77)) [
  | inr wrong_size ↦ rw (wrong_size, handle_hello) (tt, refl, refl)
  | inl size ↦ elim (Bool-cases (bytes_eq (c.hmac key (take 45 p)) (slice 45 77 p))) [
    | inr forged ↦ rw (size, forged, handle_hello) (tt, refl, refl)
    | inl signed ↦ elim (Bool-cases (is_recent now (get_be (slice 5 13 p)))) [
      | inr old ↦ rw (size, signed, old, handle_hello) (tt, refl, refl)
      | inl recent ↦
          rw (size, signed, recent, handle_hello)
            (answer_hello-IsServerSide c key now a peer (slice 13 45 p) sn st)
    ]
  ]
]

NoSend-OneAnswer : (peer : String) (es : List Effect) → NoSend es → OneAnswer peer es
NoSend-OneAnswer peer [] h = tt
NoSend-OneAnswer peer (write_packet p to ∷ es) h = absurd h
NoSend-OneAnswer peer (write_tun p ∷ es) h = h

dispatch-IsServerSide :
    (c : Crypto) (key : Bytes) (now a : ℕ) (sn : Option Bytes) (typ : ℕ) (peer : String) (p : Bytes)
    (st : State)
    → IsServerSide peer st (dispatch c key now a sn "kharej" typ peer p st)
unfolding dispatch
dispatch-IsServerSide c key now a sn typ peer p st = elim (Bool-cases (typ == msg_hello)) [
  | inl hello ↦ rw hello (handle_hello-IsServerSide c key now a sn peer p st)
  | inr not_hello ↦ elim (Bool-cases (typ == msg_hello_ack)) [
    | inl ack ↦ rw (not_hello, ack) (tt, refl, refl)
    | inr not_ack ↦
        let (keeps, silent) = handle_encrypted-IsPassive c now peer p st in
        elim (Bool-cases
          ((typ == msg_data) || ((typ == msg_keepalive) || (typ == msg_direct_probe_ack)))) [
            | inl sealed ↦
                rw (not_hello, not_ack, sealed)
                  (
                    NoSend-OneAnswer peer (handle_encrypted c now peer p st).1 silent,
                    keeps.pending,
                    keeps.pending_set,
                  )
            | inr unknown ↦ rw (not_hello, not_ack, unknown) (tt, refl, refl)
          ]
  ]
]

-- A Kharej node answers a packet that recvLoop reads from the carrier by one packet at most, and only to
-- the address that it came from; the client's pending nonce is not touched.
pub recv_packet-IsServerSide :
    (c : Crypto) (key : Bytes) (now a : ℕ) (sn : Option Bytes) (peer : String) (p : Bytes)
    (st : State)
    → IsServerSide peer st (recv_packet c key now a sn "kharej" peer p st)
unfolding recv_packet
recv_packet-IsServerSide c key now a sn peer p st =
    elim (Bool-cases (ltb (length p) 5 || not (bytes_eq (take 4 p) magic))) [
      | inl foreign ↦ rw foreign (tt, refl, refl)
      | inr ours ↦ rw ours (dispatch-IsServerSide c key now a sn (type_byte p) peer p st)
    ]
