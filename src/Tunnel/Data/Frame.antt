-- ===== src/Tunnel/Data/Frame.antt =====
-- What a received packet can change, and what happens to one that arrives twice.
use hashshashin.Base.{
  ℕ, ◌≡◌, refl, String, str_eq, List, [], ◌∷◌, Option, none, some, arith, length, Bool-cases, inl,
  inr, ltb, ◌==◌, ◌&&◌,
}
use hashshashin.Base.Bytes.{Bytes}
use hashshashin.Crypto.{Crypto}
use hashshashin.Wire.{msg_data, msg_direct_probe_ack}
use hashshashin.Replay.{accept}
use hashshashin.Tunnel.{State, Session, Effect, write_packet, write_tun, add_u64, touch}
use hashshashin.Tunnel.Data.{
  deliver, receive_plain, after_open, open_packet, for_session, handle_encrypted,
}

-- The parts of a session that only a handshake sets.
abbrev pub SameEnd : Option Session → Option Session → Type 0
SameEnd none none = Unit
SameEnd none (some t) = ⊥
SameEnd (some s) none = ⊥
SameEnd (some s) (some t) =
    (t.address ≡ s.address)
    × (t.tx_aead ≡ s.tx_aead)
    × (t.rx_aead ≡ s.rx_aead)
    × (t.peer ≡ s.peer)
    × (t.created ≡ s.created)
    × (t.tx ≡ s.tx)

pub record Keeps (st st' : State) : Type 0 where
  pub session_end : SameEnd st.session st'.session
  pub pending : st'.pending ≡ st.pending
  pub pending_set : st'.pending_set ≡ st.pending_set
  pub hellos : st'.hellos ≡ st.hellos

SameEnd-refl : (s : Option Session) → SameEnd s s
SameEnd-refl none = tt
SameEnd-refl (some s) = (refl, refl, refl, refl, refl, refl)

abbrev pub NoSend : List Effect → Type 0
NoSend [] = Unit
NoSend (write_packet p peer ∷ es) = ⊥
NoSend (write_tun p ∷ es) = NoSend es

abbrev pub IsPassive : State → State × List Effect → Type 0
IsPassive st (st', es) = Keeps st st' × NoSend es

unchanged-IsPassive : (st : State) → IsPassive st (st, [])
unchanged-IsPassive st = (
  record {
    session_end = SameEnd-refl st.session;
    pending = refl;
    pending_set = refl;
    hellos = refl;
  },
  tt,
)

-- `deliver` leaves all but the counters and the probe channel alone.
deliver_fields :
    (typ : ℕ) (plain : Bytes) (st : State)
    → let st' = (deliver typ plain st).0 in
      (st'.session ≡ st.session)
      × (st'.pending ≡ st.pending)
      × (st'.pending_set ≡ st.pending_set)
      × (st'.hellos ≡ st.hellos)
unfolding deliver
deliver_fields typ plain st = ground arith

deliver-NoSend : (typ : ℕ) (plain : Bytes) (st : State) → NoSend (deliver typ plain st).1
unfolding deliver
deliver-NoSend typ plain st = elim (Bool-cases (typ == msg_data)) [
  | inl is_data ↦ elim (Bool-cases (ltb 0 (length plain))) [
    | inl full ↦ rw (is_data, full) tt
    | inr empty ↦ rw (is_data, empty) tt
  ]
  | inr control ↦ elim (Bool-cases ((typ == msg_direct_probe_ack) && (length plain == 16))) [
    | inl probe ↦ rw (control, probe) tt
    | inr plain_control ↦ rw (control, plain_control) tt
  ]
]

receive_plain-IsPassive :
    (now typ counter : ℕ) (plain : Bytes) (ss : Session) (st : State)
    → st.session ≡ some ss
    → IsPassive st (receive_plain now typ counter plain ss st)
unfolding receive_plain touch
receive_plain-IsPassive now typ counter plain ss st here =
    elim (Bool-cases (accept ss.replay counter).1) [
      | inr stale ↦
          rw (stale, receive_plain)
            (
              record {
                session_end = SameEnd-refl st.session;
                pending = refl;
                pending_set = refl;
                hellos = refl;
              },
              tt,
            )
      | inl fresh ↦
          let seen : State = record st {
            session = some (record (touch ss now) {
              replay = (accept ss.replay counter).0;
              rx_bytes = add_u64 ss.rx_bytes (length plain);
            });
          } in
          let (same, pending, pending_set, hellos) = deliver_fields typ plain seen in
          rw (fresh, receive_plain)
            (
              record {
                session_end = rw (same, here) (refl, refl, refl, refl, refl, refl);
                pending = pending;
                pending_set = pending_set;
                hellos = hellos;
              },
              deliver-NoSend typ plain seen,
            )
    ]

after_open-IsPassive :
    (now typ counter : ℕ) (ss : Session) (st : State) (opened : Option Bytes)
    → st.session ≡ some ss
    → IsPassive st (after_open now typ counter ss st opened)
unfolding after_open
after_open-IsPassive now typ counter ss st none here = (
  record {
    session_end = SameEnd-refl st.session;
    pending = refl;
    pending_set = refl;
    hellos = refl;
  },
  tt,
)
after_open-IsPassive now typ counter ss st (some plain) here =
    receive_plain-IsPassive now typ counter plain ss st here

for_session-IsPassive :
    (c : Crypto) (now : ℕ) (peer : String) (p : Bytes) (st : State) (s : Option Session)
    → st.session ≡ s
    → IsPassive st (for_session c now peer p st s)
unfolding for_session open_packet
for_session-IsPassive c now peer p st none here = unchanged-IsPassive st
for_session-IsPassive c now peer p st (some ss) here = elim (Bool-cases (str_eq peer ss.peer)) [
  | inl known ↦ rw known (after_open-IsPassive now _ _ ss st _ here)
  | inr stranger ↦ rw stranger (unchanged-IsPassive st)
]

-- A data, keepalive or probe packet, whatever its bytes, never makes or drops a session, never
-- changes a session's keys, peer, age or send counter, leaves the handshake's state alone, and makes
-- the node send nothing.
pub handle_encrypted-IsPassive :
    (c : Crypto) (now : ℕ) (peer : String) (p : Bytes) (st : State)
    → IsPassive st (handle_encrypted c now peer p st)
unfolding handle_encrypted
handle_encrypted-IsPassive c now peer p st = elim (Bool-cases (ltb (length p) 29)) [
  | inl short ↦ rw short (unchanged-IsPassive st)
  | inr long ↦ rw long (for_session-IsPassive c now peer p st st.session refl)
]
