-- ===== src/Tunnel/Handshake.antt =====
-- transport.go, `handleHello`, `handleHelloAck` and the pending nonce of `handshakeClient`.
pub mod Keys
pub mod Agreement
pub mod Repeats
use hashshashin.Base.{
  ℕ, ◌+◌, ◌*◌, String, Bool, true, false, not, ◌&&◌, List, [], ◌∷◌, Option, none, some, ltb, ◌==◌,
  if◌then◌else◌, length, take, slice,
}
use hashshashin.Base.Bytes.{Bytes, bytes_eq, get_be}
use hashshashin.Crypto.{Crypto}
use hashshashin.Clock.{second, is_recent}
use hashshashin.Wire.{make_hello_ack}
use hashshashin.Tunnel.{
  State, HelloRecord, Session, Effect, write_packet, store_session, derive_session,
}

-- The map of answered hellos, keyed by the client's nonce.
unfoldable pub find_hello : Bytes → List (Bytes × HelloRecord) → Option HelloRecord
find_hello cn [] = none
find_hello cn ((k, v) ∷ rest) = if bytes_eq k cn then some v else find_hello cn rest

-- delete(st.hellos, k) for each record past its time.
unfoldable pub sweep : ℕ → List (Bytes × HelloRecord) → List (Bytes × HelloRecord)
sweep now [] = []
sweep now ((k, v) ∷ rest) = if ltb v.expires now then sweep now rest else (k, v) ∷ sweep now rest

abbrev pub hello_lifetime : ℕ
hello_lifetime = 120 * second

-- The answer to a hello whose nonce is new: `sn` is what rand.Read gives, `none` if it fails, and
-- `address` is that of the new session.
unfoldable pub answer_new :
    Crypto → Bytes → ℕ → ℕ → String → Bytes → Option Bytes → State → State × List Effect
answer_new c key now address peer cn none st = (st, [])
answer_new c key now address peer cn (some sn) st =
    elim (derive_session c key cn sn peer false address now) [
      | none ↦ (st, [])
      | some ss ↦
          let ack = make_hello_ack c key cn sn in
          let noted : HelloRecord = record { expires = now + hello_lifetime; ack = ack } in
          (
            store_session (record st { hellos = (cn, noted) ∷ st.hellos }) ss,
            write_packet ack peer ∷ [],
          )
    ]

-- From the lock on `hellos` onwards.
unfoldable pub answer_hello :
    Crypto → Bytes → ℕ → ℕ → String → Bytes → Option Bytes → State → State × List Effect
answer_hello c key now address peer cn sn st =
    let swept = record st { hellos = sweep now st.hellos } in
    elim (find_hello cn swept.hellos) [
      | some old ↦ (swept, write_packet old.ack peer ∷ [])
      | none ↦ answer_new c key now address peer cn sn swept
    ]

abbrev pub hello_size : ℕ
hello_size = 77

unfoldable pub handle_hello :
    Crypto → Bytes → ℕ → ℕ → Option Bytes → String → Bytes → State → State × List Effect
handle_hello c key now address sn peer p st =
    if not (length p == hello_size)
    then (st, [])
    else if not (bytes_eq (c.hmac key (take 45 p)) (slice 45 77 p))
    then (st, [])
    else if not (is_recent now (get_be (slice 5 13 p)))
    then (st, [])
    else answer_hello c key now address peer (slice 13 45 p) sn st

-- The lock on `pending` in `handshakeClient`, before its first write and in its deferred call.
unfoldable pub set_pending : Bytes → State → State
set_pending cn st = record st { pending = cn; pending_set = true }

unfoldable pub drop_pending : Bytes → State → State
drop_pending cn st = if bytes_eq st.pending cn then record st { pending_set = false } else st

unfoldable pub take_ack : Crypto → Bytes → ℕ → ℕ → String → Bytes → State → State
take_ack c key now address peer p st =
    elim (derive_session c key (slice 5 37 p) (slice 37 69 p) peer true address now) [
      | none ↦ st
      | some ss ↦ store_session st ss
    ]

unfoldable pub handle_hello_ack : Crypto → Bytes → ℕ → ℕ → String → Bytes → State → State
handle_hello_ack c key now address peer p st =
    if not (length p == 101)
    then st
    else if not (bytes_eq (c.hmac key (take 69 p)) (slice 69 101 p))
    then st
    else if st.pending_set && bytes_eq st.pending (slice 5 37 p)
    then take_ack c key now address peer p (record st { pending_set = false })
    else st
