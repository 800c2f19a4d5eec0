-- ===== src/ReturnPath/Mailbox.antt =====
-- smart_return.go, `initProbeAck`, `notifyProbeAck`, `waitProbeAck`: the channel of 32 probe
-- nonces between the receive path and the monitor.
use hashshashin.Base.{
  ℕ, ◌<◌, ◌≡◌, Bool, true, false, List, [], ◌∷◌, ◌++◌, Option, none, some, arith, ltb,
  if◌then◌else◌, length, map, Bool-cases, inl, inr, lt→ltb, ◌⊎◌,
}
use hashshashin.Base.Bytes.{Bytes, bytes_eq, bytes_eq_refl, bytes_eq→eq}

abbrev pub capacity : ℕ
capacity = 32

-- `none` is the nil channel; the head of the list is the oldest nonce.
abbrev pub Channel : Type 0
Channel = Option (List Bytes)

unfoldable pub init_probe_ack : Channel → Channel
init_probe_ack none = some []
init_probe_ack (some queue) = some queue

-- The send never blocks: on a full channel the nonce is dropped.
unfoldable pub notify_probe_ack : Channel → Bytes → Channel
notify_probe_ack none nonce = none
notify_probe_ack (some queue) nonce =
    if ltb (length queue) capacity then some (queue ++ nonce ∷ []) else some queue

-- What the `select` of `waitProbeAck` took: the runtime picks among those that are ready.
pub data Ready : Type 0 where
  cancelled timed_out : Ready
  received : Bytes → Ready

-- The loop over what it takes, with what is left untaken; `none` while it still waits.
unfoldable pub wait_probe_ack : Bytes → List Ready → Option (Bool × List Ready)
wait_probe_ack nonce [] = none
wait_probe_ack nonce (cancelled ∷ rest) = some (false, rest)
wait_probe_ack nonce (timed_out ∷ rest) = some (false, rest)
wait_probe_ack nonce (received got ∷ rest) =
    let again = wait_probe_ack nonce rest in if bytes_eq got nonce then some (true, rest) else again

abbrev pub drained : Channel → List Ready
drained none = []
drained (some queue) = map received queue

wait-append :
    (nonce : Bytes) (queue : List Bytes) (later : List Ready)
    → (rest : List Ready) × (wait_probe_ack nonce (map received (queue ++ nonce ∷ []) ++ later)
        ≡ some (true, rest))
unfolding wait_probe_ack
wait-append nonce [] later = (later, ground (arith, bytes_eq_refl nonce))
wait-append nonce (got ∷ queue) later =
    let (rest, e) = wait-append nonce queue later in
    elim (Bool-cases (bytes_eq got nonce)) [
      | inl hit ↦ (map received (queue ++ nonce ∷ []) ++ later, rw (hit, wait_probe_ack))
      | inr miss ↦ (rest, rw (miss, wait_probe_ack) e)
    ]

-- An acknowledgement that arrives while the channel has room is found by the wait for its nonce,
-- however many stale ones stand before it, if the runtime takes the channel's content first.
pub wait-notify :
    (nonce : Bytes) (queue : List Bytes) (later : List Ready)
    → length queue < capacity
    → (rest : List Ready) × (wait_probe_ack nonce
          (drained (notify_probe_ack (some queue) nonce) ++ later)
        ≡ some (true, rest))
unfolding notify_probe_ack
wait-notify nonce queue later room = rw (lt→ltb _ _ room) (wait-append nonce queue later)

-- The wait never takes another probe's acknowledgement for its own: a positive answer means that
-- the nonce was received.
abbrev pub IsReceived : Bytes → List Ready → Type 0
IsReceived nonce [] = ⊥
IsReceived nonce (cancelled ∷ rest) = ⊥
IsReceived nonce (timed_out ∷ rest) = ⊥
IsReceived nonce (received got ∷ rest) = (got ≡ nonce) ⊎ IsReceived nonce rest

pub wait_sound :
    (nonce : Bytes) (taken : List Ready) {rest : List Ready}
    → wait_probe_ack nonce taken ≡ some (true, rest)
    → IsReceived nonce taken
unfolding wait_probe_ack
wait_sound nonce [] h = cc
wait_sound nonce (cancelled ∷ later) h = cc
wait_sound nonce (timed_out ∷ later) h = cc
wait_sound nonce (received got ∷ later) {rest} h = elim (Bool-cases (bytes_eq got nonce)) [
  | inl hit ↦ inl (bytes_eq→eq got nonce hit)
  | inr miss ↦ inr (wait_sound nonce later {rest = rest} (rw (miss, wait_probe_ack) at h))
]
