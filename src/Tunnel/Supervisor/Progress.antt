-- ===== src/Tunnel/Supervisor/Progress.antt =====
-- The client's handshake loop ends, with the session, once the acknowledgement is in.
use text.Mathlib.TextEquality.{eq_iff}
use hashshashin.Base.{
  ℕ, ◌+◌, ◌<◌, ◌≡◌, ◌≢◌, refl, ◌∙◌, String, str_eq, Bool, true, false, List, [], ◌∷◌, ◌++◌, some,
  arith, if◌then◌else◌, length, lt→ltb, ◌⊎◌, inl, inr, Bool-cases,
}
use hashshashin.Base.Bytes.{Bytes, bytes_eq, bytes_eq_refl}
use hashshashin.Crypto.{Crypto}
use hashshashin.Clock.{second}
use hashshashin.Wire.{make_hello_ack}
use hashshashin.Tunnel.{State, derive, session_with}
use hashshashin.Tunnel.Handshake.{set_pending, drop_pending}
use hashshashin.Tunnel.Handshake.Agreement.{handle_hello_ack_lem}
use hashshashin.Tunnel.Supervisor.{
  Event, cancelled, retry, poll, ack_arrives, Outcome, established, no_peer, no_random,
  write_failed, context_done, waiting, is_new, await, returned, handshake_with, handshake_client,
}

-- Polls and retries that reach the carrier.
abbrev pub IsQuiet : List Event → Type 0
IsQuiet [] = Unit
IsQuiet (cancelled ∷ es) = ⊥
IsQuiet (retry written ∷ es) = (written ≡ true) × IsQuiet es
IsQuiet (poll ∷ es) = IsQuiet es
IsQuiet (ack_arrives now address peer p ∷ es) = ⊥

await-append :
    (c : Crypto) (key : Bytes) (started : ℕ) (es rest : List Event) (st : State)
    → IsQuiet es
    → is_new started st.session ≡ false
    → await c key started (es ++ rest) st ≡ await c key started rest st
unfolding await
await-append c key started [] rest st q old = refl
await-append c key started (cancelled ∷ es) rest st q old = absurd q
await-append c key started (retry true ∷ es) rest st q old =
    rw old (await-append c key started es rest st q.1 old)
await-append c key started (retry false ∷ es) rest st q old = cc (q.0)
await-append c key started (poll ∷ es) rest st q old =
    rw old (await-append c key started es rest st q old)
await-append c key started (ack_arrives now address peer p ∷ es) rest st q old = absurd q

-- The state that a taken acknowledgement leaves.
abbrev pub with_client_session : Crypto → Bytes → Bytes → Bytes → String → ℕ → ℕ → State → State
with_client_session c key cn sn peer address now st = record st {
  session =
      some
        (record (session_with (derive c key cn sn "c2s") (derive c key cn sn "s2c") peer true
          address now) { metered = true });
  pending = cn;
  pending_set = false;
}

await-ack :
    (c : Crypto) (key cn sn : Bytes) (started now address : ℕ) (peer : String) (rest : List Event)
    (st : State)
    → length cn ≡ 32
    → length sn ≡ 32
    → started < now + second
    → await c key started
        (ack_arrives now address peer (make_hello_ack c key cn sn) ∷ poll ∷ rest)
        (set_pending cn st)
      ≡ (established, with_client_session c key cn sn peer address now st)
unfolding await session_with
await-ack c key cn sn started now address peer rest st hc hs late =
    rw (handle_hello_ack_lem c key now address peer cn sn st hc hs, lt→ltb _ _ late)

-- A client that has a peer, no session from the last second and a carrier that takes its hello
-- establishes the session: after any number of polls and retries, the server's acknowledgement and
-- one more poll end the call with the derived session stored and the nonce no longer awaited.
pub handshake_client-establishes :
    (c : Crypto) (to from : String) (key cn sn : Bytes) (started now address : ℕ)
    (es rest : List Event) (st : State)
    → to ≢ ""
    → length cn ≡ 32
    → length sn ≡ 32
    → is_new started st.session ≡ false
    → IsQuiet es
    → started < now + second
    → handshake_client c to key started
        (some cn)
        true
        (es ++ (ack_arrives now address from (make_hello_ack c key cn sn) ∷ poll ∷ rest))
        st
      ≡ (established, with_client_session c key cn sn from address now st)
unfolding handshake_client handshake_with returned drop_pending set_pending
handshake_client-establishes c to from key cn sn started now address es rest st named hc hs old
      quiet late =
    let known : str_eq to "" ≡ false = ground (arith, eq_iff to "") in
    let runs =
      await-append c key started es
        (ack_arrives now address from (make_hello_ack c key cn sn) ∷ poll ∷ rest)
        (set_pending cn st) quiet old
      ∙ await-ack c key cn sn started now address from rest st hc hs late in
    rw (known, old, runs, bytes_eq_refl cn)

-- However it ends, a returned call does not leave its own nonce awaited: an acknowledgement that
-- comes later is ignored.
abbrev pub IsSettled : Bytes → Outcome × State → Type 0
IsSettled cn (o, st) = (o ≡ waiting) ⊎ ((bytes_eq st.pending cn ≡ false) ⊎ (st.pending_set ≡ false))

drop_pending-settles :
    (cn : Bytes) (st : State)
    → (bytes_eq (drop_pending cn st).pending cn ≡ false)
      ⊎ ((drop_pending cn st).pending_set ≡ false)
unfolding drop_pending
drop_pending-settles cn st = elim (Bool-cases (bytes_eq st.pending cn)) [
  | inl mine ↦ inr (rw (mine, drop_pending))
  | inr other ↦ inl (rw (other, drop_pending) other)
]

returned-IsSettled : (cn : Bytes) (r : Outcome × State) → IsSettled cn (returned cn r)
unfolding returned
returned-IsSettled cn (waiting, st) = inl refl
returned-IsSettled cn (established, st) = inr (drop_pending-settles cn st)
returned-IsSettled cn (no_peer, st) = inr (drop_pending-settles cn st)
returned-IsSettled cn (no_random, st) = inr (drop_pending-settles cn st)
returned-IsSettled cn (write_failed, st) = inr (drop_pending-settles cn st)
returned-IsSettled cn (context_done, st) = inr (drop_pending-settles cn st)

handshake_with-IsSettled :
    (c : Crypto) (key : Bytes) (started : ℕ) (cn : Bytes) (written : Bool) (es : List Event)
    (st : State)
    → IsSettled cn (handshake_with c key started cn written es st)
unfolding handshake_with
handshake_with-IsSettled c key started cn false es st =
    returned-IsSettled cn (write_failed, set_pending cn st)
handshake_with-IsSettled c key started cn true es st = returned-IsSettled cn (
    if is_new started st.session
    then (established, set_pending cn st)
    else await c key started es (set_pending cn st))

-- Whatever the network and the timers do, when `handshake_client` with the nonce `cn` returns, the
-- state no longer waits for `cn`.
pub handshake_client-IsSettled :
    (c : Crypto) (to : String) (key cn : Bytes) (started : ℕ) (written : Bool) (es : List Event)
    (st : State)
    → to ≢ ""
    → IsSettled cn (handshake_client c to key started (some cn) written es st)
unfolding handshake_client
handshake_client-IsSettled c to key cn started written es st named =
    let known : str_eq to "" ≡ false = ground (arith, eq_iff to "") in
    simp (known, handshake_client) (handshake_with-IsSettled c key started cn written es st)
