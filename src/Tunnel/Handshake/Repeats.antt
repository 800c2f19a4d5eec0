-- ===== src/Tunnel/Handshake/Repeats.antt =====
-- Hellos and acknowledgements that arrive more than once.
use hashshashin.Base.{
  ℕ, ◌+◌, ◌≤◌, ◌<◌, ◌≡◌, refl, ap, ◌∙◌, ◌⊎◌, inl, inr, String, Bool, true, false, List, [], ◌∷◌,
  Option, none, some, arith, length, Bool-cases, slice, take, lt→ltb, ltb, if◌then◌else◌, ◌==◌,
  ==_iff, ◌&&◌,
}
use hashshashin.Base.Bytes.{Bytes, bytes_eq, bytes_eq_refl, bytes_eq→eq}
use hashshashin.Crypto.{Crypto}
use hashshashin.Wire.{make_hello, make_hello_ack}
use hashshashin.Tunnel.{State, HelloRecord, write_packet, derive, session_with, store_session}
use hashshashin.Tunnel.Handshake.{
  find_hello, sweep, hello_lifetime, answer_new, answer_hello, handle_hello, handle_hello_ack,
  take_ack,
}
use hashshashin.Tunnel.Handshake.Keys.{derive_session_lem}
use hashshashin.Tunnel.Handshake.Agreement.{IsTimely, handle_hello-accepts, answer_new_lem}

-- A record that is there survives the sweep if its time has not passed, and none appears.
find_hello-sweep-none :
    (cn : Bytes) (now : ℕ) (hs : List (Bytes × HelloRecord))
    → find_hello cn hs ≡ none
    → find_hello cn (sweep now hs) ≡ none
unfolding find_hello sweep
find_hello-sweep-none cn now [] h = refl
find_hello-sweep-none cn now ((k, v) ∷ hs) h = ground (arith, find_hello-sweep-none cn now hs)

sweep_head :
    (cn : Bytes) (now : ℕ) (v : HelloRecord) (hs : List (Bytes × HelloRecord))
    → find_hello cn (sweep now ((cn, v) ∷ hs))
      ≡ (if ltb v.expires now then find_hello cn (sweep now hs) else some v)
unfolding find_hello sweep
sweep_head cn now v hs = ground (arith, bytes_eq_refl cn)

module _ (c : Crypto) (key cn sn : Bytes) (sent now a : ℕ) (peer : String) (server : State)
    (nonce_size : length cn ≡ 32) (timely : IsTimely sent now)
    (new : find_hello cn (sweep now server.hellos) ≡ none) where
  abbrev hello : Bytes
  hello = make_hello c key sent cn

  abbrev pub after_first : State
  after_first = (handle_hello c key now a (some sn) peer hello server).0

  first_hellos :
      after_first.hellos
      ≡ (cn, record { expires = now + hello_lifetime; ack = make_hello_ack c key cn sn })
        ∷ sweep now server.hellos
  unfolding answer_hello answer_new store_session
  first_hellos =
      ap (λ r. r.0.hellos)
        (handle_hello-accepts c key sent now a cn (some sn) peer server nonce_size timely)
      ∙ rw (new, answer_hello, derive_session_lem c key cn sn peer false a now, answer_new)

  -- The same hello once more, from any address, within two minutes of its first answer and while the
  -- node's clock is still within 90 seconds of its stamp: the first acknowledgement is sent again, and the
  -- session, the counters and the pending nonce stay as they are.
  pub handle_hello-repeat :
      (again b : ℕ) (sn' : Option Bytes) (peer' : String)
      → IsTimely sent again
      → again ≤ now + hello_lifetime
      → handle_hello c key again b sn' peer' hello after_first ≡ (
        record after_first { hellos = sweep again after_first.hellos },
        write_packet (make_hello_ack c key cn sn) peer' ∷ [],
      )
  unfolding answer_hello
  handle_hello-repeat again b sn' peer' timely' alive =
      handle_hello-accepts c key sent again b cn sn' peer' after_first nonce_size timely'
      ∙ rw (found, answer_hello)
    where
      found :
          find_hello cn (sweep again after_first.hellos)
          ≡ some (record { expires = now + hello_lifetime; ack = make_hello_ack c key cn sn })
      found = rw first_hellos (sweep_head cn again _ _ ∙ ground arith)

  -- A hello that was answered at `now` and is still within 90 seconds of its stamp more than two
  -- minutes later: sent again then, from any address, the same packet replaces the session by one
  -- derived from a new server nonce.
  pub handle_hello-replayed :
      (again b : ℕ) (sn' : Bytes) (peer' : String)
      → IsTimely sent again
      → now + hello_lifetime < again
      → (handle_hello c key again b (some sn') peer' hello after_first).0.session
        ≡ some
            (record (session_with
              (derive c key cn sn' "c2s")
              (derive c key cn sn' "s2c")
              peer'
              false
              b
              again) { metered = true })
  unfolding answer_hello
  handle_hello-replayed again b sn' peer' timely' expired =
      ap (λ r. r.0.session) answered ∙ (answer_new_lem c key again b peer' cn sn' swept).0
    where
      swept : State
      swept = record after_first { hellos = sweep again after_first.hellos }

      gone : find_hello cn (sweep again after_first.hellos) ≡ none
      gone = rw first_hellos (
          sweep_head cn again _ _
          ∙ rw (lt→ltb _ _ expired) (find_hello-sweep-none cn again (sweep now server.hellos) new))

      answered :
          handle_hello c key again b (some sn') peer' hello after_first
          ≡ answer_new c key again b peer' cn (some sn') swept
      answered =
          handle_hello-accepts c key sent again b cn (some sn') peer' after_first nonce_size timely'
          ∙ rw (gone, answer_hello)

-- An acknowledgement that is taken ends the wait: whatever acknowledgement comes next changes
-- nothing.
pub handle_hello_ack-once :
    (c : Crypto) (key : Bytes) (now a later b : ℕ) (peer peer' : String) (p q : Bytes) (st : State)
    → let st' = handle_hello_ack c key now a peer p st in
      (st' ≡ st) ⊎ (handle_hello_ack c key later b peer' q st' ≡ st')
unfolding handle_hello_ack take_ack store_session
handle_hello_ack-once c key now a later b peer peer' p q st = ground arith

and_left : (a b : Bool) → a && b ≡ true → a ≡ true
and_left a b h = ground arith

and_right : (a b : Bool) → a && b ≡ true → b ≡ true
and_right a b h = ground arith

-- A state changes only under the shared key and for the nonce that the client waits for.
pub handle_hello_ack-authentic :
    (c : Crypto) (key : Bytes) (now a : ℕ) (peer : String) (p : Bytes) (st : State)
    → (handle_hello_ack c key now a peer p st ≡ st)
      ⊎ ((length p ≡ 101)
          × (c.hmac key (take 69 p) ≡ slice 69 101 p)
          × (st.pending_set ≡ true)
          × (st.pending ≡ slice 5 37 p))
unfolding handle_hello_ack
handle_hello_ack-authentic c key now a peer p st = elim (Bool-cases (length p == 101)) [
  | inr wrong_size ↦ inl (rw (wrong_size, handle_hello_ack))
  | inl size ↦ elim (Bool-cases (bytes_eq (c.hmac key (take 69 p)) (slice 69 101 p))) [
    | inr forged ↦ inl (rw (size, forged, handle_hello_ack))
    | inl signed ↦ elim (Bool-cases (st.pending_set && bytes_eq st.pending (slice 5 37 p))) [
      | inr unasked ↦ inl (rw (size, signed, unasked, handle_hello_ack))
      | inl asked ↦ inr (
        (==_iff _ _).0 size,
        bytes_eq→eq _ _ signed,
        and_left _ _ asked,
        bytes_eq→eq _ _ (and_right st.pending_set _ asked),
      )
    ]
  ]
]
