-- ===== src/Probe.antt =====
-- direct_probe.go: the check of a probe, one round of the responder on the Iran node, and the monitor on
-- the Kharej node, which switches the return path. The clock test is that of handleHello.
pub mod Verify
pub mod Answer
pub mod Monitor
pub mod Keeps
mod Tests
use hashshashin.Base.{
  ℕ, String, str_eq, Bool, true, false, not, ◌&&◌, ◌||◌, List, [], ◌∷◌, Option, none, some, ◌==◌,
  if◌then◌else◌, length, take, drop, slice,
}
use hashshashin.Base.Int.{ℤ, pos_part}
use hashshashin.Base.Bytes.{Bytes, bytes_eq, get_be}
use hashshashin.Crypto.{Crypto}
use hashshashin.Clock.{is_recent}
use hashshashin.Wire.{probe_magic, probe_size, msg_direct_probe_ack}
use hashshashin.ReturnPath.{direct, Controller, new_controller, observe}
use hashshashin.ReturnPath.Mailbox.{Ready, wait_probe_ack}
use hashshashin.Config.{Config}
use hashshashin.Shell.{Shell, Log}
use hashshashin.Routing.Policy.{set_kharej_return_path}
use hashshashin.Tunnel.{State, Session, Effect}
use hashshashin.Tunnel.Dispatch.{send_on}

-- The nonce of a probe that is accepted.
unfoldable pub verify_direct_probe : Crypto → Bytes → ℕ → Bytes → Option Bytes
verify_direct_probe c key now p =
    if not (length p == probe_size) || not (bytes_eq (take 4 p) probe_magic)
    then none
    else if not (bytes_eq (c.hmac key (take 28 p)) (drop 28 p))
    then none
    else if not (is_recent now (get_be (slice 4 12 p)))
    then none
    else some (slice 12 28 p)

-- The first test of each loop.
unfoldable pub is_probing : String → Config → Bool
is_probing role c = c.smart_return.enabled && (str_eq c.mode "direct-return" && str_eq c.role role)

-- What `ReadFrom` gave: a datagram, with the sender's IP if the address is a UDP address, or an error.
pub data Heard (A : Type 0) : Type 0 where
  heard : Option A → Bytes → Heard A
  failed : Heard A

abbrev pub buffer_size : ℕ
buffer_size = 256

-- From the session on.
unfoldable pub acknowledge : Crypto → Bytes → Bool → State → Option Session → State × List Effect
acknowledge c nonce written st none = (st, [])
acknowledge c nonce written st (some ss) = send_on c msg_direct_probe_ack nonce written ss st

unfoldable pub answer_verified : Crypto → Bool → State → Option Bytes → State × List Effect
unfolding acknowledge
answer_verified c written st none = (st, [])
answer_verified c written st (some nonce) = acknowledge c nonce written st st.session

-- `udpPeer.IP.Equal(net.ParseIP(text))`.
module _ {A : Type 0} (same_ip : A → String → Bool) where
  unfoldable pub answer_peer :
      Crypto → Bytes → ℕ → Config → Bool → Bytes → State → Option A → State × List Effect
  unfolding answer_verified
  answer_peer c key now config written p st none = (st, [])
  answer_peer c key now config written p st (some peer) =
      if not (same_ip peer config.network.foreign_public_ip)
      then (st, [])
      else answer_verified c written st (verify_direct_probe c key now p)

  -- One round of the responder: whether the loop goes on, the new state and the packets sent.
  unfoldable pub respond_round :
      Crypto → Bytes → ℕ → Config → Bool → Heard A → State → Bool × State × List Effect
  unfolding answer_peer
  respond_round c key now config written failed st = (false, st, [])
  respond_round c key now config written (heard peer p) st =
      let (st', effects) = answer_peer c key now config written (take buffer_size p) st peer in
      (true, st', effects)

-- What one probe of the monitor meets: whether there is a session, the random nonce, whether the probe
-- was written, and what the wait's `select` takes.
pub record Tick : Type 0 where
  pub connected : Bool
  pub nonce : Option Bytes
  pub written : Bool
  pub taken : List Ready

-- No result, a wait that goes on, or the result of the probe.
pub data Probed : Type 0 where
  skipped waiting : Probed
  probed : Bool → Probed

abbrev waited : Option (Bool × List Ready) → Probed
waited none = waiting
waited (some (ok, rest)) = probed ok

abbrev sent_probe : Tick → Option Bytes → Probed
sent_probe tick none = skipped
sent_probe tick (some nonce) =
    if not tick.written then probed false else waited (wait_probe_ack nonce tick.taken)

unfoldable pub try_probe : Tick → Probed
try_probe tick = if not tick.connected then skipped else sent_probe tick tick.nonce

module _ (itoa : ℤ → String) (config : Config) (sh : Shell) where
  -- The rest of the monitor's `probe`; an error of the switch is only logged.
  unfoldable pub observe_probe : Controller → Bool → Log → Controller × Log
  observe_probe r ok log =
      let (r', path, changed) = observe r ok in
      if not changed then (r', log) else (r', (set_kharej_return_path itoa config path sh log).1)

  -- The loop over the ticks. A wait that goes on holds up all that come after it.
  unfoldable pub monitor_ticks : Controller → Log → List Tick → Controller × Log
  monitor_ticks r log [] = (r, log)
  monitor_ticks r log (tick ∷ ticks) = elim (try_probe tick) [
    | skipped ↦ monitor_ticks r log ticks
    | waiting ↦ (r, log)
    | probed ok ↦ let (r', log') = observe_probe r ok log in monitor_ticks r' log' ticks
  ]

  -- `listens` tells whether the socket opens; no controller if the monitor ends at once.
  unfoldable pub run_monitor : Bool → Log → List Tick → Option Controller × Log
  run_monitor listens log ticks =
      if not (is_probing "kharej" config) || not listens
      then (none, log)
      else (let start =
            new_controller (pos_part config.smart_return.fail_threshold)
              (pos_part config.smart_return.recover_threshold) in
          let (r, log') =
            monitor_ticks start (set_kharej_return_path itoa config direct sh log).1 ticks in
          (some r, log'))
