-- ===== src/Probe/Tests.antt =====
-- A probe between two concrete nodes, and the monitor over a few probes.
use hashshashin.Base.{
  ℕ, ◌+◌, ◌≡◌, refl, String, str_eq, Bool, true, false, List, [], ◌∷◌, ◌++◌, Option, none, some,
  arith, length, replicate,
}
use hashshashin.Base.Int.{ℤ, pos_part}
use hashshashin.Base.Bytes.{Bytes}
use hashshashin.Crypto.Toy.{toy}
use hashshashin.Wire.{make_direct_probe}
use hashshashin.Replay.{accept}
use hashshashin.Replay.Spec.{contains, newest}
use hashshashin.Replay.Window.{accept-Refines}
use hashshashin.ReturnPath.{new_controller, observe_all}
use hashshashin.ReturnPath.Mailbox.{Ready, timed_out, received, drained, wait_probe_ack}
use hashshashin.Config.{Config}
use hashshashin.Config.Sample.{loaded}
use hashshashin.Routing.Toy.{counting}
use hashshashin.Tunnel.{State, add_u64, write_packet, session_with}
use hashshashin.Tunnel.Dispatch.{recv_packet}
use hashshashin.Tunnel.Sample.{
  new_state, psk, at, iran_end, kharej_end, kharej_state, keys_match, window_is_empty,
}
use hashshashin.Probe.{Tick, heard, verify_direct_probe, is_probing, respond_round, run_monitor}
use hashshashin.Probe.Answer.{IsJustified, respond_round-IsJustified, wait-respond_round}
use hashshashin.Probe.Monitor.{results, IsNewest, run_monitor-Tracks}

abbrev nonce : Bytes
nonce = replicate 16 5

abbrev iran_state : State
iran_state = record new_state { session = some iran_end }

abbrev probe : Bytes
probe = make_direct_probe toy psk (at 990) nonce

-- The addresses are texts here.
respond_round-IsJustified_example :
    let (goes_on, st', effects) =
      respond_round str_eq toy psk
        (at 1000)
        loaded
        true
        (heard (some "203.0.113.9") probe)
        iran_state in
    IsJustified str_eq toy psk
      (at 1000)
      loaded
      true
      (heard (some "203.0.113.9") probe)
      iran_state
      (st', effects)
respond_round-IsJustified_example =
    respond_round-IsJustified str_eq toy psk (at 1000) loaded true
      (heard (some "203.0.113.9") probe) iran_state

abbrev listening : State
listening = record kharej_state { probe_ack = some (replicate 16 1 ∷ []) }

counter_is_fresh : (accept kharej_end.replay (add_u64 iran_end.tx 1)).1 ≡ true
unfolding session_with contains newest
counter_is_fresh =
    let (same, _) = accept-Refines [] kharej_end.replay (add_u64 iran_end.tx 1) window_is_empty in
    same

wait-respond_round_example :
    let (goes_on, iran', effects) =
      respond_round str_eq toy psk
        (at 1000)
        loaded
        true
        (heard (some "203.0.113.9") probe)
        iran_state in
    (packet : Bytes) × (effects ≡ write_packet packet "kharej:1" ∷ [])
    × (let (kharej', sent_on) =
          recv_packet toy psk (at 991) 9 none "kharej" "iran:1" packet listening in
        (left : List Ready) × (wait_probe_ack nonce (drained kharej'.probe_ack ++ timed_out ∷ [])
          ≡ some (true, left)))
unfolding session_with
wait-respond_round_example =
    wait-respond_round str_eq toy psk nonce (at 990) (at 1000) (at 991) 9 none loaded true
      "203.0.113.9" iran_end kharej_end iran_state listening (replicate 16 1 ∷ []) (timed_out ∷ [])
      refl (omega arith) refl refl refl keys_match counter_is_fresh refl (omega arith)

abbrev kharej : Config
kharej = record loaded { role = "kharej" }

abbrev itoa : ℤ → String
itoa n = "0"

abbrev lost : Tick
lost = record { connected = true; nonce = some nonce; written = true; taken = timed_out ∷ [] }

abbrev answered : Tick
answered = record lost { taken = received (replicate 16 1) ∷ received nonce ∷ [] }

abbrev ticks : List Tick
ticks =
    lost
    ∷ record lost { connected = false }
    ∷ lost
    ∷ record lost { written = false }
    ∷ answered
    ∷ []

probing : is_probing "kharej" kharej ≡ true
unfolding is_probing
probing = refl

run_monitor-Tracks_example :
    let (r', switches) =
      observe_all
        (new_controller
          (pos_part kharej.smart_return.fail_threshold)
          (pos_part kharej.smart_return.recover_threshold))
        0
        (results ticks) in
    let (ended, log') = run_monitor itoa kharej counting true [] ticks in
    (ended ≡ some r') × IsNewest itoa kharej r'.path log' × (length log' ≡ 0 + 1 + switches)
run_monitor-Tracks_example = run_monitor-Tracks itoa kharej counting ticks [] probing

-- Three failures move the download into the tunnel.
run_monitor_three :
    (length (run_monitor itoa kharej counting true [] ticks).1 ≡ 2)
    × (results ticks ≡ false ∷ false ∷ false ∷ true ∷ [])
unfolding run_monitor results hashshashin.Probe.monitor_ticks hashshashin.Probe.try_probe is_probing
    wait_probe_ack hashshashin.Probe.observe_probe hashshashin.Routing.Policy.set_kharej_return_path
    hashshashin.Shell.run_cmd hashshashin.Shell.run_quiet hashshashin.ReturnPath.observe
    new_controller hashshashin.Base.Bytes.bytes_eq
run_monitor_three = (refl, refl)
