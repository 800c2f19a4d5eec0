-- ===== src/ReturnPath/Tests.antt =====
-- The controller and the probe channel on short histories.
use hashshashin.Base.{◌≡◌, ◌≤◌, ◌*◌, refl, Bool, true, false, List, [], ◌∷◌, ◌++◌, some, arith, ◌⊎◌}
use hashshashin.Base.Bytes.{Bytes, bytes_eq}
use hashshashin.ReturnPath.{direct, tunnel, new_controller, observe, observe_all}
use hashshashin.ReturnPath.Hysteresis.{
  Follows, history, streak, new-Follows, observe_all-history, observe_all-falls_back,
  observe_all-recovers, observe-changed,
}
use hashshashin.ReturnPath.Flapping.{observe_all-flaps}
use hashshashin.ReturnPath.Mailbox.{
  Ready, received, timed_out, notify_probe_ack, wait_probe_ack, drained, wait-notify, IsReceived,
  wait_sound,
}

-- Two failures and a success do not switch; three failures do; two successes of three do not
-- switch back, three do.
abbrev rough : List Bool
rough = false ∷ false ∷ true ∷ false ∷ false ∷ false ∷ []

abbrev healed : List Bool
healed = false ∷ false ∷ false ∷ true ∷ true ∷ false ∷ true ∷ true ∷ true ∷ []

rough_switches : (observe_all (new_controller 3 3) 0 rough).1 ≡ 1
unfolding observe_all observe new_controller
rough_switches = refl

healed_switches : (observe_all (new_controller 3 3) 0 healed).1 ≡ 2
unfolding observe_all observe new_controller
healed_switches = refl

observe_all-history_example :
    Follows 3 3 (history [] rough) (observe_all (new_controller 3 3) 0 rough).0
observe_all-history_example = observe_all-history 3 3 rough (omega arith) (omega arith)

rough-streak : 3 ≤ streak false (history [] rough)
unfolding streak history
rough-streak = omega arith

observe_all-falls_back_example : (observe_all (new_controller 3 3) 0 rough).0.path ≡ tunnel
observe_all-falls_back_example =
    observe_all-falls_back 3 3 rough (omega arith) (omega arith) rough-streak

healed-streak : 3 ≤ streak true (history [] healed)
unfolding streak history
healed-streak = omega arith

observe_all-recovers_example : (observe_all (new_controller 3 3) 0 healed).0.path ≡ direct
observe_all-recovers_example =
    observe_all-recovers 3 3 healed (omega arith) (omega arith) healed-streak

observe-changed_example :
    let (r', path, changed) = observe (new_controller 1 1) false in
    (r'.path ≡ path)
    × (((changed ≡ true)
          × (path ≡ tunnel)
          × ((new_controller 1 1).path ≡ direct)
          × (1 ≤ streak false (false ∷ [])))
        ⊎ ((changed ≡ true)
            × (path ≡ direct)
            × ((new_controller 1 1).path ≡ tunnel)
            × (1 ≤ streak true (false ∷ [])))
        ⊎ ((changed ≡ false) × (path ≡ (new_controller 1 1).path)))
observe-changed_example =
    observe-changed 1 1 [] (new_controller 1 1) false (new-Follows 1 1 (omega arith) (omega arith))

observe_all-flaps_example : 2 * (observe_all (new_controller 2 3) 0 healed).1 ≤ 9
observe_all-flaps_example = observe_all-flaps 2 2 3 healed (omega arith) (omega arith)

abbrev stale : Bytes
stale = 1 ∷ 2 ∷ []

abbrev wanted : Bytes
wanted = 7 ∷ 8 ∷ []

wait-notify_example :
    (rest : List Ready) × (wait_probe_ack wanted
        (drained (notify_probe_ack (some (stale ∷ [])) wanted) ++ timed_out ∷ [])
      ≡ some (true, rest))
wait-notify_example = wait-notify wanted (stale ∷ []) (timed_out ∷ []) (omega arith)

found_second :
    wait_probe_ack wanted (received stale ∷ received wanted ∷ timed_out ∷ [])
    ≡ some (true, timed_out ∷ [])
unfolding wait_probe_ack bytes_eq
found_second = refl

wait_sound_example : IsReceived wanted (received stale ∷ received wanted ∷ timed_out ∷ [])
wait_sound_example =
    wait_sound wanted (received stale ∷ received wanted ∷ timed_out ∷ []) {rest = timed_out ∷ []}
      found_second
