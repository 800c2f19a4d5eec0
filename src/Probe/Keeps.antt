-- ===== src/Probe/Keeps.antt =====
-- What every switch of the return path keeps, the monitor keeps.
use hashshashin.Base.{◌≡◌, refl, String, Bool, true, false, not, ◌||◌, List, [], ◌∷◌, if◌then◌else◌}
use hashshashin.Base.Int.{ℤ, pos_part}
use hashshashin.ReturnPath.{ReturnPath, direct, Controller, new_controller, observe}
use hashshashin.Config.{Config}
use hashshashin.Shell.{Shell, Log}
use hashshashin.Routing.Policy.{set_kharej_return_path}
use hashshashin.Probe.{
  Tick, Probed, skipped, waiting, probed, try_probe, is_probing, observe_probe, monitor_ticks,
  run_monitor,
}

module _ (itoa : ℤ → String) (c : Config) (sh : Shell) (Q : Log → Type 0)
    (step : (path : ReturnPath) (log : Log)
      → Q log
      → Q (set_kharej_return_path itoa c path sh log).1) where
  observe_probe_keeps :
      (r : Controller) (ok : Bool) (log : Log) → Q log → Q (observe_probe itoa c sh r ok log).1
  unfolding observe_probe
  observe_probe_keeps r ok log q = go (observe r ok).2
    where
      go :
          (changed : Bool)
          → Q
              (if◌then◌else◌ {A = Controller × Log}
                (not changed)
                ((observe r ok).0, log)
                ((observe r ok).0, (set_kharej_return_path itoa c (observe r ok).1 sh log).1)).1
      go true = step (observe r ok).1 log q
      go false = q

  monitor_ticks_keeps :
      (r : Controller) (log : Log) (ticks : List Tick)
      → Q log
      → Q (monitor_ticks itoa c sh r log ticks).1
  unfolding monitor_ticks
  monitor_ticks_keeps r log [] q = q
  monitor_ticks_keeps r log (tick ∷ ticks) q =
      go (try_probe tick) refl (λ r log q. monitor_ticks_keeps r log ticks q)
    where
      go :
          (p : Probed)
          → try_probe tick ≡ p
          → ((r : Controller) (log : Log) → Q log → Q (monitor_ticks itoa c sh r log ticks).1)
          → Q (monitor_ticks itoa c sh r log (tick ∷ ticks)).1
      go skipped e later = rw (e, monitor_ticks) (later r log q)
      go waiting e later = rw (e, monitor_ticks) q
      go (probed ok) e later = rw (e, monitor_ticks) (later _ _ (observe_probe_keeps r ok log q))

  pub run_monitor_keeps :
      (listens : Bool) (log : Log) (ticks : List Tick)
      → Q log
      → Q (run_monitor itoa c sh listens log ticks).1
  unfolding run_monitor
  run_monitor_keeps listens log ticks q = go (not (is_probing "kharej" c) || not listens) refl
    where
      start : Controller
      start =
          new_controller (pos_part c.smart_return.fail_threshold)
            (pos_part c.smart_return.recover_threshold)

      go :
          (b : Bool)
          → not (is_probing "kharej" c) || not listens ≡ b
          → Q (run_monitor itoa c sh listens log ticks).1
      go true e = rw (e, run_monitor) q
      go false e =
          rw (e, run_monitor)
            (monitor_ticks_keeps start (set_kharej_return_path itoa c direct sh log).1 ticks
              (step direct log q))
