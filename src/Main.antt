-- ===== src/Main.antt =====
-- main.go, `run`: the order in which a node is set up and taken down again.
pub mod Undone
pub mod Settled
pub mod Outcome
pub mod Leaving
pub mod Gone
pub mod Program
pub mod Guarded
pub mod Ending
mod Tests
use hashshashin.Base.{ℕ, String, Bool, true, false, not, List, [], ◌∷◌, if◌then◌else◌}
use hashshashin.Base.Int.{ℤ}
use hashshashin.Config.{Config, Library}
use hashshashin.Probe.{Tick, run_monitor}
use hashshashin.Shell.{
  Script, Status, ok, command_failed, refused, running, return, ◌>>◌, or_clean_up, deferring, each,
}
use hashshashin.Routing.{setup_tun, cleanup_routing}
use hashshashin.Routing.Setup.{setup_routing, clean}
use hashshashin.Routing.Policy.{setup_smart_return_policy, set_kharej_return_path}
use hashshashin.Routing.Firewall.{setup_carrier_firewall}

-- What the kernel and the network decide of a run: whether the TUN device, the carrier and the probe
-- monitor's socket open, what its probes meet while the node serves, and how that ends: ok for a signal, an error
-- for one of a queue's.
pub record Fate : Type 0 where
  pub tun_opens : Bool
  pub carrier_opens : Bool
  pub listens : Bool
  pub ticks : List Tick
  pub outcome : Status

-- The commands of the goroutine that runs the monitor; no other runs any.
unfoldable pub monitoring : (ℤ → String) → Config → Fate → Script
monitoring itoa c fate sh log = (ok, (run_monitor itoa c sh fate.listens log fate.ticks).1)

module _ (itoa : ℤ → String) (l : Library) where
  unfoldable pub serve : Config → Fate → Script
  unfolding monitoring
  serve c fate =
      if not fate.carrier_opens
      then return refused
      else (monitoring itoa c fate >> return fate.outcome)

  -- From the opened device on. `fuel` bounds the rounds of each loop of deleteChain.
  unfoldable pub run_opened : ℕ → Config → Fate → Script
  run_opened fuel c fate = do
    clean fuel c
    setup_tun itoa c
    or_clean_up (setup_routing itoa c) (cleanup_routing fuel c)
    or_clean_up (setup_smart_return_policy itoa c) (clean fuel c)
    or_clean_up (setup_carrier_firewall itoa l c) (clean fuel c)
    deferring (clean fuel c) (serve c fate)

  unfoldable pub run : ℕ → Config → Fate → Script
  unfolding run_opened serve
  run fuel c fate = if not fate.tun_opens then return refused else run_opened fuel c fate
