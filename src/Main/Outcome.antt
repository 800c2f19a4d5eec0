-- ===== src/Main/Outcome.antt =====
-- The commands that a run owes to what it made.
use hashshashin.Base.{◌≡◌, String, true, false, arith}
use hashshashin.Base.Int.{ℤ}
use hashshashin.Config.{Config, Library}
use hashshashin.Shell.{Shell}
use hashshashin.Shell.Emits.{Emits}
use hashshashin.Routing.{setup_tun}
use hashshashin.Routing.Objects.{
  MakesNothing, Object, made, planned, InPlan, chain, rules_of, jump, rule, table, host_route,
}
use hashshashin.Routing.Idle.{emits}
use hashshashin.Routing.Plan.{set_kharej_return_path-InPlan}
use hashshashin.Probe.Keeps.{run_monitor_keeps}
use hashshashin.Shell.Emits.{Grew, Grew-twice, Grew-nothing}
use hashshashin.Main.{Fate, monitoring, serve}

module _ (itoa : ℤ → String) (l : Library) (c : Config) where
  pub setup_tun-nothing : Emits MakesNothing (setup_tun itoa c)
  unfolding setup_tun made
  setup_tun-nothing = search emits depth 16

  pub planned_policy : (o : Object) → planned false c o ≡ true → planned true c o ≡ true
  unfolding planned
  planned_policy (chain t n) h = h
  planned_policy (rules_of t n) h = h
  planned_policy (jump t hook n) h = h
  planned_policy (rule p) h = ground arith
  planned_policy (table t) h = ground arith
  planned_policy (host_route ip) h = h

  pub monitoring-InPlan : (fate : Fate) → Emits (InPlan true c) (monitoring itoa c fate)
  unfolding monitoring Emits
  monitoring-InPlan fate sh log =
      run_monitor_keeps itoa c sh (λ log'. Grew (InPlan true c) log log')
        (λ path log' grew.
          Grew-twice (InPlan true c) log log' _ grew
            (set_kharej_return_path-InPlan itoa c path sh log'))
        fate.listens log fate.ticks (Grew-nothing (InPlan true c) log)

  pub serve-InPlan : (fate : Fate) → Emits (InPlan true c) (serve itoa l c fate)
  unfolding serve
  serve-InPlan fate = search (emits, monitoring-InPlan fate) depth 10
