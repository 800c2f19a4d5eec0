-- ===== src/Probe/Monitor.antt =====
-- The commands of the monitor against the controller's decisions.
use hashshashin.Base.{
  ℕ, suc, ◌+◌, ◌≡◌, refl, sym, ap, subst, ◌⊎◌, inl, inr, String, Bool, true, false, List, [], ◌∷◌,
  some, arith, length, if◌then◌else◌,
}
use hashshashin.Base.Int.{ℤ, pos_part}
use hashshashin.ReturnPath.{
  ReturnPath, direct, tunnel, other, Controller, new_controller, observe, observe_all,
}
use hashshashin.Config.{Config}
use hashshashin.Shell.{Shell, Log, Command, run_quiet, run_cmd, route_flush, route_replace_in}
use hashshashin.Routing.Policy.{return_table, is_switching, tunnel_route, set_kharej_return_path}
use hashshashin.Probe.{
  Tick, Probed, skipped, waiting, probed, try_probe, is_probing, observe_probe, monitor_ticks,
  run_monitor,
}

-- The results that the controller is given.
unfoldable pub results : List Tick → List Bool
results [] = []
results (tick ∷ ticks) = elim (try_probe tick) [
  | skipped ↦ results ticks
  | waiting ↦ []
  | probed ok ↦ ok ∷ results ticks
]

-- An announced change is to one of the two paths, and is the new state's path.
observe-cases :
    (r : Controller) (ok : Bool)
    → let (r', path, changed) = observe r ok in
      ((changed ≡ false) × (r'.path ≡ r.path))
      ⊎ ((changed ≡ true) × (r'.path ≡ path) × ((path ≡ direct) ⊎ (path ≡ tunnel)))
unfolding observe
observe-cases r true = ground arith
observe-cases r false = ground arith

module _ (itoa : ℤ → String) (c : Config) where
  switching-is_probing : is_probing "kharej" c ≡ true → is_switching c ≡ true
  unfolding is_probing
  switching-is_probing on = ground arith

  -- The command that sets a path.
  abbrev pub Sets : ReturnPath → Command → Type 0
  Sets direct command = command ≡ route_flush return_table
  Sets tunnel command = command ≡ route_replace_in return_table (tunnel_route itoa c)
  Sets (other path) command = ⊥

  -- The newest command is the one for this path.
  unfoldable pub IsNewest : ReturnPath → Log → Type 0
  IsNewest path [] = ⊥
  IsNewest path (e ∷ log) = Sets path e.command

  -- One more command, for this path.
  abbrev Gained : ReturnPath → Log → Log → Type 0
  Gained path log log' = IsNewest path log' × (length log' ≡ suc (length log))

  module _ (sh : Shell) where
    set_kharej_return_path-Gained :
        (path : ReturnPath) (log : Log)
        → is_switching c ≡ true
        → (path ≡ direct) ⊎ (path ≡ tunnel)
        → Gained path log (set_kharej_return_path itoa c path sh log).1
    unfolding set_kharej_return_path run_quiet run_cmd IsNewest
    set_kharej_return_path-Gained direct log on known = rw (on, set_kharej_return_path) (refl, refl)
    set_kharej_return_path-Gained tunnel log on known = rw (on, set_kharej_return_path) (refl, refl)
    set_kharej_return_path-Gained (other path) log on known = absurd (ground (arith, known))

    -- The controller's number of switches matches the commands.
    abbrev bump : ℕ → Bool → ℕ
    bump k changed = if changed then suc k else k

    observe_probe-IsNewest :
        (r : Controller) (ok : Bool) (log : Log) (k : ℕ)
        → is_switching c ≡ true
        → IsNewest r.path log
        → let (r', path, changed) = observe r ok in
          let (r'', log') = observe_probe itoa c sh r ok log in
          (r'' ≡ r') × IsNewest r'.path log' × (length log' + k ≡ length log + bump k changed)
    unfolding observe_probe
    observe_probe-IsNewest r ok log k on newest = elim (observe-cases r ok) [
      | inl (same, kept) ↦
          rw (same, observe_probe) (refl, subst (λ p. IsNewest p log) (sym kept) newest, refl)
      | inr (switched, new, known) ↦
          let (set, more) = set_kharej_return_path-Gained (observe r ok).1 log on known in
          rw (switched, observe_probe)
            (
              refl,
              subst (λ p. IsNewest p (set_kharej_return_path itoa c (observe r ok).1 sh log).1)
                  (sym new) set,
              omega (arith, more),
            )
    ]

    -- The controller is the history's, and each switch is one command.
    unfoldable pub Tracks : Controller → Log → ℕ → List Tick → Type 0
    Tracks r log k ticks =
        let (r', log') = monitor_ticks itoa c sh r log ticks in
        let (r'', switches) = observe_all r k (results ticks) in
        (r' ≡ r'') × IsNewest r'.path log' × (length log' + k ≡ length log + switches)

    monitor_ticks-Tracks :
        (r : Controller) (log : Log) (k : ℕ) (ticks : List Tick)
        → is_switching c ≡ true
        → IsNewest r.path log
        → Tracks r log k ticks
    unfolding Tracks monitor_ticks results observe_all
    monitor_ticks-Tracks r log k [] on newest = (refl, newest, refl)
    monitor_ticks-Tracks r log k (tick ∷ ticks) on newest =
        go (try_probe tick) refl (λ r log k n. monitor_ticks-Tracks r log k ticks on n)
      where
        go :
            (p : Probed)
            → try_probe tick ≡ p
            → ((r : Controller) (log : Log) (k : ℕ) → IsNewest r.path log → Tracks r log k ticks)
            → Tracks r log k (tick ∷ ticks)
        go skipped e later = rw (e, monitor_ticks, results) (later r log k newest)
        go waiting e later = rw (e, monitor_ticks, results) (refl, newest, refl)
        go (probed ok) e later =
            let (same, set, more) = observe_probe-IsNewest r ok log k on newest in
            let r' = (observe r ok).0 in
            let log' = (observe_probe itoa c sh r ok log).1 in
            let (end, last, count) = later r' log' (bump k (observe r ok).2) set in
            rw (e, monitor_ticks, results, same) (end, last, omega (arith, count, more))

    -- A monitor that starts holds the controller that the results of its probes lead to, the newest
    -- command is the one for that controller's path, and since the start one command was run for
    -- the first path and one for each switch: however commands fail, none is tried again.
    pub run_monitor-Tracks :
        (ticks : List Tick) (log : Log)
        → is_probing "kharej" c ≡ true
        → let (r', switches) =
            observe_all
              (new_controller
                (pos_part c.smart_return.fail_threshold)
                (pos_part c.smart_return.recover_threshold))
              0
              (results ticks) in
          let (ended, log') = run_monitor itoa c sh true log ticks in
          (ended ≡ some r') × IsNewest r'.path log' × (length log' ≡ length log + 1 + switches)
    unfolding run_monitor Tracks new_controller
    run_monitor-Tracks ticks log on =
        let start =
          new_controller (pos_part c.smart_return.fail_threshold)
            (pos_part c.smart_return.recover_threshold) in
        let switching = switching-is_probing on in
        let first = (set_kharej_return_path itoa c direct sh log).1 in
        let (set, more) = set_kharej_return_path-Gained direct log switching (inl refl) in
        let (same, newest, count) = monitor_ticks-Tracks start first 0 ticks switching set in
        rw (on, run_monitor)
          (
            ap (λ r. some r) same,
            subst (λ r. IsNewest r.path (monitor_ticks itoa c sh start first ticks).1) same newest,
            omega (arith, count, more),
          )
