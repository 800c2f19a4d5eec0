-- ===== src/Main/Gone.antt =====
-- On a system that keeps its word, nothing that a run made is there when it has ended.
use hashshashin.Base.{
  ℕ, ◌≡◌, ◌≢◌, sym, ◌∙◌, subst, inl, inr, String, Bool, true, false, not, [], ◌∷◌, some,
  if◌then◌else◌, arith, Bool-cases, append-nil,
}
use hashshashin.Base.Int.{ℤ}
use hashshashin.Config.{Config, Library}
use hashshashin.Config.Accepted.{IsValid}
use hashshashin.Config.Load.{has_ports}
use hashshashin.Shell.{
  Script, Shell, Log, Command, refused, running, return, ◌>>◌, or_clean_up, deferring,
}
use hashshashin.Shell.Emits.{Emits, AllEntries, emits_deferring}
use hashshashin.Routing.{setup_tun, cleanup_routing}
use hashshashin.Routing.Setup.{setup_routing, clean}
use hashshashin.Routing.Policy.{setup_smart_return_policy}
use hashshashin.Routing.Firewall.{setup_carrier_firewall}
use hashshashin.Routing.Objects.{Object, made, planned, planned_all, InPlan, MakesNothing}
use hashshashin.Routing.Idle.{emits, clean-Emits, cleanup_routing-Emits}
use hashshashin.Routing.Plan.{
  idle-InPlan, setup_tun-InPlan, setup_routing-InPlan, setup_smart_return_policy-InPlan,
  setup_carrier_firewall-InPlan,
}
use hashshashin.Routing.Kernel.{Kernel, Drops, kept_gone}
use hashshashin.Routing.Cleared.{clean-Drops, cleanup_routing-Drops}
use hashshashin.Main.{Fate, serve, run_opened, run}
use hashshashin.Main.Outcome.{setup_tun-nothing, serve-InPlan}
use hashshashin.Main.Leaving.{
  Absent, Anything, others_gone, Leaves-Absent, Leaves-or_clean_up, Leaves-deferring, Finally,
  Finally-then,
}

module _ (w : Kernel) (c : Config) where
  open w use {holds}

  module _ (sh : Shell) where
    module _ (fuel : ℕ) where
      clean-Absent :
          (log : Log) → (clean fuel c sh log).0 ≢ running → Absent w c (clean fuel c sh log).1
      unfolding Absent Drops
      clean-Absent log ends o e = clean-Drops w sh c fuel o e log ends

      -- The cleanup of routing.go after a set-up that makes only what it removes.
      routing-Absent :
          (m : Script)
          → Emits (InPlan false c) m
          → (log : Log) → Absent w c log
          → (cleanup_routing fuel c sh (m sh log).1).0 ≢ running
          → Absent w c (cleanup_routing fuel c sh (m sh log).1).1
      unfolding Absent Drops Emits InPlan planned_all
      routing-Absent m emits log before ends o e = elim (Bool-cases (planned false c o)) [
        | inl mine ↦ cleanup_routing-Drops w sh c fuel o mine (m sh log).1 ends
        | inr other ↦
            let (xs, (same, all)) = emits sh log in
            kept_gone w sh (cleanup_routing fuel c) (m sh log).1 o
              (cleanup_routing-Emits MakesNothing (λ command h. h) fuel c)
              (subst (λ z. holds z o → ⊥) (sym same)
                ((others_gone w c) (InPlan false c) o
                  (λ command p made_it.
                    let yes : planned false c o ≡ true =
                      subst (λ x. planned_all false c x ≡ true) made_it p in
                    ground (arith, yes, other))
                  xs log all (before o e)))
      ]

      idle-Absent :
          (m : Script)
          → Emits MakesNothing m
          → (log : Log) → Absent w c log
          → Absent w c (m sh log).1
      unfolding Absent
      idle-Absent m nothing log before o e = kept_gone w sh m log o nothing (before o e)

      run_opened-Absent :
          (itoa : ℤ → String) (l : Library) (fate : Fate)
          → IsValid l c
          → Finally w c sh (Anything w c) (run_opened itoa l fuel c fate)
      unfolding run_opened Finally
      run_opened-Absent itoa l fate valid =
          let named = λ (e : has_ports c.ports ≡ true). (valid.serving e).addresses.3 in
          let device : Script = setup_tun itoa c in
          let routing : Script = or_clean_up (setup_routing itoa c) (cleanup_routing fuel c) in
          let policy : Script = or_clean_up (setup_smart_return_policy itoa c) (clean fuel c) in
          let firewall : Script = or_clean_up (setup_carrier_firewall itoa l c) (clean fuel c) in
          let service : Script = deferring (clean fuel c) (serve itoa l c fate) in
          Finally-then w c sh (Anything w c) (Absent w c) (clean fuel c)
            (device >> (routing >> (policy >> (firewall >> service))))
            (Leaves-Absent w c sh (Anything w c) (clean fuel c) (λ log i. clean-Absent log))
            (Finally-then w c sh (Absent w c) (Absent w c) device
              (routing >> (policy >> (firewall >> service)))
              (Leaves-Absent w c sh (Absent w c) device
                (λ log i ends. idle-Absent device (setup_tun-nothing itoa l c) log i))
              (Finally-then w c sh (Absent w c) (Anything w c) routing
                (policy >> (firewall >> service))
                (Leaves-or_clean_up w c sh (Absent w c) (setup_routing itoa c)
                  (cleanup_routing fuel c)
                  (routing-Absent (setup_routing itoa c)
                    (setup_routing-InPlan itoa false c valid.role named)))
                (Finally-then w c sh (Anything w c) (Anything w c) policy (firewall >> service)
                  (Leaves-or_clean_up w c sh (Anything w c) (setup_smart_return_policy itoa c)
                    (clean fuel c)
                    (λ log i. clean-Absent (setup_smart_return_policy itoa c sh log).1))
                  (Finally-then w c sh (Anything w c) (Anything w c) firewall service
                    (Leaves-or_clean_up w c sh (Anything w c) (setup_carrier_firewall itoa l c)
                      (clean fuel c)
                      (λ log i. clean-Absent (setup_carrier_firewall itoa l c sh log).1))
                    (λ log i.
                      Leaves-deferring w c sh (clean fuel c) (serve itoa l c fate) clean-Absent
                        log)))))

  -- What this command made is not there after these.
  abbrev pub IsGone : Log → Command → Type 0
  IsGone log command = (o : Object) → made command ≡ some o → holds log o → ⊥

  AllEntries-IsGone :
      (log xs : Log) → Absent w c log → AllEntries (InPlan true c) xs → AllEntries (IsGone log) xs
  unfolding Absent InPlan planned_all
  AllEntries-IsGone log [] absent all = tt
  AllEntries-IsGone log (x ∷ xs) absent (p, all) = (
    λ o m. absent o (subst (λ y. planned_all true c y ≡ true) m p),
    AllEntries-IsGone log xs absent all,
  )

module _ (itoa : ℤ → String) (l : Library) (c : Config) (valid : IsValid l c) where
  run_opened-InPlan :
      (fuel : ℕ) (fate : Fate) → Emits (InPlan true c) (run_opened itoa l fuel c fate)
  unfolding run_opened
  run_opened-InPlan fuel fate =
      let named = λ (e : has_ports c.ports ≡ true). (valid.serving e).addresses.3 in
      search
        (
          emits,
          emits_deferring,
          clean-Emits (InPlan true c) (idle-InPlan true c) fuel c,
          cleanup_routing-Emits (InPlan true c) (idle-InPlan true c) fuel c,
          setup_tun-InPlan itoa true c,
          setup_routing-InPlan itoa true c valid.role named,
          setup_smart_return_policy-InPlan itoa c,
          setup_carrier_firewall-InPlan itoa true c l,
          serve-InPlan itoa l c fate,
        )
        depth 20

  -- Where a run ends, no object that a command of it made is there.
  pub run-IsGone :
      (w : Kernel) (fuel : ℕ) (fate : Fate) (sh : Shell)
      → (run itoa l fuel c fate sh []).0 ≢ running
      → let final = (run itoa l fuel c fate sh []).1 in AllEntries (IsGone w c final) final
  unfolding run Emits Finally
  run-IsGone w fuel fate sh = go fate.tun_opens
    where
      go :
          (b : Bool)
          → let m = if not b then return refused else run_opened itoa l fuel c fate in
            (m sh []).0 ≢ running → AllEntries (IsGone w c (m sh []).1) (m sh []).1
      go false ends = tt
      go true ends =
          let m = run_opened itoa l fuel c fate in
          let (xs, (e, all)) = run_opened-InPlan fuel fate sh [] in
          AllEntries-IsGone w c (m sh []).1 (m sh []).1
            (run_opened-Absent w c sh fuel itoa l fate valid [] tt ends)
            (subst (λ z. AllEntries (InPlan true c) z) (sym (e ∙ append-nil xs)) all)
