-- ===== src/Routing/Ending.antt =====
-- The loop of `deleteChain` ends, on a system where a deleted jump is gone.
use hashshashin.Base.{
  ℕ, zero, suc, ◌+◌, ◌≤◌, ◌<◌, ◌≡◌, ◌≢◌, refl, sym, ap, subst, ◌∙◌, String, str_eq, ◌&&◌, Bool,
  true, false, not, List, [], ◌∷◌, ◌++◌, none, if◌then◌else◌, arith, ltb, ltb→lt, dec_lt,
}
use hashshashin.Config.{Config}
use hashshashin.Shell.{
  Script, Shell, Log, Entry, Command, Status, ok, command_failed, refused, running, return, ◌>>◌,
  then_run, log_entry, run_quiet, if_succeeds, each, delete_jumps, delete_chain_of, iptables,
  check_jump, delete_jump, insert_jump, flush_chain, delete_chain,
}
use hashshashin.Shell.Emits.{Emits, AllEntries, emits_each}
use hashshashin.Routing.{
  Hook, all_hooks, iran_hooks, kharej_hooks, delete_hook, cleanup_rules, cleanup_routing,
}
use hashshashin.Routing.Setup.{clean}
use hashshashin.Routing.Policy.{cleanup_smart_return_policy}
use hashshashin.Routing.Objects.{made, MakesNothing}
use hashshashin.Routing.Idle.{emits, delete_hook-Emits, cleanup_smart_return_policy-Emits}

-- What iptables(8) says of jumps: -C finds one if there is one, -D succeeds then and takes one away, and nothing but -I
-- adds one, and no more than one. `jumps` counts those from a hook of a table to a chain, after the commands of a log.
pub record Firewall (sh : Shell) : Type 0 where
  pub jumps : Log → Hook → ℕ
  pub check_law :
      (log : Log) (t h n : String)
      → sh log (iptables t (check_jump h n)) ≡ ltb 0 (jumps log (t, h, n))
  pub delete_works :
      (log : Log) (t h n : String)
      → 0 < jumps log (t, h, n)
      → sh log (iptables t (delete_jump h n)) ≡ true
  pub delete_law :
      (log : Log) (t h n : String) (e : Entry)
      → e.command ≡ iptables t (delete_jump h n)
      → e.succeeded ≡ true
      → 0 < jumps log (t, h, n)
      → jumps (e ∷ log) (t, h, n) < jumps log (t, h, n)
  pub others_law :
      (log : Log) (t h n : String) (e : Entry)
      → e.command ≢ iptables t (insert_jump h n)
      → jumps (e ∷ log) (t, h, n) ≤ jumps log (t, h, n)
  pub insert_law :
      (log : Log) (t h n : String) (e : Entry) → jumps (e ∷ log) (t, h, n) ≤ jumps log (t, h, n) + 1

-- Every jump that a set-up of either node inserts.
abbrev pub set_up_hooks : List Hook
set_up_hooks = iran_hooks ++ kharej_hooks

module _ (sh : Shell) (w : Firewall sh) where
  open w use {jumps, check_law, delete_works, delete_law, others_law}

  not_insert : (c : Command) (t h n : String) → made c ≡ none → c ≢ iptables t (insert_jump h n)
  unfolding made
  not_insert c t h n idle e = ground (arith, ap made e)

  idle_grown :
      (xs log : Log) (h : Hook) → AllEntries MakesNothing xs → jumps (xs ++ log) h ≤ jumps log h
  idle_grown [] log h all = omega arith
  idle_grown (x ∷ xs) log (t, h, n) (idle, all) = omega (
    arith,
    others_law (xs ++ log) t h n x (not_insert x.command t h n idle),
    idle_grown xs log (t, h, n) all,
  )

  -- A script that makes nothing adds no jump.
  kept :
      (m : Script) (log : Log) (h : Hook)
      → Emits MakesNothing m
      → jumps (m sh log).1 h ≤ jumps log h
  unfolding Emits
  kept m log h emits =
      let (xs, (e, all)) = emits sh log in
      subst (λ z. jumps z h ≤ jumps log h) (sym e) (idle_grown xs log h all)

  delete_jumps-ok :
      (fuel : ℕ) (log : Log) (t h n : String)
      → jumps log (t, h, n) < fuel
      → ((delete_jumps fuel t h n sh log).0 ≡ ok)
        × (jumps (delete_jumps fuel t h n sh log).1 (t, h, n) ≡ 0)
  unfolding delete_jumps if_succeeds run_quiet made
  delete_jumps-ok zero log t h n below = absurd (omega arith)
  delete_jumps-ok (suc fuel) log t h n below =
      go (sh log look) refl
        (λ e. delete_jumps-ok fuel (log_entry deletion false sh found ∷ found) t h n (fewer e))
    where
      look : Command
      look = iptables t (check_jump h n)

      deletion : Command
      deletion = iptables t (delete_jump h n)

      found : Log
      found = log_entry look false sh log ∷ log

      same : jumps found (t, h, n) ≤ jumps log (t, h, n)
      same = others_law log t h n (log_entry look false sh log) (not_insert look t h n refl)

      fewer :
          sh log look ≡ true → jumps (log_entry deletion false sh found ∷ found) (t, h, n) < fuel
      fewer e = elim (dec_lt 0 (jumps found (t, h, n))) [
        | yes more ↦ omega (
          arith,
          same,
          delete_law found t h n (log_entry deletion false sh found) refl
              (delete_works found t h n more) more,
        )
        | no gone ↦ omega (
          arith,
          below,
          ltb→lt 0 (jumps log (t, h, n)) (sym (check_law log t h n) ∙ e),
          others_law found t h n (log_entry deletion false sh found)
              (not_insert deletion t h n refl),
        )
      ]

      go :
          (b : Bool)
          → sh log look ≡ b
          → (b ≡ true
              → ((delete_jumps fuel t h n sh (log_entry deletion false sh found ∷ found)).0 ≡ ok)
                × (jumps
                      (delete_jumps fuel t h n sh (log_entry deletion false sh found ∷ found)).1
                      (t, h, n)
                    ≡ 0))
          → ((if b then (run_quiet deletion >> delete_jumps fuel t h n) sh found else (ok, found)).0
              ≡ ok)
            × (jumps
                  (if b
                    then (run_quiet deletion >> delete_jumps fuel t h n) sh found
                    else (ok, found)).1
                  (t, h, n)
                ≡ 0)
      go true e again = again refl
      go false e again = (refl, ground (arith, same, check_law log t h n))

  then_ok : (m k : Script) (log : Log) → (m sh log).0 ≡ ok → (m >> k) sh log ≡ k sh (m sh log).1
  then_ok m k log e = let (s, log') = m sh log in go s log' e
    where
      go : (s : Status) (log' : Log) → s ≡ ok → then_run k sh (s, log') ≡ k sh log'
      go ok log' e = refl
      go (command_failed c) log' e = cc
      go refused log' e = cc
      go running log' e = cc

  delete_hook-ok :
      (fuel : ℕ) (log : Log) (hook : Hook)
      → jumps log hook < fuel
      → ((delete_hook fuel hook sh log).0 ≡ ok) × (jumps (delete_hook fuel hook sh log).1 hook ≡ 0)
  unfolding delete_chain_of run_quiet made
  delete_hook-ok fuel log (t, h, n) below =
      let (ends, gone) = delete_jumps-ok fuel log t h n below in
      let log1 = (delete_jumps fuel t h n sh log).1 in
      let flush = log_entry (iptables t (flush_chain n)) false sh log1 in
      let delete = log_entry (iptables t (delete_chain n)) false sh (flush ∷ log1) in
      rw
        (then_ok (delete_jumps fuel t h n)
          (run_quiet (iptables t (flush_chain n)) >> run_quiet (iptables t (delete_chain n))) log
          ends)
        (
          refl,
          omega (arith, gone, idle_grown (delete ∷ flush ∷ []) log1 (t, h, n) (refl, (refl, tt))),
        )

  -- Fewer jumps than the fuel, for each hook; and none.
  unfoldable pub Below : ℕ → List Hook → Log → Type 0
  Below fuel [] log = Unit
  Below fuel (h ∷ hooks) log = (jumps log h < fuel) × Below fuel hooks log

  unfoldable pub NoJumps : List Hook → Log → Type 0
  NoJumps [] log = Unit
  NoJumps (h ∷ hooks) log = (jumps log h ≡ 0) × NoJumps hooks log

  Below-kept :
      (fuel : ℕ) (hooks : List Hook) (m : Script) (log : Log)
      → Emits MakesNothing m
      → Below fuel hooks log
      → Below fuel hooks (m sh log).1
  unfolding Below
  Below-kept fuel [] m log emits below = tt
  Below-kept fuel (h ∷ hooks) m log emits (first, below) =
      (omega (arith, kept m log h emits), Below-kept fuel hooks m log emits below)

  NoJumps-kept :
      (hooks : List Hook) (m : Script) (log : Log)
      → Emits MakesNothing m
      → NoJumps hooks log
      → NoJumps hooks (m sh log).1
  unfolding NoJumps
  NoJumps-kept [] m log emits below = tt
  NoJumps-kept (h ∷ hooks) m log emits (first, below) =
      (omega (arith, kept m log h emits), NoJumps-kept hooks m log emits below)

  idle : (command : Command) → made command ≡ none → MakesNothing command
  idle command h = h

  hooks-ok :
      (fuel : ℕ) (hooks : List Hook) (log : Log)
      → Below fuel hooks log
      → ((each (delete_hook fuel) hooks sh log).0 ≡ ok)
        × NoJumps hooks (each (delete_hook fuel) hooks sh log).1
  unfolding each Below NoJumps
  hooks-ok fuel [] log below = (refl, tt)
  hooks-ok fuel (h ∷ hooks) log (first, below) =
      let (ends, gone) = delete_hook-ok fuel log h first in
      let emits = delete_hook-Emits MakesNothing idle fuel h in
      let log1 = (delete_hook fuel h sh log).1 in
      let (all, none_left) =
        hooks-ok fuel hooks log1 (Below-kept fuel hooks (delete_hook fuel h) log emits below) in
      let rest =
        emits_each MakesNothing (delete_hook fuel) hooks
          (delete_hook-Emits MakesNothing idle fuel) in
      rw (then_ok (delete_hook fuel h) (each (delete_hook fuel) hooks) log ends)
        (all, (omega (arith, gone, kept (each (delete_hook fuel) hooks) log1 h rest), none_left))

  quiet_last :
      (b : Bool) (command : Command) (log : Log)
      → ((if b then run_quiet command else return ok) sh log).0 ≡ ok
  unfolding run_quiet
  quiet_last true command log = refl
  quiet_last false command log = refl

  policy_ok : (log : Log) → (cleanup_smart_return_policy sh log).0 ≡ ok
  unfolding cleanup_smart_return_policy run_quiet
  policy_ok log = refl

  cleanup_rules-ok : (c : Config) (log : Log) → (cleanup_rules c sh log).0 ≡ ok
  unfolding cleanup_rules run_quiet
  cleanup_rules-ok c log =
      quiet_last (str_eq c.role "kharej" && not (str_eq c.network.iran_public_ip "")) _ _

  cleanup_rules-idle : (c : Config) → Emits MakesNothing (cleanup_rules c)
  unfolding cleanup_rules made
  cleanup_rules-idle c = search emits depth 12

  pub cleanup_routing-ok :
      (c : Config) (fuel : ℕ) (log : Log)
      → Below fuel all_hooks log
      → ((cleanup_routing fuel c sh log).0 ≡ ok)
        × NoJumps all_hooks (cleanup_routing fuel c sh log).1
  unfolding cleanup_routing
  cleanup_routing-ok c fuel log below =
      let (ends, gone) = hooks-ok fuel all_hooks log below in
      let log1 = (each (delete_hook fuel) all_hooks sh log).1 in
      rw (then_ok (each (delete_hook fuel) all_hooks) (cleanup_rules c) log ends) (
        cleanup_rules-ok c log1,
        NoJumps-kept all_hooks (cleanup_rules c) log1 (cleanup_rules-idle c) gone,
      )

  -- The cleanups leave no jump from a hook of their list.
  pub clean-all :
      (c : Config) (fuel : ℕ) (log : Log)
      → Below fuel all_hooks log
      → ((clean fuel c sh log).0 ≡ ok) × NoJumps all_hooks (clean fuel c sh log).1
  unfolding clean
  clean-all c fuel log below =
      let policy = cleanup_smart_return_policy in
      rw (then_ok policy (cleanup_routing fuel c) log (policy_ok log)) (
        cleanup_routing-ok c fuel (policy sh log).1 (
          Below-kept fuel all_hooks policy log (cleanup_smart_return_policy-Emits MakesNothing idle)
            below))

  NoJumps-set_up : (log : Log) → NoJumps all_hooks log → NoJumps set_up_hooks log
  unfolding NoJumps
  NoJumps-set_up log none_left = ground arith

  -- On a system where -C finds a jump just if one is there, -D then takes one away and only -I adds any,
  -- one at a time: if the jumps from each hook of the program's own are fewer than the fuel, the cleanups
  -- end without an error, and no jump to the chains that the set-ups of the two nodes hook in is left.
  pub clean-ok :
      (c : Config) (fuel : ℕ) (log : Log)
      → Below fuel all_hooks log
      → ((clean fuel c sh log).0 ≡ ok) × NoJumps set_up_hooks (clean fuel c sh log).1
  clean-ok c fuel log below =
      let (ends, gone) = clean-all c fuel log below in
      (ends, NoJumps-set_up (clean fuel c sh log).1 gone)
