-- ===== src/Routing/Bounded.antt =====
-- The set-ups never loop, and leave one jump at most from each hook of the program's own.
use hashshashin.Base.{
  ◌⊎◌, inl, inr, Bool-cases, ℕ, ◌≤◌, ◌<◌, ◌≡◌, ◌≢◌, refl, sym, ap, ◌∙◌, String, str_eq, ◌&&◌, Bool,
  true, false, List, [], ◌∷◌, Option, none, some, if◌then◌else◌, arith, ltb,
}
use text.Mathlib.TextEquality.{eq_iff}
use hashshashin.Shell.{
  Script, Shell, Log, Entry, Command, Status, ok, command_failed, refused, running, return, ◌>>◌,
  then_run, log_entry, run_cmd, run_quiet, ipt, if_succeeds, each, iptables, Op, or_clean_up,
  clean_up, and_after, reset_chain, new_chain, flush_chain, check_jump, insert_jump,
}
use hashshashin.Routing.{Hook, all_hooks}
use hashshashin.Routing.Objects.{Object, chain, rules_of, jump, rule, table, host_route, made}
use hashshashin.Routing.Ending.{Firewall, Below}

adds_jump : Option Object → Bool
adds_jump none = false
adds_jump (some (chain t n)) = false
adds_jump (some (rules_of t n)) = false
adds_jump (some (jump t h n)) = true
adds_jump (some (rule p)) = false
adds_jump (some (table t)) = false
adds_jump (some (host_route ip)) = false

-- Not the insertion of a jump.
unfoldable pub IsPlain : Command → Type 0
unfolding made adds_jump
IsPlain c = adds_jump (made c) ≡ false

IsPlain-differs : (c : Command) (t h n : String) → IsPlain c → c ≢ iptables t (insert_jump h n)
unfolding IsPlain
IsPlain-differs c t h n plain e = ground (arith, ap (λ c. adds_jump (made c)) e, plain)

insert_differs :
    (t h n t' h' n' : String)
    → str_eq t t' && (str_eq h h' && str_eq n n') ≡ false
    → iptables t (insert_jump h n) ≢ iptables t' (insert_jump h' n')
insert_differs t h n t' h' n' miss e =
    ground (arith, miss, e, eq_iff t t', eq_iff h h', eq_iff n n')

pub and_after-ends : (s s' : Status) → s ≢ running → s' ≢ running → and_after s s' ≢ running
and_after-ends s ok p q = p
and_after-ends s (command_failed c) p q = p
and_after-ends s refused p q = p
and_after-ends s running p q = λ e. q refl

ltb→le : (k : ℕ) → ltb 0 k ≡ false → k ≤ 0
ltb→le k e = ground arith

module _ (sh : Shell) (w : Firewall sh) where
  open w use {jumps, check_law, others_law, insert_law}

  unfoldable pub Low : Log → Type 0
  Low log = Below sh w 2 all_hooks log

  -- From few jumps it goes to few jumps, and ends.
  unfoldable pub Stays : Script → Type 0
  Stays m = (log : Log) → Low log → ((m sh log).0 ≢ running) × Low (m sh log).1

  plain-Below :
      (hooks : List Hook) (e : Entry) (log : Log)
      → IsPlain e.command
      → Below sh w 2 hooks log
      → Below sh w 2 hooks (e ∷ log)
  unfolding Below
  plain-Below [] e log plain below = tt
  plain-Below ((t, h, n) ∷ hooks) e log plain (first, below) = (
    omega (arith, others_law log t h n e (IsPlain-differs e.command t h n plain)),
    plain-Below hooks e log plain below,
  )

  -- The insertion of a jump that is not there.
  insert-Below :
      (hooks : List Hook) (t h n : String) (e : Entry) (log : Log)
      → e.command ≡ iptables t (insert_jump h n)
      → jumps log (t, h, n) ≡ 0
      → Below sh w 2 hooks log
      → Below sh w 2 hooks (e ∷ log)
  unfolding Below
  insert-Below [] t h n e log c gone below = tt
  insert-Below ((t', h', n') ∷ hooks) t h n e log c gone (first, below) = (
    one (Bool-cases (str_eq t t' && (str_eq h h' && str_eq n n'))),
    insert-Below hooks t h n e log c gone below,
  )
    where
      one :
          (str_eq t t' && (str_eq h h' && str_eq n n') ≡ true)
            ⊎ (str_eq t t' && (str_eq h h' && str_eq n n') ≡ false)
          → jumps (e ∷ log) (t', h', n') < 2
      one (inl hit) =
          let there : jumps log (t', h', n') ≡ 0 =
            ground (arith, gone, hit, eq_iff t t', eq_iff h h', eq_iff n n') in
          omega (arith, there, insert_law log t' h' n' e)
      one (inr miss) = omega (
        arith,
        first,
        others_law log t' h' n' e (λ d. insert_differs t h n t' h' n' miss (sym c ∙ d)),
      )

  pub Stays-return : (s : Status) → s ≢ running → Stays (return s)
  unfolding Stays
  Stays-return s ends log low = (ends, low)

  pub Stays-ok : Stays (return ok)
  Stays-ok = Stays-return ok (λ e. cc)

  pub Stays-refused : Stays (return refused)
  Stays-refused = Stays-return refused (λ e. cc)

  pub Stays-quiet : (c : Command) → IsPlain c → Stays (run_quiet c)
  unfolding Stays Low run_quiet
  Stays-quiet c plain log low =
      (λ e. cc, plain-Below all_hooks (log_entry c false sh log) log plain low)

  pub Stays-cmd : (c : Command) → IsPlain c → Stays (run_cmd c)
  unfolding Stays Low run_cmd
  Stays-cmd c plain log low =
      (go (sh log c), plain-Below all_hooks (log_entry c true sh log) log plain low)
    where
      go : (b : Bool) → (if b then ok else command_failed c) ≢ running
      go true e = cc
      go false e = cc

  pub Stays-ipt : (t : String) (op : Op) → IsPlain (iptables t op) → Stays (ipt t op)
  unfolding ipt
  Stays-ipt t op plain = Stays-cmd (iptables t op) plain

  pub Stays-if :
      (b : Bool) (m k : Script)
      → (b ≡ true → Stays m)
      → (b ≡ false → Stays k)
      → Stays (if b then m else k)
  unfolding Stays
  Stays-if true m k p q = p refl
  Stays-if false m k p q = q refl

  pub Stays-if_succeeds :
      (c : Command) (m k : Script) → IsPlain c → Stays m → Stays k → Stays (if_succeeds c m k)
  unfolding Stays Low if_succeeds
  Stays-if_succeeds c m k plain p q log low =
      let next = log_entry c false sh log ∷ log in
      let low' = plain-Below all_hooks (log_entry c false sh log) log plain low in
      go (sh log c) next low'
    where
      go :
          (b : Bool) (next : Log)
          → Low next
          → ((if b then m sh next else k sh next).0 ≢ running)
            × Low (if b then m sh next else k sh next).1
      go true next low' = p next low'
      go false next low' = q next low'

  -- From a first script that went well from this log.
  pub Stays-after :
      (m k : Script) (log : Log)
      → Stays k
      → ((m sh log).0 ≢ running) × Low (m sh log).1
      → (((m >> k) sh log).0 ≢ running) × Low ((m >> k) sh log).1
  unfolding Stays
  Stays-after m k log q h = let (s, log') = m sh log in go s log' h
    where
      go :
          (s : Status) (log' : Log)
          → (s ≢ running) × Low log'
          → ((then_run k sh (s, log')).0 ≢ running) × Low (then_run k sh (s, log')).1
      go ok log' h = q log' h.1
      go (command_failed c) log' h = h
      go refused log' h = h
      go running log' h = h

  pub Stays-then : (m k : Script) → Stays m → Stays k → Stays (m >> k)
  unfolding Stays
  Stays-then m k p q log low = Stays-after m k log q (p log low)

  pub Stays-or_clean_up : (m k : Script) → Stays m → Stays k → Stays (or_clean_up m k)
  unfolding Stays
  Stays-or_clean_up m k p q log low = let (s, log') = m sh log in go s log' (p log low)
    where
      go :
          (s : Status) (log' : Log)
          → (s ≢ running) × Low log'
          → ((clean_up k sh (s, log')).0 ≢ running) × Low (clean_up k sh (s, log')).1
      go ok log' h = h
      go (command_failed c) log' h =
          (and_after-ends (command_failed c) (k sh log').0 h.0 (q log' h.1).0, (q log' h.1).1)
      go refused log' h = (and_after-ends refused (k sh log').0 h.0 (q log' h.1).0, (q log' h.1).1)
      go running log' h = h

  pub Stays-each {ℓ} :
      {A : Type ℓ} (f : A → Script) (xs : List A) → ((x : A) → Stays (f x)) → Stays (each f xs)
  unfolding each
  Stays-each f [] h = Stays-ok
  Stays-each f (x ∷ xs) h = Stays-then (f x) (each f xs) (h x) (Stays-each f xs h)

  pub Stays-jump :
      (t h n : String)
      → Stays (if_succeeds (iptables t (check_jump h n)) (return ok) (ipt t (insert_jump h n)))
  unfolding Stays Low if_succeeds ipt run_cmd IsPlain
  Stays-jump t h n log low = go (sh log look) refl
    where
      look : Command
      look = iptables t (check_jump h n)

      next : Log
      next = log_entry look false sh log ∷ log

      low_next : Low next
      low_next = plain-Below all_hooks (log_entry look false sh log) log refl low

      added : Entry
      added = log_entry (iptables t (insert_jump h n)) true sh next

      gone : sh log look ≡ false → jumps next (t, h, n) ≡ 0
      gone e = omega (
        arith,
        ltb→le (jumps log (t, h, n)) (sym (check_law log t h n) ∙ e),
        others_law log t h n (log_entry look false sh log) (IsPlain-differs look t h n refl),
      )

      ended :
          (b : Bool) → (if b then ok else command_failed (iptables t (insert_jump h n))) ≢ running
      ended true e = cc
      ended false e = cc

      go :
          (b : Bool)
          → sh log look ≡ b
          → ((if b then return ok sh next else ipt t (insert_jump h n) sh next).0 ≢ running)
            × Low (if b then return ok sh next else ipt t (insert_jump h n) sh next).1
      go true e = (λ x. cc, low_next)
      go false e = (
        ended (sh next (iptables t (insert_jump h n))),
        insert-Below all_hooks t h n added next refl (gone e) low_next,
      )

  pub Stays-reset : (t h n : String) → Stays (reset_chain t h n)
  unfolding reset_chain IsPlain
  Stays-reset t h n =
      Stays-then (run_quiet (iptables t (new_chain n))) _
        (Stays-quiet (iptables t (new_chain n)) refl)
        (Stays-then (ipt t (flush_chain n)) _ (Stays-ipt t (flush_chain n) refl) (Stays-jump t h n))

pub ruleset stays = (
  Stays-ok, Stays-refused, Stays-cmd, Stays-quiet, Stays-ipt, Stays-if, Stays-if_succeeds,
  Stays-then, Stays-or_clean_up, Stays-each, Stays-reset, Stays-jump,
)
