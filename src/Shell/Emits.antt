-- ===== src/Shell/Emits.antt =====
-- What a script adds to the log: rules for the ways to build scripts.
use hashshashin.Base.{
  String, ◌≡◌, refl, ◌∙◌, ap, Bool, true, false, List, [], ◌∷◌, ◌++◌, append_assoc, sym,
  if◌then◌else◌,
}
use hashshashin.Shell.{
  Script, Shell, Log, Entry, Command, Status, ok, command_failed, refused, running, return,
  then_run, ◌>>◌, clean_up, or_clean_up, finish, deferring, log_entry, run_cmd, run_quiet, ipt,
  if_succeeds, iptables, Op, each,
}

abbrev pub AllEntries : (Command → Type 0) → Log → Type 0
AllEntries P [] = Unit
AllEntries P (e ∷ log) = P e.command × AllEntries P log

-- The log grew by commands with this property.
abbrev pub Grew : (Command → Type 0) → Log → Log → Type 0
Grew P log log' = (ext : Log) × ((log' ≡ ext ++ log) × AllEntries P ext)

unfoldable pub Emits : (Command → Type 0) → Script → Type 0
Emits P m = (sh : Shell) (log : Log) → Grew P log (m sh log).1

module _ (P : Command → Type 0) where
  pub AllEntries-append :
      (xs ys : Log) → AllEntries P xs → AllEntries P ys → AllEntries P (xs ++ ys)
  AllEntries-append [] ys p q = q
  AllEntries-append (x ∷ xs) ys (h, p) q = (h, AllEntries-append xs ys p q)

  pub Grew-nothing : (log : Log) → Grew P log log
  Grew-nothing log = ([], (refl, tt))

  pub Grew-one : (e : Entry) (log : Log) → P e.command → Grew P log (e ∷ log)
  Grew-one e log h = (e ∷ [], (refl, (h, tt)))

  pub Grew-twice : (a b c : Log) → Grew P a b → Grew P b c → Grew P a c
  Grew-twice a b c (xs, (e, p)) (ys, (f, q)) = (
    ys ++ xs,
    (f ∙ ap (λ z. ys ++ z) e ∙ sym (append_assoc ys xs a), AllEntries-append ys xs q p),
  )

  pub emits_return : (s : Status) → Emits P (return s)
  unfolding Emits
  emits_return s sh log = Grew-nothing log

  pub emits_cmd : (c : Command) → P c → Emits P (run_cmd c)
  unfolding Emits run_cmd
  emits_cmd c h sh log = Grew-one (log_entry c true sh log) log h

  pub emits_quiet : (c : Command) → P c → Emits P (run_quiet c)
  unfolding Emits run_quiet
  emits_quiet c h sh log = Grew-one (log_entry c false sh log) log h

  pub emits_ipt : (table : String) (op : Op) → P (iptables table op) → Emits P (ipt table op)
  unfolding Emits ipt
  emits_ipt table op h = emits_cmd (iptables table op) h

  pub emits_if :
      (b : Bool) (m k : Script)
      → (b ≡ true → Emits P m)
      → (b ≡ false → Emits P k)
      → Emits P (if b then m else k)
  unfolding Emits
  emits_if true m k p q = p refl
  emits_if false m k p q = q refl

  pub emits_if_succeeds :
      (c : Command) (m k : Script) → P c → Emits P m → Emits P k → Emits P (if_succeeds c m k)
  unfolding Emits if_succeeds
  emits_if_succeeds c m k h p q sh log = go (sh log c)
    where
      next : Log
      next = log_entry c false sh log ∷ log

      go : (b : Bool) → Grew P log (if b then m sh next else k sh next).1
      go true = Grew-twice log next _ (Grew-one _ log h) (p sh next)
      go false = Grew-twice log next _ (Grew-one _ log h) (q sh next)

  after_then :
      (k : Script) (sh : Shell) (log : Log) (s : Status) (log' : Log)
      → Emits P k
      → Grew P log log'
      → Grew P log (then_run k sh (s, log')).1
  unfolding Emits
  after_then k sh log ok log' q g = Grew-twice log log' _ g (q sh log')
  after_then k sh log (command_failed c) log' q g = g
  after_then k sh log refused log' q g = g
  after_then k sh log running log' q g = g

  pub emits_then : (m k : Script) → Emits P m → Emits P k → Emits P (m >> k)
  unfolding Emits
  emits_then m k p q sh log = let (s, log') = m sh log in after_then k sh log s log' q (p sh log)

  after_clean_up :
      (k : Script) (sh : Shell) (log : Log) (s : Status) (log' : Log)
      → Emits P k
      → Grew P log log'
      → Grew P log (clean_up k sh (s, log')).1
  unfolding Emits
  after_clean_up k sh log ok log' q g = g
  after_clean_up k sh log (command_failed c) log' q g = Grew-twice log log' _ g (q sh log')
  after_clean_up k sh log refused log' q g = Grew-twice log log' _ g (q sh log')
  after_clean_up k sh log running log' q g = g

  pub emits_or_clean_up : (m k : Script) → Emits P m → Emits P k → Emits P (or_clean_up m k)
  unfolding Emits
  emits_or_clean_up m k p q sh log =
      let (s, log') = m sh log in after_clean_up k sh log s log' q (p sh log)

  after_finish :
      (k : Script) (sh : Shell) (log : Log) (s : Status) (log' : Log)
      → Emits P k
      → Grew P log log'
      → Grew P log (finish k sh (s, log')).1
  unfolding Emits
  after_finish k sh log ok log' q g = Grew-twice log log' _ g (q sh log')
  after_finish k sh log (command_failed c) log' q g = Grew-twice log log' _ g (q sh log')
  after_finish k sh log refused log' q g = Grew-twice log log' _ g (q sh log')
  after_finish k sh log running log' q g = g

  pub emits_deferring : (k m : Script) → Emits P k → Emits P m → Emits P (deferring k m)
  unfolding Emits
  emits_deferring k m q p sh log =
      let (s, log') = m sh log in after_finish k sh log s log' q (p sh log)

  pub emits_each {ℓ} :
      {A : Type ℓ} (f : A → Script) (xs : List A) → ((x : A) → Emits P (f x)) → Emits P (each f xs)
  unfolding Emits each
  emits_each f [] h = emits_return ok
  emits_each f (x ∷ xs) h = emits_then (f x) (each f xs) (h x) (emits_each f xs h)
