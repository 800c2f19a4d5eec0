-- ===== src/Shell.antt =====
-- routing.go, `runCmd`, `runQuiet`, `ipt`, `resetChain` and `deleteChain`: the commands that the program
-- has the system run. Whether a command succeeds is up to the system: a function of the commands run
-- before it, of any kind.
pub mod Emits
use Prim.Native.String
use hashshashin.Base.{
  ℕ, zero, suc, String, Bool, true, false, not, List, [], ◌∷◌, ◌++◌, ◌&&◌, if◌then◌else◌,
}

-- The commands, each by its options; `argv` is the command line.
pub data Op : Type 0 where
  new_chain flush_chain delete_chain : String → Op
  check_jump insert_jump delete_jump : String → String → Op
  append_rule check_rule insert_rule : String → List String → Op

pub data Command : Type 0 where
  iptables : String → Op → Command
  ip_link ip_addr : List String → Command
  rule_add rule_del : String → String → String → Command
  route_add route_replace_in : String → List String → Command
  route_flush : String → Command
  route_replace route_del : String → String → Command
  tc sysctl : List String → Command

-- The jump of a chain to one of the program's own.
op_args : Op → List String
op_args (new_chain c) = "-N" ∷ c ∷ []
op_args (flush_chain c) = "-F" ∷ c ∷ []
op_args (delete_chain c) = "-X" ∷ c ∷ []
op_args (check_jump hook c) = "-C" ∷ hook ∷ "-j" ∷ c ∷ []
op_args (insert_jump hook c) = "-I" ∷ hook ∷ "1" ∷ "-j" ∷ c ∷ []
op_args (delete_jump hook c) = "-D" ∷ hook ∷ "-j" ∷ c ∷ []
op_args (append_rule c args) = "-A" ∷ c ∷ args
op_args (check_rule c args) = "-C" ∷ c ∷ args
op_args (insert_rule c args) = "-I" ∷ c ∷ "1" ∷ args

unfoldable pub argv : Command → List String
unfolding op_args
argv (iptables table op) = "iptables" ∷ "-t" ∷ table ∷ op_args op
argv (ip_link args) = "ip" ∷ "link" ∷ args
argv (ip_addr args) = "ip" ∷ "addr" ∷ args
argv (rule_add priority mark table) =
    "ip" ∷ "rule" ∷ "add" ∷ "priority" ∷ priority ∷ "fwmark" ∷ mark ∷ "lookup" ∷ table ∷ []
argv (rule_del priority mark table) =
    "ip" ∷ "rule" ∷ "del" ∷ "priority" ∷ priority ∷ "fwmark" ∷ mark ∷ "lookup" ∷ table ∷ []
argv (route_add table args) = "ip" ∷ "route" ∷ "add" ∷ "table" ∷ table ∷ args
argv (route_replace_in table args) = "ip" ∷ "route" ∷ "replace" ∷ "table" ∷ table ∷ args
argv (route_flush table) = "ip" ∷ "route" ∷ "flush" ∷ "table" ∷ table ∷ []
argv (route_replace ip dev) = "ip" ∷ "route" ∷ "replace" ∷ String.◌++◌ ip "/32" ∷ "dev" ∷ dev ∷ []
argv (route_del ip dev) = "ip" ∷ "route" ∷ "del" ∷ String.◌++◌ ip "/32" ∷ "dev" ∷ dev ∷ []
argv (tc args) = "tc" ∷ args
argv (sysctl args) = "sysctl" ∷ args

-- A command that was run: whether the caller asked for its error, and whether it succeeded.
pub record Entry : Type 0 where
  pub command : Command
  pub required : Bool
  pub succeeded : Bool

-- Newest first.
abbrev pub Log : Type 0
Log = List Entry

-- Whether the next command succeeds.
abbrev pub Shell : Type 0
Shell = Log → Command → Bool

-- How a function ends: with nil, with an error, or not within the fuel of its loops.
pub data Status : Type 0 where
  ok : Status
  command_failed : Command → Status
  refused : Status
  running : Status

abbrev pub Script : Type 0
Script = Shell → Log → Status × Log

abbrev pub return : Status → Script
return s sh log = (s, log)

abbrev pub then_run : Script → Shell → Status × Log → Status × Log
then_run k sh (ok, log) = k sh log
then_run k sh (command_failed c, log) = (command_failed c, log)
then_run k sh (refused, log) = (refused, log)
then_run k sh (running, log) = (running, log)

-- `if err := m(); err != nil { return err }`, then k.
infixl 5 ◌>>◌
abbrev pub ◌>>◌ : Script → Script → Script
◌>>◌ m k sh log = then_run k sh (m sh log)

-- The error stays what it was, if the cleanup ends.
abbrev pub and_after : Status → Status → Status
and_after s running = running
and_after s ok = s
and_after s (command_failed c) = s
and_after s refused = s

abbrev pub cleaned : Script → Status → Script
cleaned k s sh log = let (s', log') = k sh log in (and_after s s', log')

abbrev pub clean_up : Script → Shell → Status × Log → Status × Log
clean_up k sh (ok, log) = (ok, log)
clean_up k sh (command_failed c, log) = cleaned k (command_failed c) sh log
clean_up k sh (refused, log) = cleaned k refused sh log
clean_up k sh (running, log) = (running, log)

-- `if err := m(); err != nil { k(); return err }`, where k has no error of its own.
abbrev pub or_clean_up : Script → Script → Script
or_clean_up m k sh log = clean_up k sh (m sh log)

abbrev pub finish : Script → Shell → Status × Log → Status × Log
finish k sh (ok, log) = cleaned k ok sh log
finish k sh (command_failed c, log) = cleaned k (command_failed c) sh log
finish k sh (refused, log) = cleaned k refused sh log
finish k sh (running, log) = (running, log)

-- `defer k()`, then m.
abbrev pub deferring : Script → Script → Script
deferring k m sh log = finish k sh (m sh log)

abbrev pub log_entry : Command → Bool → Shell → Log → Entry
log_entry c required sh log = record { command = c; required = required; succeeded = sh log c }

unfoldable pub run_cmd : Command → Script
run_cmd c sh log = ((if sh log c then ok else command_failed c), log_entry c true sh log ∷ log)

unfoldable pub run_quiet : Command → Script
run_quiet c sh log = (ok, log_entry c false sh log ∷ log)

-- `if exec.Command(c).Run() == nil { m() } else { k() }`.
unfoldable pub if_succeeds : Command → Script → Script → Script
if_succeeds c m k sh log =
    let next = log_entry c false sh log ∷ log in if sh log c then m sh next else k sh next

unfoldable pub ipt : String → Op → Script
unfolding run_cmd
ipt table op = run_cmd (iptables table op)

-- `for x in xs { if err := f(x); err != nil { return err } }`.
unfoldable pub each {ℓ} : {A : Type ℓ} → (A → Script) → List A → Script
each f [] = return ok
each f (x ∷ xs) = f x >> each f xs

unfoldable pub reset_chain : String → String → String → Script
reset_chain table hook custom = do
  run_quiet (iptables table (new_chain custom))
  ipt table (flush_chain custom)
  if_succeeds (iptables table (check_jump hook custom)) (return ok)
      (ipt table (insert_jump hook custom))

-- The loop of deleteChain.
unfoldable pub delete_jumps : ℕ → String → String → String → Script
delete_jumps zero table hook custom = return running
delete_jumps (suc fuel) table hook custom =
    if_succeeds (iptables table (check_jump hook custom))
      (run_quiet (iptables table (delete_jump hook custom)) >> delete_jumps fuel table hook custom)
      (return ok)

unfoldable pub delete_chain_of : ℕ → String → String → String → Script
delete_chain_of fuel table hook custom = do
  delete_jumps fuel table hook custom
  run_quiet (iptables table (flush_chain custom))
  run_quiet (iptables table (delete_chain custom))
