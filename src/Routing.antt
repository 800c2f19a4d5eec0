-- ===== src/Routing.antt =====
-- routing.go: the device's settings, and the routes and firewall rules of both nodes.
pub mod Iran
pub mod Kharej
pub mod Setup
pub mod Policy
pub mod Firewall
pub mod Objects
pub mod Idle
pub mod Plan
pub mod Removal
pub mod Hooks
pub mod Undo
pub mod Kernel
pub mod Cleared
pub mod Ending
pub mod Bounded
pub mod Halting
pub mod Toy
pub mod Literal
mod Tests
use Prim.Native.String
use hashshashin.Base.{
  ℕ, ◌≡◌, String, str_eq, Bool, true, false, not, ◌&&◌, ◌||◌, List, [], ◌∷◌, ◌++◌, if◌then◌else◌,
}
use hashshashin.Base.Int.{ℤ, pos, ◌-ℤ◌}
use hashshashin.Config.{Config, Port}
use hashshashin.Config.Load.{has_ports}
use hashshashin.Shell.{
  Script, ok, return, ◌>>◌, run_cmd, run_quiet, ipt, each, reset_chain, delete_chain_of, Command,
  iptables, ip_link, ip_addr, rule_add, rule_del, route_add, route_flush, route_replace, route_del,
  tc, sysctl, append_rule,
}

-- dataMark, transportMark, dataTable and transportTable as the command lines spell them.
abbrev pub data_mark : String
data_mark = "0x66"

abbrev pub transport_mark : String
transport_mark = "0x77"

abbrev pub data_table : String
data_table = "166"

abbrev pub transport_table : String
transport_table = "167"

unfoldable pub protocols : String → List String
protocols p = if str_eq p "both" then "tcp" ∷ "udp" ∷ [] else p ∷ []

-- A row of the tables of hooks: the table, the chain hooked into, the program's own chain.
abbrev pub Hook : Type 0
Hook = String × String × String

abbrev pub iran_hooks : List Hook
iran_hooks =
    ("mangle", "PREROUTING", "HSH_MPRE")
    ∷ ("nat", "PREROUTING", "HSH_NPRE")
    ∷ ("nat", "POSTROUTING", "HSH_NPOST")
    ∷ ("filter", "FORWARD", "HSH_FWD")
    ∷ ("mangle", "FORWARD", "HSH_MFWD")
    ∷ ("filter", "INPUT", "HSH_INPUT")
    ∷ []

abbrev pub kharej_hooks : List Hook
kharej_hooks =
    ("filter", "INPUT", "HSH_INPUT")
    ∷ ("filter", "OUTPUT", "HSH_OUTPUT")
    ∷ ("mangle", "OUTPUT", "HSH_MOUT")
    ∷ []

abbrev pub all_hooks : List Hook
all_hooks =
    ("mangle", "PREROUTING", "HSH_MPRE")
    ∷ ("nat", "PREROUTING", "HSH_NPRE")
    ∷ ("nat", "POSTROUTING", "HSH_NPOST")
    ∷ ("filter", "FORWARD", "HSH_FWD")
    ∷ ("mangle", "FORWARD", "HSH_MFWD")
    ∷ ("filter", "INPUT", "HSH_INPUT")
    ∷ ("filter", "OUTPUT", "HSH_OUTPUT")
    ∷ ("mangle", "OUTPUT", "HSH_MOUT")
    ∷ []

abbrev pub reset_hook : Hook → Script
reset_hook (table, hook, custom) = reset_chain table hook custom

abbrev pub delete_hook : ℕ → Hook → Script
delete_hook fuel (table, hook, custom) = delete_chain_of fuel table hook custom

abbrev pub accepting : List String → List String
accepting states = "-m" ∷ "conntrack" ∷ "--ctstate" ∷ (states ++ ("-j" ∷ "ACCEPT" ∷ []))

abbrev pub clamping : List String → List String
clamping args = "--tcp-flags" ∷ "SYN,RST" ∷ "SYN" ∷ args

-- `itoa` is strconv.Itoa.
module _ (itoa : ℤ → String) where
  abbrev pub mss : Config → String
  mss c = itoa (c.tun.mtu -ℤ pos 40)

  unfoldable pub setup_tun : Config → Script
  setup_tun c = do
    run_cmd (
        ip_link (
          "set"
          ∷ "dev"
          ∷ c.tun.name
          ∷ "mtu"
          ∷ itoa c.tun.mtu
          ∷ "txqueuelen"
          ∷ itoa c.performance.tx_queue_len
          ∷ []))
    run_cmd (ip_link ("set" ∷ "dev" ∷ c.tun.name ∷ "up" ∷ []))
    run_cmd (ip_addr ("replace" ∷ c.tun.local_cidr ∷ "dev" ∷ c.tun.name ∷ []))
    (if not (str_eq c.performance.qdisc "none")
        then run_quiet
            (tc ("qdisc" ∷ "replace" ∷ "dev" ∷ c.tun.name ∷ "root" ∷ c.performance.qdisc ∷ []))
        else return ok)
    run_cmd (sysctl ("-w" ∷ "net.ipv4.ip_forward=1" ∷ []))
    run_cmd
        (sysctl ("-w" ∷ String.◌++◌ (String.◌++◌ "net.ipv4.conf." c.tun.name) ".rp_filter=2" ∷ []))

unfoldable pub setup_transport_bypass : Config → Script
setup_transport_bypass c =
    let n = c.network in
    do
      run_cmd (rule_add "77" transport_mark transport_table)
      run_cmd (
          route_add transport_table (
            "default"
            ∷ ((if not (str_eq n.public_gateway "") then "via" ∷ n.public_gateway ∷ [] else [])
                ++ ("dev" ∷ n.public_interface ∷ "src" ∷ n.public_ip ∷ []))))

-- The answers that leave by this device.
abbrev pub answers_by : Config → String → Script
answers_by c dev = ipt "filter" (
    append_rule "HSH_OUTPUT" (
      "-o"
      ∷ dev
      ∷ "-s"
      ∷ c.network.foreign_public_ip
      ∷ "-d"
      ∷ c.network.iran_public_ip
      ∷ accepting ("ESTABLISHED,RELATED" ∷ [])))

-- cleanupRouting after its loop over the chains.
unfoldable pub cleanup_rules : Config → Script
cleanup_rules c = do
  run_quiet (rule_del "66" data_mark data_table)
  run_quiet (route_flush data_table)
  run_quiet (rule_del "77" transport_mark transport_table)
  run_quiet (route_flush transport_table)
  (if str_eq c.role "kharej" && not (str_eq c.network.iran_public_ip "")
      then run_quiet (route_del c.network.iran_public_ip c.tun.name)
      else return ok)

unfoldable pub cleanup_routing : ℕ → Config → Script
unfolding cleanup_rules
cleanup_routing fuel c = each (delete_hook fuel) all_hooks >> cleanup_rules c
