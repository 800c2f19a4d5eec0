-- ===== src/Routing/Iran.antt =====
-- routing.go, `setupIranRouting`.
use Prim.Native.String
use hashshashin.Base.{String, str_eq, [], ◌∷◌, if◌then◌else◌}
use hashshashin.Base.Int.{ℤ}
use hashshashin.Config.{Config, Port}
use hashshashin.Shell.{
  Script, ok, return, ◌>>◌, run_cmd, ipt, each, rule_add, route_add, append_rule,
}
use hashshashin.Routing.{
  data_mark, data_table, protocols, iran_hooks, reset_hook, accepting, clamping, mss,
}

module _ (itoa : ℤ → String) where
  -- The body of the loops over the ports and their protocols on the Iran node.
  unfoldable pub iran_port : Config → Port → String → Script
  iran_port c p proto =
      let n = c.network in
      let port = itoa p.port in
      do
        ipt "mangle" (
            append_rule "HSH_MPRE" (
              "-i" ∷ n.public_interface ∷ "-d" ∷ n.public_ip ∷ "-p" ∷ proto ∷ "--dport" ∷ port
              ∷ "-j" ∷ "MARK" ∷ "--set-mark" ∷ data_mark ∷ []))
        ipt "nat" (
            append_rule "HSH_NPRE" (
              "-i"
              ∷ n.public_interface
              ∷ "-d"
              ∷ n.public_ip
              ∷ "-p"
              ∷ proto
              ∷ "--dport"
              ∷ port
              ∷ "-j"
              ∷ "DNAT"
              ∷ "--to-destination"
              ∷ String.◌++◌ (String.◌++◌ n.foreign_public_ip ":") port
              ∷ []))
        ipt "filter" (
            append_rule "HSH_FWD" (
              "-i"
              ∷ n.public_interface
              ∷ "-o"
              ∷ c.tun.name
              ∷ "-d"
              ∷ n.foreign_public_ip
              ∷ "-p"
              ∷ proto
              ∷ "--dport"
              ∷ port
              ∷ accepting ("NEW,ESTABLISHED" ∷ [])))

  unfoldable pub iran_mss : Config → Script
  iran_mss c =
      let n = c.network in
      if str_eq c.mode "full"
      then ipt "mangle" (
          append_rule "HSH_MFWD" (
            "-o"
            ∷ c.tun.name
            ∷ "-m"
            ∷ "mark"
            ∷ "--mark"
            ∷ data_mark
            ∷ "-p"
            ∷ "tcp"
            ∷ clamping ("-j" ∷ "TCPMSS" ∷ "--set-mss" ∷ mss itoa c ∷ [])))
      else ipt "mangle" (
          append_rule "HSH_MFWD" (
            "-i"
            ∷ n.public_interface
            ∷ "-o"
            ∷ n.public_interface
            ∷ "-s"
            ∷ n.foreign_public_ip
            ∷ "-p"
            ∷ "tcp"
            ∷ clamping (
                "-m"
                ∷ "conntrack"
                ∷ "--ctstate"
                ∷ "ESTABLISHED"
                ∷ "-j"
                ∷ "TCPMSS"
                ∷ "--set-mss"
                ∷ mss itoa c
                ∷ [])))

  unfoldable pub setup_iran_routing : Config → Script
  unfolding protocols
  setup_iran_routing c =
      let n = c.network in
      do
        run_cmd (rule_add "66" data_mark data_table)
        run_cmd
            (route_add data_table (String.◌++◌ n.foreign_public_ip "/32" ∷ "dev" ∷ c.tun.name ∷ []))
        each reset_hook iran_hooks
        (if c.smart_return.enabled
            then ipt "filter" (
                append_rule "HSH_INPUT" (
                  "-i"
                  ∷ n.public_interface
                  ∷ "-d"
                  ∷ n.iran_public_ip
                  ∷ "-s"
                  ∷ n.foreign_public_ip
                  ∷ "-p"
                  ∷ "udp"
                  ∷ "--dport"
                  ∷ itoa c.smart_return.probe_port
                  ∷ "-j"
                  ∷ "ACCEPT"
                  ∷ []))
            else return ok)
        each (λ p. each (iran_port c p) (protocols p.protocol)) c.ports
        ipt "nat" (
            append_rule "HSH_NPOST" (
              "-o" ∷ c.tun.name ∷ "-d" ∷ n.foreign_public_ip ∷ "-j" ∷ "SNAT" ∷ "--to-source"
              ∷ n.iran_public_ip ∷ []))
        ipt "filter" (
            append_rule "HSH_FWD" (
              "-i"
              ∷ c.tun.name
              ∷ "-o"
              ∷ n.public_interface
              ∷ accepting ("ESTABLISHED,RELATED" ∷ [])))
        ipt "filter" (
            append_rule "HSH_FWD" (
              "-i"
              ∷ n.public_interface
              ∷ "-o"
              ∷ n.public_interface
              ∷ accepting ("ESTABLISHED,RELATED" ∷ [])))
        iran_mss c
