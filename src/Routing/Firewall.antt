-- ===== src/Routing/Firewall.antt =====
-- carrier_firewall.go: the rule that lets the carrier's packets in.
use hashshashin.Base.{String, str_eq, ◌&&◌, ◌||◌, List, [], ◌∷◌, if◌then◌else◌}
use hashshashin.Base.Int.{ℤ}
use hashshashin.Config.{Config, Library, Checked, passed}
use hashshashin.Config.Load.{listen_port, transport_network}
use hashshashin.Shell.{
  Script, ok, refused, return, ◌>>◌, run_quiet, ipt, if_succeeds, iptables, new_chain, check_jump,
  insert_jump, check_rule, insert_rule,
}

unfoldable pub source_ip : Config → String
source_ip c = if str_eq c.role "iran" then c.network.foreign_public_ip else c.network.iran_public_ip

module _ (itoa : ℤ → String) where
  unfoldable pub carrier_args : Config → ℤ → List String
  unfolding source_ip
  carrier_args c port =
      let n = c.network in
      if str_eq c.transport.kind "tcp" && str_eq c.role "iran"
      then "-i"
        ∷ n.public_interface
        ∷ "-d"
        ∷ n.public_ip
        ∷ "-s"
        ∷ source_ip c
        ∷ "-p"
        ∷ "tcp"
        ∷ "--sport"
        ∷ itoa port
        ∷ "-m"
        ∷ "conntrack"
        ∷ "--ctstate"
        ∷ "ESTABLISHED"
        ∷ "-j"
        ∷ "ACCEPT"
        ∷ []
      else "-i"
        ∷ n.public_interface
        ∷ "-d"
        ∷ n.public_ip
        ∷ "-s"
        ∷ source_ip c
        ∷ "-p"
        ∷ transport_network c.transport.kind
        ∷ "--dport"
        ∷ itoa port
        ∷ "-j"
        ∷ "ACCEPT"
        ∷ []

  -- With the result of listenPort.
  unfoldable pub install_carrier_rule : Config → Checked ℤ → Script
  install_carrier_rule c (Checked.refused e) = return refused
  install_carrier_rule c (passed port) = do
    run_quiet (iptables "filter" (new_chain "HSH_INPUT"))
    if_succeeds (iptables "filter" (check_jump "INPUT" "HSH_INPUT")) (return ok)
        (ipt "filter" (insert_jump "INPUT" "HSH_INPUT"))
    if_succeeds (iptables "filter" (check_rule "HSH_INPUT" (carrier_args c port))) (return ok)
        (ipt "filter" (insert_rule "HSH_INPUT" (carrier_args c port)))

  unfoldable pub setup_carrier_firewall : Library → Config → Script
  unfolding install_carrier_rule source_ip
  setup_carrier_firewall l c =
      if str_eq c.network.public_interface "" || str_eq c.network.public_ip ""
      then return ok
      else if str_eq (source_ip c) ""
      then return ok
      else install_carrier_rule c (listen_port l c.transport.listen)
