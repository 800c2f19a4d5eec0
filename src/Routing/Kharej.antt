-- ===== src/Routing/Kharej.antt =====
-- routing.go, `setupKharejRouting`.
use hashshashin.Base.{String, str_eq, not, [], ◌∷◌, if◌then◌else◌}
use hashshashin.Base.Int.{ℤ}
use hashshashin.Config.{Config, Port}
use hashshashin.Shell.{Script, ok, return, ◌>>◌, run_cmd, ipt, each, route_replace, append_rule}
use hashshashin.Routing.{
  protocols, kharej_hooks, reset_hook, accepting, clamping, mss, answers_by, setup_transport_bypass,
}

module _ (itoa : ℤ → String) where
  unfoldable pub kharej_port : Config → Port → String → Script
  kharej_port c p proto =
      let n = c.network in
      do
        ipt "filter" (
            append_rule "HSH_INPUT" (
              "-i"
              ∷ c.tun.name
              ∷ "-d"
              ∷ n.foreign_public_ip
              ∷ "-p"
              ∷ proto
              ∷ "--dport"
              ∷ itoa p.port
              ∷ accepting ("NEW,ESTABLISHED" ∷ [])))
        (if n.lock_service_ports
            then ipt "filter" (
                append_rule "HSH_INPUT" (
                  "-i"
                  ∷ n.public_interface
                  ∷ "-d"
                  ∷ n.foreign_public_ip
                  ∷ "-p"
                  ∷ proto
                  ∷ "--dport"
                  ∷ itoa p.port
                  ∷ "-j"
                  ∷ "DROP"
                  ∷ []))
            else return ok)

  unfoldable pub kharej_mss : Config → Port → Script
  kharej_mss c p =
      if str_eq p.protocol "udp"
      then return ok
      else ipt "mangle" (
          append_rule "HSH_MOUT" (
            "-o"
            ∷ c.tun.name
            ∷ "-s"
            ∷ c.network.foreign_public_ip
            ∷ "-d"
            ∷ c.network.iran_public_ip
            ∷ "-p"
            ∷ "tcp"
            ∷ "--sport"
            ∷ itoa p.port
            ∷ clamping ("-j" ∷ "TCPMSS" ∷ "--set-mss" ∷ mss itoa c ∷ [])))

  unfoldable pub setup_kharej_routing : Config → Script
  unfolding protocols
  setup_kharej_routing c = do
    each reset_hook kharej_hooks
    each (λ p. each (kharej_port c p) (protocols p.protocol)) c.ports
    (if str_eq c.mode "direct-return"
        then (answers_by c c.network.public_interface
            >> (if not c.smart_return.enabled
                then return ok
                else (setup_transport_bypass c >> answers_by c c.tun.name)))
        else (do
          setup_transport_bypass c
          run_cmd (route_replace c.network.iran_public_ip c.tun.name)
          answers_by c c.tun.name
          each (kharej_mss c) c.ports))
