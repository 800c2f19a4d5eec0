-- ===== src/Routing/Policy.antt =====
-- smart_policy.go: the table and the marks by which a Kharej node moves its service answers, and them
-- alone, between the direct path and the tunnel.
use hashshashin.Base.{String, str_eq, Bool, not, ◌&&◌, ◌||◌, List, [], ◌∷◌, if◌then◌else◌}
use Prim.Native.String
use hashshashin.Base.Int.{ℤ}
use hashshashin.Config.{Config, Port}
use hashshashin.Config.Load.{has_ports}
use hashshashin.ReturnPath.{ReturnPath, direct, tunnel, other}
use hashshashin.Shell.{
  Script, ok, refused, return, ◌>>◌, or_clean_up, run_cmd, run_quiet, ipt, each, rule_add, rule_del,
  route_flush, route_replace_in, append_rule,
}
use hashshashin.Routing.{protocols, clamping, mss}

abbrev pub return_mark : String
return_mark = "0x68"

abbrev pub return_table : String
return_table = "168"

unfoldable pub cleanup_smart_return_policy : Script
cleanup_smart_return_policy = do
  run_quiet (rule_del "68" return_mark return_table)
  run_quiet (route_flush return_table)

abbrev pub is_switching : Config → Bool
is_switching c = str_eq c.role "kharej" && (str_eq c.mode "direct-return" && c.smart_return.enabled)

module _ (itoa : ℤ → String) where
  abbrev pub tunnel_route : Config → List String
  tunnel_route c =
      String.◌++◌ c.network.iran_public_ip "/32" ∷ "dev" ∷ c.tun.name ∷ "mtu" ∷ itoa c.tun.mtu ∷ []

  unfoldable pub path_route : Config → ReturnPath → Script
  path_route c direct = run_quiet (route_flush return_table)
  path_route c tunnel = run_cmd (route_replace_in return_table (tunnel_route c))
  path_route c (other path) = return refused

  unfoldable pub set_kharej_return_path : Config → ReturnPath → Script
  unfolding path_route
  set_kharej_return_path c path = if not (is_switching c) then return ok else path_route c path

  abbrev pub answer_args : Config → String → String → List String → List String
  answer_args c proto port args =
      "-s" ∷ c.network.foreign_public_ip ∷ "-d" ∷ c.network.iran_public_ip ∷ "-p" ∷ proto
      ∷ "--sport" ∷ port ∷ args

  -- The body of the loops over the ports and their protocols.
  unfoldable pub mark_port : Config → Port → String → Script
  mark_port c p proto = do
    or_clean_up
        (ipt "mangle" (
          append_rule "HSH_MOUT" (
            answer_args c proto (itoa p.port) (
              "-m" ∷ "mark" ∷ "--mark" ∷ "0x0" ∷ "-j" ∷ "MARK" ∷ "--set-mark" ∷ return_mark ∷ []))))
        cleanup_smart_return_policy
    (if str_eq proto "tcp"
        then or_clean_up
            (ipt "mangle" (
              append_rule "HSH_MOUT" (
                answer_args c "tcp" (itoa p.port) (
                  "-m"
                  ∷ "mark"
                  ∷ "--mark"
                  ∷ return_mark
                  ∷ clamping ("-j" ∷ "TCPMSS" ∷ "--set-mss" ∷ mss itoa c ∷ [])))))
            cleanup_smart_return_policy
        else return ok)

  unfoldable pub setup_smart_return_policy : Config → Script
  unfolding protocols
  setup_smart_return_policy c =
      if not (is_switching c) || not (has_ports c.ports) then return ok else (do
        cleanup_smart_return_policy
        run_cmd (rule_add "68" return_mark return_table)
        each (λ p. each (mark_port c p) (protocols p.protocol)) c.ports
        set_kharej_return_path c direct)
