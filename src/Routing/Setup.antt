-- ===== src/Routing/Setup.antt =====
-- routing.go, `setupRouting`; the cleanups of routing.go and smart_policy.go in their order.
use hashshashin.Base.{String, str_eq, not, if◌then◌else◌}
use hashshashin.Base.Int.{ℤ}
use hashshashin.Config.{Config}
use hashshashin.Config.Load.{has_ports}
use hashshashin.Shell.{Script, ok, return, ◌>>◌}
use hashshashin.Base.{ℕ}
use hashshashin.Routing.{cleanup_routing}
use hashshashin.Routing.Policy.{cleanup_smart_return_policy}
use hashshashin.Routing.Iran.{setup_iran_routing}
use hashshashin.Routing.Kharej.{setup_kharej_routing}

module _ (itoa : ℤ → String) where
  unfoldable pub setup_routing : Config → Script
  setup_routing c =
      if not (has_ports c.ports)
      then return ok
      else if str_eq c.role "iran"
      then setup_iran_routing itoa c
      else setup_kharej_routing itoa c

-- The two cleanups, as `run` and `-cleanup` make them.
unfoldable pub clean : ℕ → Config → Script
clean fuel c = cleanup_smart_return_policy >> cleanup_routing fuel c
