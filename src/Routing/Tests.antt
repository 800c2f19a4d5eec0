-- ===== src/Routing/Tests.antt =====
-- The cleanups on a system with one jump from each hook.
use hashshashin.Base.{◌≡◌, [], arith}
use hashshashin.Config.Sample.{loaded}
use hashshashin.Shell.{ok}
use hashshashin.Routing.{all_hooks}
use hashshashin.Routing.Setup.{clean}
use hashshashin.Routing.Ending.{set_up_hooks, Below, NoJumps, clean-ok}
use hashshashin.Routing.Toy.{counting, counting-Firewall, count}

below : Below counting counting-Firewall 2 all_hooks []
unfolding Below count counting-Firewall
below = omega arith

clean-ok_example :
    ((clean 2 loaded counting []).0 ≡ ok)
    × NoJumps counting counting-Firewall set_up_hooks (clean 2 loaded counting []).1
clean-ok_example = clean-ok counting counting-Firewall loaded 2 [] below
