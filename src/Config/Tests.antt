-- ===== src/Config/Tests.antt =====
-- The loaded sample and single checks, and the theorems at them.
use hashshashin.Base.{◌≡◌, refl, [], ◌∷◌}
use hashshashin.Base.Int.{pos}
use hashshashin.Config.{passed, refused, duplicate_port}
use hashshashin.Config.Defaults.{fill_performance, validate_performance}
use hashshashin.Config.Load.{seen_port, check_ports}
use hashshashin.Config.Presets.{bare, fill_performance_valid}
use hashshashin.Config.Accepted.{IsValid, load_config-IsValid}
use hashshashin.Config.Sample.{library, sample, loaded, loads}

load_config-IsValid_example : IsValid library loaded
load_config-IsValid_example = load_config-IsValid library sample loaded loads

-- The same port and protocol twice.
refuses_twice :
    check_ports [] (
      record { port = pos 443; protocol = "udp" }
      ∷ record { port = pos 443; protocol = "udp" }
      ∷ [])
    ≡ refused (duplicate_port (pos 443) "udp")
unfolding check_ports seen_port
refuses_twice = refl

fill_performance_valid_example :
    validate_performance (fill_performance (pos 3) "balance" (bare "balance")) ≡ passed tt
fill_performance_valid_example = fill_performance_valid (pos 3) "balance" refl
