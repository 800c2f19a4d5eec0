-- ===== src/Carrier/Udp/Tests.antt =====
-- A Kharej node that answers the second of two peers that it has heard from.
use hashshashin.Base.{◌≡◌, refl, String, List, [], ◌∷◌, none, some, Option, arith}
use text.Mathlib.TextEquality.{eq_iff}
use hashshashin.Carrier.Udp.{target, run, new_udp_carrier, Use, heard, sent}
use hashshashin.Carrier.Udp.Cache.{target-run}

-- Addresses are their own texts here.
abbrev as_text : String → String
as_text a = a

abbrev read : String → Option String
read s = some s

abbrev uses : List (Use String)
uses = heard "192.0.2.1:5" ∷ heard "192.0.2.2:6" ∷ sent "192.0.2.1:5" ∷ []

target-run_example :
    (target read "192.0.2.2:6" (run as_text read uses (new_udp_carrier read as_text none))).0
    ≡ some "192.0.2.2:6"
target-run_example =
    target-run as_text read (λ a. refl) none uses "192.0.2.2:6"
      (λ e. ground (arith, eq_iff "192.0.2.2:6" ""))
