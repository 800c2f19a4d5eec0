-- ===== src/Carrier/Open/Tests.antt =====
-- The KCP carrier of the sample configuration.
use hashshashin.Base.{◌≡◌, ◌≢◌, refl, String, true, [], ◌∷◌, some, arith}
use text.Mathlib.TextEquality.{eq_iff}
use hashshashin.Config.Accepted.{load_config-IsValid}
use hashshashin.Config.Sample.{library, sample, loaded, loads}
use hashshashin.Carrier.Open.{AnyCarrier, Network, new_carrier, random_conversation_id, get_le}
use hashshashin.Carrier.Open.Sockets.{IsBalanced, new_carrier-IsBalanced}
use hashshashin.Carrier.Open.Ready.{Grants, IsOf, new_carrier-opens}

-- Addresses are texts that come back as they went in.
abbrev network : Network String
network = record {
  listen_packet = λ a. some true;
  listen_stream = λ a. true;
  resolve_udp = λ peer. some peer;
  to_text = λ a. "203.0.113.7:443";
  serves_kcp = true;
}

named : (a : String) → network.to_text a ≢ ""
named a = ground (arith, eq_iff "203.0.113.7:443" "")

new_carrier-IsBalanced_example : IsBalanced loaded (new_carrier network loaded)
new_carrier-IsBalanced_example = new_carrier-IsBalanced network loaded named

grants : Grants library network loaded
grants = record { packets = refl; streams = refl; serves = refl; resolves = λ peer h. (peer, refl) }

new_carrier-opens_example :
    (k : AnyCarrier String) × (((new_carrier network loaded).0 ≡ some k) × IsOf "kcp" k)
new_carrier-opens_example =
    new_carrier-opens library network loaded (load_config-IsValid library sample loaded loads)
      grants

conversation_one :
    (random_conversation_id (some (0 ∷ 0 ∷ 0 ∷ 0 ∷ [])) ≡ some 1)
    × (random_conversation_id (some (2 ∷ 1 ∷ 0 ∷ 0 ∷ [])) ≡ some 258)
unfolding random_conversation_id get_le
conversation_one = (refl, refl)
