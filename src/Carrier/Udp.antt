-- ===== src/Carrier/Udp.antt =====
-- carrier_udp.go: packets to and from the addresses that peers are known by. A *net.UDPAddr is of any
-- type A; its String and the resolver are parameters.
pub mod Cache
mod Tests
use hashshashin.Base.{
  ◌≡◌, ◌≢◌, refl, sym, ◌∙◌, String, str_eq, Bool, true, false, ◌&&◌, List, [], ◌∷◌, Option, none,
  some, arith, ◌⊎◌, inl, inr, if◌then◌else◌, Bool-cases,
}

pub record UdpCarrier {ℓ} (A : Type ℓ) : Type ℓ where
  pub default_peer : String
  pub default_addr : Option A
  pub peers : List (String × A)

module _ {ℓ} {A : Type ℓ} where
  -- sync.Map's Load and Store, the newest entry first.
  unfoldable pub load : List (String × A) → String → Option A
  load [] peer = none
  load ((k, a) ∷ entries) peer = if str_eq k peer then some a else load entries peer

  abbrev pub store : String → A → List (String × A) → List (String × A)
  store peer a entries = (peer, a) ∷ entries

module _ {ℓ} {A : Type ℓ} (to_text : A → String) where
  -- ReadPacket, once ReadFromUDP has returned a packet from this address: the sender's name.
  unfoldable pub hear : A → UdpCarrier A → String × UdpCarrier A
  hear a u = (to_text a, record u { peers = store (to_text a) a u.peers })

module _ {ℓ} {A : Type ℓ} (resolve : String → Option A) where
  resolved : String → Option A → UdpCarrier A → Option A × UdpCarrier A
  resolved peer none u = (none, u)
  resolved peer (some a) u = (some a, record u { peers = store peer a u.peers })

  cached : String → Option A → UdpCarrier A → Option A × UdpCarrier A
  unfolding resolved
  cached peer none u = resolved peer (resolve peer) u
  cached peer (some a) u = (some a, u)

  by_default : String → Option A → UdpCarrier A → Option A × UdpCarrier A
  unfolding cached load
  by_default peer none u = cached peer (load u.peers peer) u
  by_default peer (some a) u =
      if str_eq peer u.default_peer then (some a, u) else cached peer (load u.peers peer) u

  -- The address that WritePacket sends to; none is one of its errors.
  unfoldable pub target : String → UdpCarrier A → Option A × UdpCarrier A
  unfolding by_default
  target peer u =
      let name = if str_eq peer "" then u.default_peer else peer in
      if str_eq name "" then (none, u) else by_default name u.default_addr u

  -- newUDPCarrier's peers: on the Iran node, the resolved peer.
  unfoldable pub new_udp_carrier : (A → String) → Option A → UdpCarrier A
  new_udp_carrier to_text none = record { default_peer = ""; default_addr = none; peers = [] }
  new_udp_carrier to_text (some a) = record {
    default_peer = to_text a;
    default_addr = some a;
    peers = (to_text a, a) ∷ [];
  }

-- A use of the carrier: a packet from an address, or one sent to a name.
pub data Use {ℓ} (A : Type ℓ) : Type ℓ where
  heard : A → Use A
  sent : String → Use A

unfoldable pub run {ℓ} :
    {A : Type ℓ} → (A → String) → (String → Option A) → List (Use A) → UdpCarrier A → UdpCarrier A
run to_text resolve [] u = u
run to_text resolve (heard a ∷ uses) u = run to_text resolve uses (hear to_text a u).1
run to_text resolve (sent peer ∷ uses) u = run to_text resolve uses (target resolve peer u).1
