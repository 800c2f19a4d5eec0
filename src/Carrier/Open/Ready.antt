-- ===== src/Carrier/Open/Ready.antt =====
-- That a checked configuration gets its carrier.
use hashshashin.Base.{◌≡◌, refl, inl, inr, String, str_eq, Bool, true, false, some, arith}
use text.Mathlib.TextEquality.{eq_iff}
use hashshashin.Config.{Config, Library}
use hashshashin.Config.Accepted.{IsValid}
use hashshashin.Carrier.Open.{
  AnyCarrier, udp, tcp, kcp, Network, Opening, new_carrier, open_udp, open_tcp, open_kcp,
}

-- The system grants the sockets that the carrier asks for, and resolves what it resolved when the
-- configuration was checked.
pub record Grants {A : Type 0} (l : Library) (net : Network A) (c : Config) : Type 0 where
  pub packets : net.listen_packet c.transport.listen ≡ some true
  pub streams : net.listen_stream c.transport.listen ≡ true
  pub serves : net.serves_kcp ≡ true
  pub resolves :
      (peer : String) → l.resolves_udp peer ≡ true → (a : A) × (net.resolve_udp peer ≡ some a)

-- The carrier of a kind of transport.
abbrev pub IsOf : {A : Type 0} → String → AnyCarrier A → Type 0
IsOf kind (udp u) = kind ≡ "udp"
IsOf kind (tcp s) = kind ≡ "tcp"
IsOf kind (kcp s) = kind ≡ "kcp"

abbrev Opens : {A : Type 0} → Config → Opening A → Type 0
Opens {A} c r = (k : AnyCarrier A) × ((r.0 ≡ some k) × IsOf c.transport.kind k)

module _ {A : Type 0} (l : Library) (net : Network A) (c : Config) (valid : IsValid l c)
    (grants : Grants l net c) where
  -- On the Iran node, the peer of a UDP or KCP carrier resolves.
  peer_found :
      str_eq c.transport.kind "tcp" ≡ false
      → str_eq c.role "iran" ≡ true
      → (a : A) × (net.resolve_udp c.transport.peer ≡ some a)
  peer_found other iran =
      let (named, resolved) = valid.addressed.peer (ground (arith, eq_iff c.role "iran")) in
      elim resolved [
        | inl on_tcp ↦ absurd (ground (arith, other, on_tcp.0, eq_iff c.transport.kind "tcp"))
        | inr on_udp ↦ grants.resolves c.transport.peer on_udp.1
      ]

  open_udp-Opens : c.transport.kind ≡ "udp" → Opens c (open_udp net c)
  unfolding open_udp
  open_udp-Opens kind = go (str_eq c.role "iran") refl
    where
      go : (b : Bool) → str_eq c.role "iran" ≡ b → Opens c (open_udp net c)
      go true iran =
          let (a, found) = peer_found (rw kind) iran in
          rw (grants.packets, iran, found, open_udp) (_, (refl, kind))
      go false other = rw (grants.packets, other, open_udp) (_, (refl, kind))

  open_tcp-Opens : c.transport.kind ≡ "tcp" → Opens c (open_tcp net c)
  unfolding open_tcp
  open_tcp-Opens kind = go (str_eq c.role "iran") refl
    where
      go : (b : Bool) → str_eq c.role "iran" ≡ b → Opens c (open_tcp net c)
      go true iran = rw (iran, open_tcp) (_, (refl, kind))
      go false other = rw (other, grants.streams, open_tcp) (_, (refl, kind))

  open_kcp-Opens : c.transport.kind ≡ "kcp" → Opens c (open_kcp net c)
  unfolding open_kcp
  open_kcp-Opens kind = go (str_eq c.role "iran") refl
    where
      go : (b : Bool) → str_eq c.role "iran" ≡ b → Opens c (open_kcp net c)
      go true iran =
          let (a, found) = peer_found (rw kind) iran in
          rw (grants.packets, iran, found, open_kcp) (_, (refl, kind))
      go false other = rw (grants.packets, other, grants.serves, open_kcp) (_, (refl, kind))

  -- A configuration that loadConfig lets through gets a carrier of its kind, if the system grants the
  -- sockets and the Iran node's peer still resolves.
  pub new_carrier-opens :
      (k : AnyCarrier A) × (((new_carrier net c).0 ≡ some k) × IsOf c.transport.kind k)
  unfolding new_carrier
  new_carrier-opens = elim valid.basic.kind [
    | inl u ↦
        let hit : str_eq c.transport.kind "udp" ≡ true = rw u in
        rw (hit, new_carrier) (open_udp-Opens u)
    | inr (inl t) ↦
        let miss : str_eq c.transport.kind "udp" ≡ false = rw t in
        let hit : str_eq c.transport.kind "tcp" ≡ true = rw t in
        rw (miss, hit, new_carrier) (open_tcp-Opens t)
    | inr (inr k) ↦
        let not_udp : str_eq c.transport.kind "udp" ≡ false = rw k in
        let not_tcp : str_eq c.transport.kind "tcp" ≡ false = rw k in
        let hit : str_eq c.transport.kind "kcp" ≡ true = rw k in
        rw (not_udp, not_tcp, hit, new_carrier) (open_kcp-Opens k)
  ]
