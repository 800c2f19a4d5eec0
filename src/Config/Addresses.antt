-- ===== src/Config/Addresses.antt =====
-- What the checks of config.go ask of addresses, of the carrier's port and of its protocol.
use hashshashin.Base.{
  ◌≡◌, refl, ap, subst, String, str_eq, Bool, true, false, ◌⊎◌, inl, inr, Option, none, some, arith,
  Bool-cases, if◌then◌else◌,
}
use hashshashin.Base.Int.{ℤ}
use text.Mathlib.TextEquality.{eq_iff}
use hashshashin.Config.{within, Config, Library, refused, passed, bad_listen_port}
use hashshashin.Config.Bounds.{Between, within→Between}
use hashshashin.Config.Load.{
  validate_transport_address, parse_port, listen_port, transport_network, probe_in_use,
}

-- The resolver for the transport's kind takes the address.
abbrev pub Resolves : Library → String → String → Type 0
Resolves l kind addr =
    ((kind ≡ "tcp") × (l.resolves_tcp addr ≡ true))
    ⊎ (((kind ≡ "udp") ⊎ (kind ≡ "kcp")) × (l.resolves_udp addr ≡ true))

pub validate_transport_address-Resolves :
    (l : Library) (kind addr : String)
    → validate_transport_address l kind addr ≡ true
    → Resolves l kind addr
unfolding validate_transport_address
validate_transport_address-Resolves l kind addr h = elim (Bool-cases (str_eq kind "tcp")) [
  | inl tcp ↦ inl ((eq_iff kind "tcp").0 tcp, ground (arith, h, tcp))
  | inr other ↦ elim (Bool-cases (str_eq kind "udp")) [
    | inl udp ↦ inr (inl ((eq_iff kind "udp").0 udp), ground (arith, h, other, udp))
    | inr third ↦ elim (Bool-cases (str_eq kind "kcp")) [
      | inl kcp ↦ inr (inr ((eq_iff kind "kcp").0 kcp), ground (arith, h, other, kcp))
      | inr none_of ↦ absurd (ground (arith, h, other, third, none_of))
    ]
  ]
]

-- The address ends in this port, which is one.
abbrev pub HasPort : Library → String → ℤ → Type 0
HasPort l addr port =
    (text : String) × ((l.split_port addr ≡ some text)
      × ((l.atoi text ≡ some port) × Between 1 65535 port))

pub listen_port-HasPort :
    (l : Library) (addr : String) (port : ℤ)
    → listen_port l addr ≡ passed port
    → HasPort l addr port
unfolding listen_port parse_port
listen_port-HasPort l addr port = go (l.split_port addr)
  where
    in_range :
        (n : ℤ) (b : Bool)
        → within 1 65535 n ≡ b
        → (if b then passed n else refused bad_listen_port) ≡ passed port
        → (n ≡ port) × Between 1 65535 port
    in_range n true e h =
        let same : n ≡ port = ap (λ r. elim r [ passed x ↦ x | refused y ↦ n ]) h in
        (same, subst (Between 1 65535) same (within→Between 1 65535 n e))
    in_range n false e h = cc

    read :
        (text : String) (o : Option ℤ)
        → (elim o [
          | none ↦ refused bad_listen_port
          | some n ↦ if within 1 65535 n then passed n else refused bad_listen_port
        ])
          ≡ passed port
        → (o ≡ some port) × Between 1 65535 port
    read text none h = cc
    read text (some n) h =
        let (same, between) = in_range n (within 1 65535 n) refl h in (rw same refl, between)

    go :
        (o : Option String)
        → parse_port l o ≡ passed port
        → (text : String) × ((o ≡ some text) × ((l.atoi text ≡ some port) × Between 1 65535 port))
    go none h = cc
    go (some text) h = (text, (refl, read text (l.atoi text) h))

-- The protocol that the kind of transport runs on.
abbrev pub RunsOn : String → String → Type 0
RunsOn kind proto =
    ((kind ≡ "tcp") × (proto ≡ "tcp")) ⊎ (((kind ≡ "udp") ⊎ (kind ≡ "kcp")) × (proto ≡ "udp"))

pub RunsOn-transport_network :
    (kind proto : String) → RunsOn kind proto → proto ≡ transport_network kind
unfolding transport_network
RunsOn-transport_network kind proto (inl (e, p)) = rw (e, p) refl
RunsOn-transport_network kind proto (inr (inl e, p)) = rw (e, p) refl
RunsOn-transport_network kind proto (inr (inr e, p)) = rw (e, p) refl

-- The port of the probe where there is one.
abbrev pub Probes : Config → Option ℤ → Type 0
Probes c probe =
    ((c.smart_return.enabled ≡ true) × (probe ≡ some c.smart_return.probe_port))
    ⊎ ((c.smart_return.enabled ≡ false) × (probe ≡ none))

pub Probes-probe_in_use : (c : Config) (probe : Option ℤ) → Probes c probe → probe ≡ probe_in_use c
unfolding probe_in_use
Probes-probe_in_use c probe (inl (e, p)) = rw (e, p) refl
Probes-probe_in_use c probe (inr (e, p)) = rw (e, p) refl
