-- ===== src/Config/Ports.antt =====
-- The service ports that the checks let through.
use hashshashin.Base.{
  ◌≡◌, ◌≢◌, String, str_eq, true, not, ◌&&◌, ◌||◌, List, [], ◌∷◌, Option, none, some, arith, ◌⊎◌,
  sym, ◌++◌, ◌∙◌,
}
use mathlib.Core.Option.{some-injective}
use text.Mathlib.TextEquality.{eq_iff}
use hashshashin.Base.Int.{ℤ}
use hashshashin.Config.{Port, passed, within}
use hashshashin.Config.Bounds.{Between, within→Between, guard_passed, text_cases₃}
use hashshashin.Config.Load.{
  eq_ℤ, seen_port, check_ports, check_conflicts, protocol_includes, probe_clear,
}

pub record IsPort (p : Port) : Type 0 where
  pub port : Between 1 65535 p.port
  pub protocol : (p.protocol ≡ "tcp") ⊎ ((p.protocol ≡ "udp") ⊎ (p.protocol ≡ "both"))

-- No port of the list equals p.
abbrev pub IsNew : Port → List Port → Type 0
IsNew p [] = Unit
IsNew p (q ∷ qs) = (p ≢ q) × IsNew p qs

abbrev pub ArePorts : List Port → Type 0
ArePorts [] = Unit
ArePorts (p ∷ ps) = IsPort p × (IsNew p ps × ArePorts ps)

eq_ℤ_refl : (x : ℤ) → eq_ℤ x x ≡ true
eq_ℤ_refl x = ground arith

same_key : (p q : Port) → p ≡ q → eq_ℤ q.port p.port && str_eq q.protocol p.protocol ≡ true
same_key p q e = rw e (ground (arith, eq_ℤ_refl q.port, eq_iff q.protocol q.protocol))

seen_port-IsNew : (seen : List Port) (p : Port) → not (seen_port seen p) ≡ true → IsNew p seen
unfolding seen_port
seen_port-IsNew [] p h = tt
seen_port-IsNew (q ∷ qs) p h =
    ((λ e. absurd (ground (arith, same_key p q e))), seen_port-IsNew qs p (ground arith))

-- Each port is good, and new to those before it.
Fits : List Port → List Port → Type 0
Fits seen [] = Unit
Fits seen (p ∷ ps) = IsPort p × (IsNew p seen × Fits (p ∷ seen) ps)

check_ports-Fits : (seen ps : List Port) → check_ports seen ps ≡ passed tt → Fits seen ps
unfolding check_ports Fits
check_ports-Fits seen [] h = tt
check_ports-Fits seen (p ∷ ps) h =
    let (range, h1) = guard_passed (within 1 65535 p.port) _ h in
    let (proto, h2) =
      guard_passed
        (str_eq p.protocol "tcp" || (str_eq p.protocol "udp" || str_eq p.protocol "both")) _ h1 in
    let (new, rest) = guard_passed (not (seen_port seen p)) _ h2 in
    let port : IsPort p = record {
      port = within→Between 1 65535 p.port range;
      protocol = text_cases₃ p.protocol "tcp" "udp" "both" proto;
    } in
    (port, (seen_port-IsNew seen p new, check_ports-Fits (p ∷ seen) ps rest))

new_other : (before after : List Port) (p q : Port) → IsNew p (before ++ q ∷ after) → q ≢ p
new_other [] after p q (other, h) = λ e. other (sym e)
new_other (b ∷ bs) after p q (other, h) = new_other bs after p q h

IsNew-Fits :
    (before after : List Port) (q : Port) (ps : List Port)
    → Fits (before ++ q ∷ after) ps
    → IsNew q ps
unfolding Fits
IsNew-Fits before after q [] h = tt
IsNew-Fits before after q (p ∷ ps) (port, (new, h)) =
    (new_other before after p q new, IsNew-Fits (p ∷ before) after q ps h)

Fits-ArePorts : (seen ps : List Port) → Fits seen ps → ArePorts ps
unfolding Fits
Fits-ArePorts seen [] h = tt
Fits-ArePorts seen (p ∷ ps) (port, (new, h)) =
    (port, (IsNew-Fits [] seen p ps h, Fits-ArePorts (p ∷ seen) ps h))

pub check_ports-ArePorts : (ps : List Port) → check_ports [] ps ≡ passed tt → ArePorts ps
check_ports-ArePorts ps h = Fits-ArePorts [] ps (check_ports-Fits [] ps h)

-- What the last loop leaves free: the carrier's port on its protocol, and the probe's UDP port.
pub record IsFree (carrier_port : ℤ) (proto : String) (probe : Option ℤ) (p : Port) : Type 0 where
  pub carrier : p.port ≡ carrier_port → (p.protocol ≢ "both") × (p.protocol ≢ proto)
  pub probe_free :
      (q : ℤ) → probe ≡ some q → p.port ≡ q → (p.protocol ≢ "both") × (p.protocol ≢ "udp")

abbrev pub AreFree : ℤ → String → Option ℤ → List Port → Type 0
AreFree carrier_port proto probe [] = Unit
AreFree carrier_port proto probe (p ∷ ps) =
    IsFree carrier_port proto probe p × AreFree carrier_port proto probe ps

differs :
    (port carrier : ℤ) (s proto : String)
    → not (eq_ℤ port carrier && (str_eq s proto || str_eq s "both")) ≡ true
    → port ≡ carrier
    → (s ≢ "both") × (s ≢ proto)
differs port carrier s proto h e =
    let same : eq_ℤ port carrier ≡ true = rw e (eq_ℤ_refl carrier) in
    (
      (λ b. absurd (ground (arith, same, eq_iff s "both"))),
      (λ b. absurd (ground (arith, same, eq_iff s proto))),
    )

probe_clear-differs :
    (probe : Option ℤ) (p : Port) (q : ℤ)
    → probe_clear probe p ≡ true
    → probe ≡ some q
    → p.port ≡ q
    → (p.protocol ≢ "both") × (p.protocol ≢ "udp")
unfolding probe_clear
probe_clear-differs none p q h e same = cc
probe_clear-differs (some r) p q h e same =
    differs p.port r p.protocol "udp" h (same ∙ sym (some-injective r q e))

pub check_conflicts-AreFree :
    (carrier_port : ℤ) (proto : String) (probe : Option ℤ) (ps : List Port)
    → check_conflicts carrier_port proto probe ps ≡ passed tt
    → AreFree carrier_port proto probe ps
unfolding check_conflicts protocol_includes
check_conflicts-AreFree carrier_port proto probe [] h = tt
check_conflicts-AreFree carrier_port proto probe (p ∷ ps) h =
    let (carrier, h1) =
      guard_passed (not (eq_ℤ p.port carrier_port && protocol_includes p.protocol proto)) _ h in
    let (clear, rest) = guard_passed (probe_clear probe p) _ h1 in
    let free : IsFree carrier_port proto probe p = record {
      carrier = differs p.port carrier_port p.protocol proto (ground (arith, carrier));
      probe_free = λ q e same. probe_clear-differs probe p q clear e same;
    } in
    (free, check_conflicts-AreFree carrier_port proto probe ps rest)
