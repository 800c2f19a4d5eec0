-- ===== src/Carrier/Open/Sockets.antt =====
-- What the constructors of the carriers leave open.
use hashshashin.Base.{
  ℕ, ◌≡◌, ◌≢◌, refl, String, str_eq, Bool, true, false, List, [], ◌∷◌, ◌++◌, Option, none, some,
  ◌==◌, if◌then◌else◌, arith,
}
use text.Mathlib.TextEquality.{eq_iff}
use hashshashin.Config.{Config}
use hashshashin.Carrier.Open.{
  Socket, packet_socket, stream_listener, kcp_listener, SocketEvent, opened, closed, Network,
  Opening, default_peer, new_carrier, close_carrier, open_udp, open_tcp, open_kcp, udp_on, udp_to,
  kcp_on, kcp_to,
}

socket_code : Socket → ℕ
socket_code packet_socket = 0
socket_code stream_listener = 1
socket_code kcp_listener = 2

unfoldable pub remove : Socket → List Socket → Option (List Socket)
unfolding socket_code
remove s [] = none
remove s (x ∷ xs) =
    let rest = remove s xs in
    if socket_code s == socket_code x
    then some xs
    else elim rest [ none ↦ none | some ys ↦ some (x ∷ ys) ]

-- The sockets that are open after these events; none if one is closed that is not open.
unfoldable pub open_after : List Socket → List SocketEvent → Option (List Socket)
open_after held [] = some held
open_after held (opened s ∷ events) = open_after (s ∷ held) events
open_after held (closed s ∷ events) = elim (remove s held) [
  | none ↦ none
  | some left ↦ open_after left events
]

-- After an error nothing is left open. A carrier's Close closes all that is open, and on the Iran node the
-- carrier has a default peer.
unfoldable pub IsBalanced : {A : Type 0} → Config → Opening A → Type 0
IsBalanced c (none, events) = open_after [] events ≡ some []
IsBalanced c (some k, events) =
    (open_after [] (events ++ close_carrier k) ≡ some []) × (c.role ≡ "iran" → default_peer k ≢ "")

IsBalanced-if :
    {A : Type 0} (c : Config) (b : Bool) (m k : Opening A)
    → (b ≡ true → IsBalanced c m)
    → (b ≡ false → IsBalanced c k)
    → IsBalanced c (if b then m else k)
IsBalanced-if c true m k p q = p refl
IsBalanced-if c false m k p q = q refl

not_iran : (role : String) {P : Type 0} → str_eq role "iran" ≡ false → role ≡ "iran" → P
not_iran role differs r = absurd (ground (arith, eq_iff role "iran", differs, r))

module _ {A : Type 0} (net : Network A) (c : Config) (named : (a : A) → net.to_text a ≢ "") where
  open_udp-IsBalanced : IsBalanced c (open_udp net c)
  unfolding open_udp IsBalanced open_after remove close_carrier default_peer
      hashshashin.Carrier.Udp.new_udp_carrier
  open_udp-IsBalanced = go (net.listen_packet c.transport.listen)
    where
      to : (peer : Option A) → IsBalanced c (udp_to net c peer)
      to none = refl
      to (some a) = (refl, λ r. named a)

      go : (answer : Option Bool) → IsBalanced c (udp_on net c answer)
      go none = refl
      go (some false) = refl
      go (some true) =
          IsBalanced-if c (str_eq c.role "iran") _ _ (λ r. to (net.resolve_udp c.transport.peer))
            (λ r. (refl, not_iran c.role r))

  open_tcp-IsBalanced : IsBalanced c (open_tcp net c)
  unfolding open_tcp IsBalanced open_after remove close_carrier default_peer
  open_tcp-IsBalanced =
      IsBalanced-if c (str_eq c.role "iran") _ _
        (λ r. (refl, λ e. ground (arith, eq_iff "tcp-peer" "")))
        (λ r.
          IsBalanced-if c (net.listen_stream c.transport.listen) _ _
            (λ l. (refl, not_iran c.role r)) (λ l. refl))

  open_kcp-IsBalanced : IsBalanced c (open_kcp net c)
  unfolding open_kcp IsBalanced open_after remove close_carrier default_peer
  open_kcp-IsBalanced = go (net.listen_packet c.transport.listen)
    where
      to : (peer : Option A) → IsBalanced c (kcp_to net c peer)
      to none = refl
      to (some a) = (refl, λ r. ground (arith, eq_iff "kcp-peer" ""))

      go : (answer : Option Bool) → IsBalanced c (kcp_on net c answer)
      go none = refl
      go (some is_udp) =
          IsBalanced-if c (str_eq c.role "iran") _ _ (λ r. to (net.resolve_udp c.transport.peer))
            (λ r. IsBalanced-if c net.serves_kcp _ _ (λ l. (refl, not_iran c.role r)) (λ l. refl))

  -- Whatever the system and the resolver answer, if no address has an empty text: newCarrier leaves
  -- nothing open when it fails, else Close of its carrier closes all that was opened, each once, and on
  -- the Iran node the carrier names a peer.
  pub new_carrier-IsBalanced : IsBalanced c (new_carrier net c)
  unfolding new_carrier IsBalanced open_after
  new_carrier-IsBalanced =
      IsBalanced-if c (str_eq c.transport.kind "udp") _ _ (λ e. open_udp-IsBalanced)
        (λ e.
          IsBalanced-if c (str_eq c.transport.kind "tcp") _ _ (λ e. open_tcp-IsBalanced)
            (λ e.
              IsBalanced-if c (str_eq c.transport.kind "kcp") _ _ (λ e. open_kcp-IsBalanced)
                (λ e. refl)))
