-- ===== src/Carrier/Udp/Cache.antt =====
-- The address cache of the UDP carrier never sends a packet astray.
use hashshashin.Base.{
  ◌≡◌, ◌≢◌, refl, sym, ap, ◌∙◌, subst, String, str_eq, Bool, true, false, List, [], ◌∷◌, Option,
  none, some, arith, ◌⊎◌, inl, inr, if◌then◌else◌,
}
use text.Mathlib.TextEquality.{eq_iff}
use mathlib.Core.Option.{some-injective}
use hashshashin.Carrier.Udp.{
  UdpCarrier, load, hear, resolved, cached, by_default, target, new_udp_carrier, Use, heard, sent,
  run,
}

-- What is known of an address under a name.
abbrev pub IsNamed {ℓ} : {A : Type ℓ} → (A → String) → (String → Option A) → String → A → Type ℓ
IsNamed to_text resolve peer a = (to_text a ≡ peer) ⊎ (resolve peer ≡ some a)

abbrev AllNamed {ℓ} : {A : Type ℓ} → (A → String) → (String → Option A) → List (String × A) → Type ℓ
AllNamed to_text resolve [] = Unit
AllNamed to_text resolve ((k, a) ∷ entries) =
    IsNamed to_text resolve k a × AllNamed to_text resolve entries

record IsNaming {ℓ} {A : Type ℓ} (to_text : A → String) (resolve : String → Option A)
    (u : UdpCarrier A) : Type ℓ where
  default_addr : (a : A) → u.default_addr ≡ some a → to_text a ≡ u.default_peer
  peers : AllNamed to_text resolve u.peers

module _ {ℓ} {A : Type ℓ} (to_text : A → String) (resolve : String → Option A) where
  load-AllNamed :
      (entries : List (String × A)) (peer : String) (a : A)
      → AllNamed to_text resolve entries
      → load entries peer ≡ some a
      → IsNamed to_text resolve peer a
  unfolding load
  load-AllNamed [] peer a named h = cc
  load-AllNamed ((k, b) ∷ entries) peer a (first, named) h =
      go (str_eq k peer) refl h (load-AllNamed entries peer a named)
    where
      go :
          (same : Bool)
          → str_eq k peer ≡ same
          → (if same then some b else load entries peer) ≡ some a
          → (load entries peer ≡ some a → IsNamed to_text resolve peer a)
          → IsNamed to_text resolve peer a
      go true e h later =
          subst (λ x. IsNamed to_text resolve peer x) (some-injective b a h)
            (subst (λ x. IsNamed to_text resolve x b) ((eq_iff k peer).0 e) first)
      go false e h later = later h

  hear-IsNaming :
      (a : A) (u : UdpCarrier A)
      → IsNaming to_text resolve u
      → IsNaming to_text resolve (hear to_text a u).1
  unfolding hear
  hear-IsNaming a u n = record { default_addr = n.default_addr; peers = (inl refl, n.peers) }

  -- The addresses that a target takes are named, and the names stay good.
  abbrev IsAimed : String → Option A × UdpCarrier A → Type ℓ
  IsAimed peer r =
      ((a : A) → r.0 ≡ some a → IsNamed to_text resolve peer a) × IsNaming to_text resolve r.1

  resolved-IsAimed :
      (peer : String) (o : Option A) (u : UdpCarrier A)
      → resolve peer ≡ o
      → IsNaming to_text resolve u
      → IsAimed peer (resolved resolve peer o u)
  unfolding resolved
  resolved-IsAimed peer none u e n = ((λ a h. cc), n)
  resolved-IsAimed peer (some b) u e n =
      ((λ a h. inr (e ∙ h)), record { default_addr = n.default_addr; peers = (inr e, n.peers) })

  cached-IsAimed :
      (peer : String) (o : Option A) (u : UdpCarrier A)
      → load u.peers peer ≡ o
      → IsNaming to_text resolve u
      → IsAimed peer (cached resolve peer o u)
  unfolding cached
  cached-IsAimed peer none u e n = resolved-IsAimed peer (resolve peer) u refl n
  cached-IsAimed peer (some b) u e n = ((λ a h. load-AllNamed u.peers peer a n.peers (e ∙ h)), n)

  by_default-IsAimed :
      (peer : String) (o : Option A) (u : UdpCarrier A)
      → u.default_addr ≡ o
      → IsNaming to_text resolve u
      → IsAimed peer (by_default resolve peer o u)
  unfolding by_default
  by_default-IsAimed peer none u e n = cached-IsAimed peer (load u.peers peer) u refl n
  by_default-IsAimed peer (some b) u e n = go (str_eq peer u.default_peer) refl
    where
      go :
          (same : Bool)
          → str_eq peer u.default_peer ≡ same
          → IsAimed peer (if same then (some b, u) else cached resolve peer (load u.peers peer) u)
      go true h =
          ((λ a k. inl (n.default_addr a (e ∙ k) ∙ sym ((eq_iff peer u.default_peer).0 h))), n)
      go false h = cached-IsAimed peer (load u.peers peer) u refl n

  target-IsAimed :
      (peer : String) (u : UdpCarrier A)
      → IsNaming to_text resolve u
      → IsNaming to_text resolve (target resolve peer u).1
  unfolding target
  target-IsAimed peer u n = go (if str_eq peer "" then u.default_peer else peer)
    where
      go :
          (name : String)
          → IsNaming to_text resolve
              (if str_eq name "" then (none, u) else by_default resolve name u.default_addr u).1
      go name = pick (str_eq name "")
        where
          pick :
              (empty : Bool)
              → IsNaming to_text resolve
                  (if empty then (none, u) else by_default resolve name u.default_addr u).1
          pick true = n
          pick false = (by_default-IsAimed name u.default_addr u refl n).1

  run-IsNaming :
      (uses : List (Use A)) (u : UdpCarrier A)
      → IsNaming to_text resolve u
      → IsNaming to_text resolve (run to_text resolve uses u)
  unfolding run
  run-IsNaming [] u n = n
  run-IsNaming (heard a ∷ uses) u n = run-IsNaming uses (hear to_text a u).1 (hear-IsNaming a u n)
  run-IsNaming (sent peer ∷ uses) u n =
      run-IsNaming uses (target resolve peer u).1 (target-IsAimed peer u n)

  new_udp_carrier-IsNaming :
      (peer : Option A) → IsNaming to_text resolve (new_udp_carrier resolve to_text peer)
  unfolding new_udp_carrier
  new_udp_carrier-IsNaming none = record { default_addr = λ a h. cc; peers = tt }
  new_udp_carrier-IsNaming (some b) = record {
    default_addr = λ a h. ap to_text (sym (some-injective b a h));
    peers = (inl refl, tt);
  }

-- The resolver reads the text of an address as that address.
module _ {ℓ} {A : Type ℓ} (to_text : A → String) (resolve : String → Option A)
    (law : (a : A) → resolve (to_text a) ≡ some a) where
  named_same : (a b : A) → IsNamed to_text resolve (to_text a) b → b ≡ a
  named_same a b (inl e) = some-injective b a (sym (law b) ∙ ap resolve e ∙ law a)
  named_same a b (inr e) = some-injective b a (sym e ∙ law a)

  cached_answer :
      (a : A) (o : Option A) (u : UdpCarrier A)
      → load u.peers (to_text a) ≡ o
      → IsNaming to_text resolve u
      → (cached resolve (to_text a) o u).0 ≡ some a
  unfolding cached resolved
  cached_answer a none u e n = rw (law a) refl
  cached_answer a (some b) u e n =
      ap some (named_same a b (load-AllNamed to_text resolve u.peers (to_text a) b n.peers e))

  default_answer :
      (a : A) (o : Option A) (u : UdpCarrier A)
      → u.default_addr ≡ o
      → IsNaming to_text resolve u
      → (by_default resolve (to_text a) o u).0 ≡ some a
  unfolding by_default
  default_answer a none u e n = cached_answer a (load u.peers (to_text a)) u refl n
  default_answer a (some b) u e n = go (str_eq (to_text a) u.default_peer) refl
    where
      go :
          (same : Bool)
          → str_eq (to_text a) u.default_peer ≡ same
          → (if same
              then (some b, u)
              else cached resolve (to_text a) (load u.peers (to_text a)) u).0
            ≡ some a
      go true h = ap some (
          named_same a b (inl (n.default_addr b e ∙ sym ((eq_iff (to_text a) u.default_peer).0 h))))
      go false h = cached_answer a (load u.peers (to_text a)) u refl n

  -- Whatever packets a carrier has heard and sent since it was made, on either node, a packet sent to
  -- the text of an address goes to that address, if the resolver reads the text of every address back
  -- as that address and the text is not empty.
  pub target-run :
      (peer : Option A) (uses : List (Use A)) (a : A)
      → to_text a ≢ ""
      → (target resolve
          (to_text a)
          (run to_text resolve uses (new_udp_carrier resolve to_text peer))).0
        ≡ some a
  unfolding target
  target-run peer uses a named =
      let u = run to_text resolve uses (new_udp_carrier resolve to_text peer) in
      let n =
        run-IsNaming to_text resolve uses (new_udp_carrier resolve to_text peer)
          (new_udp_carrier-IsNaming to_text resolve peer) in
      let full : str_eq (to_text a) "" ≡ false = ground (arith, eq_iff (to_text a) "") in
      rw (full, full) (default_answer a u.default_addr u refl n)
