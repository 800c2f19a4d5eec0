-- ===== src/Tunnel/Data/Nonces.antt =====
-- GCM must never see a nonce twice under one key: the nonces of a session's packets.
use hashshashin.Base.{
  ℕ, ◌+◌, ◌^◌, ◌≤◌, ◌<◌, ◌≡◌, ◌≢◌, ap, refl, subst, Bool, true, false, List, [], ◌∷◌, ◌++◌, arith,
  length, take, drop,
}
use hashshashin.Base.Bytes.{Bytes, put_u64, put_u64_inj}
use hashshashin.Crypto.{Crypto}
use hashshashin.Wire.{make_nonce, header}
use hashshashin.Tunnel.{Session, Metrics, add_u64}
use hashshashin.Tunnel.Data.{send_encrypted, sealed_packet}
use hashshashin.Tunnel.Data.RoundTrip.{send_encrypted_lem}

-- One call: the type, the payload and whether the carrier takes the packet.
pub record Sending : Type 0 where
  pub typ : ℕ
  pub payload : Bytes
  pub written : Bool

-- The packets that a sequence of calls gives to the carrier, oldest first.
unfoldable pub packets : Crypto → Session → Metrics → List Sending → List Bytes
packets c s m [] = []
packets c s m (x ∷ xs) =
    let (s', m', packet) = send_encrypted c s m x.typ x.payload x.written in
    packet ∷ packets c s' m' xs

-- Each packet is a header of 13 bytes and the call's payload, sealed under the key, the nonce in turn and
-- that header.
unfoldable pub AreSealed : Crypto → Bytes → List Bytes → List Sending → List Bytes → Type 0
AreSealed c key [] [] [] = Unit
AreSealed c key [] [] (p ∷ ps) = ⊥
AreSealed c key [] (x ∷ xs) ps = ⊥
AreSealed c key (n ∷ ns) [] ps = ⊥
AreSealed c key (n ∷ ns) (x ∷ xs) [] = ⊥
AreSealed c key (n ∷ ns) (x ∷ xs) (p ∷ ps) =
    (p ≡ take 13 p ++ c.seal key n x.payload (take 13 p)) × AreSealed c key ns xs ps

-- No entry of the list is `n`.
abbrev pub Avoids : Bytes → List Bytes → Type 0
Avoids n [] = Unit
Avoids n (x ∷ xs) = (n ≢ x) × Avoids n xs

abbrev pub AreDistinct : List Bytes → Type 0
AreDistinct [] = Unit
AreDistinct (x ∷ xs) = Avoids x xs × AreDistinct xs

make_nonce_inj : (m n : ℕ) → m < 2 ^ 64 → n < 2 ^ 64 → make_nonce m ≡ make_nonce n → m ≡ n
unfolding make_nonce
make_nonce_inj m n hm hn e = put_u64_inj m n hm hn (ap (drop 4) e)

-- The nonces of the next packets of a session.
nonces : ℕ → List Sending → List Bytes
nonces tx [] = []
nonces tx (x ∷ xs) = make_nonce (add_u64 tx 1) ∷ nonces (add_u64 tx 1) xs

nonces-above :
    (k tx : ℕ) (xs : List Sending)
    → k ≤ tx
    → tx + length xs < 2 ^ 64
    → Avoids (make_nonce k) (nonces tx xs)
unfolding nonces
nonces-above k tx [] h room = tt
nonces-above k tx (x ∷ xs) h room = (
  λ same. absurd (omega (arith, make_nonce_inj k (add_u64 tx 1) (omega arith) (omega arith) same)),
  nonces-above k (add_u64 tx 1) xs (omega arith) (omega arith),
)

nonces-AreDistinct :
    (tx : ℕ) (xs : List Sending) → tx + length xs < 2 ^ 64 → AreDistinct (nonces tx xs)
unfolding nonces
nonces-AreDistinct tx [] room = tt
nonces-AreDistinct tx (x ∷ xs) room = (
  nonces-above (add_u64 tx 1) (add_u64 tx 1) xs (omega arith) (omega arith),
  nonces-AreDistinct (add_u64 tx 1) xs (omega arith),
)

module _ (c : Crypto) where
  send_encrypted-key :
      (s : Session) (m : Metrics) (typ : ℕ) (payload : Bytes) (written : Bool)
      → (send_encrypted c s m typ payload written).0.tx_aead ≡ s.tx_aead
  unfolding send_encrypted
  send_encrypted-key s m typ payload true = refl
  send_encrypted-key s m typ payload false = refl

  sealed_packet_lem :
      (s : Session) (typ : ℕ) (payload : Bytes)
      → let p = sealed_packet c s typ payload in
        p ≡ take 13 p ++ c.seal s.tx_aead (make_nonce (add_u64 s.tx 1)) payload (take 13 p)
  unfolding sealed_packet header put_u64
  sealed_packet_lem s typ payload = refl

  packets-AreSealed :
      (s : Session) (m : Metrics) (xs : List Sending)
      → AreSealed c s.tx_aead (nonces s.tx xs) xs (packets c s m xs)
  unfolding packets nonces AreSealed
  packets-AreSealed s m [] = tt
  packets-AreSealed s m (x ∷ xs) =
      let (s', m', packet) = send_encrypted c s m x.typ x.payload x.written in
      let (next, same) = send_encrypted_lem c s m x.typ x.payload x.written in
      let key = send_encrypted-key s m x.typ x.payload x.written in
      (
        rw same (sealed_packet_lem s x.typ x.payload),
        subst (λ k. AreSealed c k (nonces (add_u64 s.tx 1) xs) xs (packets c s' m' xs)) key
            (subst (λ n. AreSealed c s'.tx_aead (nonces n xs) xs (packets c s' m' xs)) next
              (packets-AreSealed s' m' xs)),
      )

  -- As long as a session has sent fewer than 2 ^ 64 packets: whether or not the carrier took them, there
  -- are nonces, no two of them the same, such that each packet is its header and the
  -- payload sealed under its nonce, the session's key and that header.
  pub packets-AreDistinct :
      (s : Session) (m : Metrics) (xs : List Sending)
      → s.tx + length xs < 2 ^ 64
      → (ns : List Bytes) × AreSealed c s.tx_aead ns xs (packets c s m xs) × AreDistinct ns
  packets-AreDistinct s m xs room =
      (nonces s.tx xs, packets-AreSealed s m xs, nonces-AreDistinct s.tx xs room)
