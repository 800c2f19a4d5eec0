-- ===== src/Crypto.antt =====
-- What the source takes from crypto/hmac, crypto/aes and crypto/cipher. Keys, nonces and messages
-- are byte strings, and a GCM object is the key that it was made from.
pub mod Toy
use hashshashin.Base.{ℕ, ◌+◌, ◌≡◌, Option, none, some, length}
use hashshashin.Base.Bytes.{Bytes}

-- The documented behaviour: HMAC-SHA256 sums have 32 bytes; GCM adds a tag of 16 bytes and opens
-- what it sealed under the same key, nonce and additional data.
pub record Crypto : Type 0 where
  pub hmac : Bytes → Bytes → Bytes
  pub seal : Bytes → Bytes → Bytes → Bytes → Bytes
  pub unseal : Bytes → Bytes → Bytes → Bytes → Option Bytes
  pub length-hmac : (key message : Bytes) → length (hmac key message) ≡ 32
  pub length-seal :
      (key nonce plain extra : Bytes) → length (seal key nonce plain extra) ≡ length plain + 16
  pub unseal-seal :
      (key nonce plain extra : Bytes)
      → unseal key nonce (seal key nonce plain extra) extra ≡ some plain
