-- ===== src/Tunnel/Handshake/Keys.antt =====
-- The two ends of a handshake derive the same two keys and use them crosswise.
use hashshashin.Base.{ℕ, ◌≡◌, String, Bool, ◌++◌, some, arith, length, take_all}
use hashshashin.Base.Bytes.{Bytes, codes}
use hashshashin.Crypto.{Crypto}
use hashshashin.Tunnel.{derive, make_aead, session_with, derive_session}

make_aead_32 : (key : Bytes) → length key ≡ 32 → make_aead key ≡ some key
unfolding make_aead
make_aead_32 key h = ground (arith, take_all key {n = 32} h)

length-derive :
    (c : Crypto) (psk cn sn : Bytes) (label : String) → length (derive c psk cn sn label) ≡ 32
unfolding derive
length-derive c psk cn sn label =
    c.length-hmac psk (codes "hashshashin/v1/" ++ codes label ++ cn ++ sn)

-- With SHA-256 sums as keys the derivation cannot fail.
pub derive_session_lem :
    (c : Crypto) (psk cn sn : Bytes) (peer : String) (initiator : Bool) (address now : ℕ)
    → derive_session c psk cn sn peer initiator address now
      ≡ some (
          session_with
            (derive c psk cn sn "c2s")
            (derive c psk cn sn "s2c")
            peer
            initiator
            address
            now)
unfolding derive_session
derive_session_lem c psk cn sn peer initiator address now =
    let c2s = derive c psk cn sn "c2s" in
    let s2c = derive c psk cn sn "s2c" in
    rw (
      make_aead_32 c2s (length-derive c psk cn sn "c2s"),
      make_aead_32 s2c (length-derive c psk cn sn "s2c"),
      derive_session,
    )
