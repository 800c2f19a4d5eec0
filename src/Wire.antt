-- ===== src/Wire.antt =====
-- transport.go, crypto.go, direct_probe.go: the packet formats.
use hashshashin.Base.{ℕ, ◌+◌, ◌∷◌, ◌++◌, replicate}
use hashshashin.Base.Bytes.{Bytes, codes, put_u64}
use hashshashin.Crypto.{Crypto}
use hashshashin.Clock.{unix_u64}

abbrev pub magic : Bytes
magic = codes "HSH1"

abbrev pub msg_hello : ℕ
msg_hello = 1

abbrev pub msg_hello_ack : ℕ
msg_hello_ack = 2

abbrev pub msg_data : ℕ
msg_data = 3

abbrev pub msg_keepalive : ℕ
msg_keepalive = 4

abbrev pub msg_direct_probe_ack : ℕ
msg_direct_probe_ack = 5

-- append(p, h.Sum(nil)...) for the HMAC of p.
unfoldable pub signed : Crypto → Bytes → Bytes → Bytes
signed c key p = p ++ c.hmac key p

abbrev pub hello_body : ℕ → Bytes → Bytes
hello_body now cn = magic ++ (msg_hello ∷ put_u64 (unix_u64 now) ++ cn)

-- `makeHello` at time `now`; `cn` has 32 bytes.
unfoldable pub make_hello : Crypto → Bytes → ℕ → Bytes → Bytes
unfolding signed
make_hello c key now cn = signed c key (hello_body now cn)

abbrev pub hello_ack_body : Bytes → Bytes → Bytes
hello_ack_body cn sn = magic ++ (msg_hello_ack ∷ cn ++ sn)

unfoldable pub make_hello_ack : Crypto → Bytes → Bytes → Bytes → Bytes
unfolding signed
make_hello_ack c key cn sn = signed c key (hello_ack_body cn sn)

-- The 12 bytes of a GCM nonce.
unfoldable pub make_nonce : ℕ → Bytes
make_nonce counter = replicate 4 0 ++ put_u64 counter

-- The 13 bytes before the ciphertext, which GCM authenticates.
unfoldable pub header : ℕ → ℕ → Bytes
header typ counter = magic ++ (typ ∷ put_u64 counter)

abbrev pub probe_magic : Bytes
probe_magic = codes "HDP1"

abbrev pub probe_size : ℕ
probe_size = 4 + 8 + 16 + 32

abbrev pub probe_body : ℕ → Bytes → Bytes
probe_body now nonce = probe_magic ++ (put_u64 (unix_u64 now) ++ nonce)

-- `makeDirectProbe` with the 16 random bytes `nonce`.
unfoldable pub make_direct_probe : Crypto → Bytes → ℕ → Bytes → Bytes
unfolding signed
make_direct_probe c key now nonce = signed c key (probe_body now nonce)
