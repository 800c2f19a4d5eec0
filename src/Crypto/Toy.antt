-- ===== src/Crypto/Toy.antt =====
-- A concrete `Crypto` with the documented laws, for running the model: sums and tags are the first
-- bytes of what they cover.
use hashshashin.Base.{
  ℕ, ◌+◌, ◌-◌, ◌≡◌, ◌++◌, Option, none, some, arith, length, take, drop, replicate, length-append,
  length-take, length-replicate, take-append_length, drop-append_length, if◌then◌else◌,
}
use hashshashin.Base.Bytes.{Bytes, bytes_eq, bytes_eq_refl}
use hashshashin.Crypto.{Crypto}

abbrev digest : ℕ → Bytes → Bytes
digest n message = take n (message ++ replicate n 0)

pub length-digest : (n : ℕ) (message : Bytes) → length (digest n message) ≡ n
length-digest n message = omega (
  arith,
  length-take n (message ++ replicate n 0),
  length-append message (replicate n 0),
  length-replicate {A = ℕ} n 0,
)

abbrev toy_seal : Bytes → Bytes → Bytes → Bytes → Bytes
toy_seal key nonce plain extra = plain ++ digest 16 (key ++ (nonce ++ extra))

abbrev toy_unseal : Bytes → Bytes → Bytes → Bytes → Option Bytes
toy_unseal key nonce sealed extra =
    let n = length sealed - 16 in
    if bytes_eq (drop n sealed) (digest 16 (key ++ (nonce ++ extra)))
    then some (take n sealed)
    else none

pub length-toy_seal :
    (key nonce plain extra : Bytes) → length (toy_seal key nonce plain extra) ≡ length plain + 16
length-toy_seal key nonce plain extra =
    let tag = key ++ (nonce ++ extra) in
    omega (arith, length-append plain (digest 16 tag), length-digest 16 tag)

pub toy_unseal-toy_seal :
    (key nonce plain extra : Bytes)
    → toy_unseal key nonce (toy_seal key nonce plain extra) extra ≡ some plain
toy_unseal-toy_seal key nonce plain extra =
    let tag = digest 16 (key ++ (nonce ++ extra)) in
    let cut : length plain ≡ length (toy_seal key nonce plain extra) - 16 =
      omega (arith, length-toy_seal key nonce plain extra) in
    rw (drop-append_length plain tag cut, take-append_length plain tag cut, bytes_eq_refl tag)

abbrev pub toy : Crypto
toy = record {
  hmac = λ key message. digest 32 (key ++ message);
  seal = toy_seal;
  unseal = toy_unseal;
  length-hmac = λ key message. length-digest 32 (key ++ message);
  length-seal = length-toy_seal;
  unseal-seal = toy_unseal-toy_seal;
}
