-- ===== src/Probe/Verify.antt =====
-- What `verifyDirectProbe` accepts.
use hashshashin.Base.{
  ℕ, ◌≡◌, refl, true, some, arith, length, take, drop, slice, length-append, take-append_length,
  drop-append_length,
}
use hashshashin.Base.Bytes.{Bytes, bytes_eq, put_u64, get_be, bytes_eq_refl, bytes_eq→eq}
use hashshashin.Crypto.{Crypto}
use hashshashin.Clock.{unix_u64, is_recent}
use hashshashin.Wire.{probe_magic, probe_size, probe_body, make_direct_probe}
use hashshashin.Tunnel.Handshake.Agreement.{IsTimely, is_recent-unix}
use hashshashin.Probe.{verify_direct_probe}

pub record ProbeFields (c : Crypto) (key : Bytes) (now : ℕ) (nonce p : Bytes) : Type 0 where
  pub size : length p ≡ probe_size
  start : take 4 p ≡ probe_magic
  signed_part : take 28 p ≡ probe_body now nonce
  tag : drop 28 p ≡ c.hmac key (probe_body now nonce)
  stamp : slice 4 12 p ≡ put_u64 (unix_u64 now)
  random : slice 12 28 p ≡ nonce

pub make_direct_probe-ProbeFields :
    (c : Crypto) (key : Bytes) (now : ℕ) (nonce : Bytes)
    → length nonce ≡ 16
    → ProbeFields c key now nonce (make_direct_probe c key now nonce)
unfolding make_direct_probe put_u64
make_direct_probe-ProbeFields c key now nonce h =
    let tag = c.hmac key (probe_body now nonce) in
    record {
      size = omega (arith, length-append nonce tag, c.length-hmac key (probe_body now nonce));
      start = refl;
      signed_part = rw (take-append_length nonce tag {n = 16} h);
      tag = drop-append_length nonce tag {n = 16} h;
      stamp = refl;
      random = take-append_length nonce tag {n = 16} h;
    }

-- A probe whose nonce has 16 bytes is accepted under the key that it was made with, by a clock within
-- 90 seconds of its maker's, and its nonce is read back.
pub verify-make_direct_probe :
    (c : Crypto) (key : Bytes) (sent now : ℕ) (nonce : Bytes)
    → length nonce ≡ 16
    → IsTimely sent now
    → verify_direct_probe c key now (make_direct_probe c key sent nonce) ≡ some nonce
unfolding verify_direct_probe bytes_eq
verify-make_direct_probe c key sent now nonce h timely =
    let f = make_direct_probe-ProbeFields c key sent nonce h in
    rw (
      f.size,
      f.start,
      f.signed_part,
      f.tag,
      bytes_eq_refl (c.hmac key (probe_body sent nonce)),
      f.stamp,
      is_recent-unix sent now timely,
      f.random,
      verify_direct_probe,
    )

-- What an accepted packet is.
pub record IsProbe (c : Crypto) (key : Bytes) (now : ℕ) (nonce p : Bytes) : Type 0 where
  pub size : length p ≡ probe_size
  pub start : take 4 p ≡ probe_magic
  pub tag : drop 28 p ≡ c.hmac key (take 28 p)
  pub recent : is_recent now (get_be (slice 4 12 p)) ≡ true
  pub random : nonce ≡ slice 12 28 p

pub verify_direct_probe-IsProbe :
    (c : Crypto) (key : Bytes) (now : ℕ) (p nonce : Bytes)
    → verify_direct_probe c key now p ≡ some nonce
    → IsProbe c key now nonce p
unfolding verify_direct_probe
verify_direct_probe-IsProbe c key now p nonce h =
    let magic = bytes_eq→eq (take 4 p) probe_magic in
    let tag = bytes_eq→eq (c.hmac key (take 28 p)) (drop 28 p) in ground (arith, magic, tag)
