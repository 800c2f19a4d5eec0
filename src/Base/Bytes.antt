-- ===== src/Base/Bytes.antt =====
-- Byte strings as lists of numbers below 256, and encoding/binary's big-endian words.
use Prim.Native.Char.{code}
use hashshashin.Base.{
  ℕ, ◌+◌, ◌*◌, ◌/◌, ◌%◌, ◌^◌, ◌<◌, String, ◌≡◌, refl, Bool, true, false, ◌&&◌, List, [], ◌∷◌, arith,
  ◌==◌, length,
}

abbrev pub Bytes : Type 0
Bytes = List ℕ

-- []byte(s) of an ASCII text.
abbrev pub codes : String → Bytes
codes String.[] = []
codes (String.◌∷◌ c s) = code c ∷ codes s

abbrev pub IsBytes : Bytes → Type 0
IsBytes [] = Unit
IsBytes (b ∷ bs) = (b < 256) × IsBytes bs

-- bytes.Equal, == on arrays, hmac.Equal.
unfoldable pub bytes_eq : Bytes → Bytes → Bool
bytes_eq [] [] = true
bytes_eq [] (b ∷ bs) = false
bytes_eq (a ∷ xs) [] = false
bytes_eq (a ∷ xs) (b ∷ bs) = (a == b) && bytes_eq xs bs

pub bytes_eq_refl : (xs : Bytes) → bytes_eq xs xs ≡ true
unfolding bytes_eq
bytes_eq_refl [] = refl
bytes_eq_refl (x ∷ xs) = ground (arith, bytes_eq_refl xs)

pub bytes_eq→eq : (xs ys : Bytes) → bytes_eq xs ys ≡ true → xs ≡ ys
unfolding bytes_eq
bytes_eq→eq [] [] h = refl
bytes_eq→eq [] (y ∷ ys) h = cc
bytes_eq→eq (x ∷ xs) [] h = cc
bytes_eq→eq (x ∷ xs) (y ∷ ys) h = ground (arith, bytes_eq→eq xs ys)

-- binary.BigEndian.PutUint64 and Uint64.
unfoldable pub put_u64 : ℕ → Bytes
put_u64 n =
    n / 2 ^ 56 % 256
    ∷ n / 2 ^ 48 % 256
    ∷ n / 2 ^ 40 % 256
    ∷ n / 2 ^ 32 % 256
    ∷ n / 2 ^ 24 % 256
    ∷ n / 2 ^ 16 % 256
    ∷ n / 2 ^ 8 % 256
    ∷ n % 256
    ∷ []

unfoldable pub put_u32 : ℕ → Bytes
put_u32 n = n / 2 ^ 24 % 256 ∷ n / 2 ^ 16 % 256 ∷ n / 2 ^ 8 % 256 ∷ n % 256 ∷ []

get_from : ℕ → Bytes → ℕ
get_from acc [] = acc
get_from acc (b ∷ bs) = get_from (acc * 256 + b) bs

-- Both read all the bytes given: 8 of them, or 4.
unfoldable pub get_be : Bytes → ℕ
unfolding get_from
get_be bs = get_from 0 bs

pub get_be-put_u64 : (n : ℕ) → n < 2 ^ 64 → get_be (put_u64 n) ≡ n
unfolding get_be put_u64
get_be-put_u64 n h = omega arith

pub get_be-put_u32 : (n : ℕ) → n < 2 ^ 32 → get_be (put_u32 n) ≡ n
unfolding get_be put_u32
get_be-put_u32 n h = omega arith

pub length-put_u64 : (n : ℕ) → length (put_u64 n) ≡ 8
unfolding put_u64
length-put_u64 n = refl

pub length-put_u32 : (n : ℕ) → length (put_u32 n) ≡ 4
unfolding put_u32
length-put_u32 n = refl

-- A word that fits is determined by its bytes.
pub put_u64_inj : (m n : ℕ) → m < 2 ^ 64 → n < 2 ^ 64 → put_u64 m ≡ put_u64 n → m ≡ n
put_u64_inj m n hm hn e = ground (arith, get_be-put_u64 m hm, get_be-put_u64 n hn)
