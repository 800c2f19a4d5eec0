-- ===== src/Base/Lists.antt =====
-- Lists measured and indexed by native numbers, under the library's names.
use Prim.Native.Nat.{ℕ, zero, suc, ◌+◌, ◌-◌, ◌≤◌, min}
use mathlib.Core.Path.{◌≡◌, refl, ap}
use mathlib.Core.List.{List, [], ◌∷◌, ◌++◌}
use mathlib.Core.Option.{Option, none, some}
use native.Mathlib.Omega.{arith}

module _ {ℓ} {A : Type ℓ} where
  abbrev pub length : List A → ℕ
  length [] = 0
  length (x ∷ xs) = suc (length xs)

  abbrev pub get_elem? : List A → ℕ → Option A
  get_elem? [] i = none
  get_elem? (x ∷ xs) zero = some x
  get_elem? (x ∷ xs) (suc i) = get_elem? xs i

  abbrev pub take : ℕ → List A → List A
  take zero xs = []
  take (suc n) [] = []
  take (suc n) (x ∷ xs) = x ∷ take n xs

  abbrev pub drop : ℕ → List A → List A
  drop zero xs = xs
  drop (suc n) [] = []
  drop (suc n) (x ∷ xs) = drop n xs

  -- xs[a:b] of a slice that is long enough.
  abbrev pub slice : ℕ → ℕ → List A → List A
  slice a b xs = take (b - a) (drop a xs)

  abbrev pub replicate : ℕ → A → List A
  replicate zero a = []
  replicate (suc n) a = a ∷ replicate n a

  pub length-append : (xs ys : List A) → length (xs ++ ys) ≡ length xs + length ys
  length-append [] ys = omega arith
  length-append (x ∷ xs) ys = omega (arith, length-append xs ys)

  pub length-take : (n : ℕ) (xs : List A) → length (take n xs) ≡ min n (length xs)
  length-take zero xs = omega arith
  length-take (suc n) [] = omega arith
  length-take (suc n) (x ∷ xs) = omega (arith, length-take n xs)

  pub length-drop : (n : ℕ) (xs : List A) → length (drop n xs) ≡ length xs - n
  length-drop zero xs = omega arith
  length-drop (suc n) [] = omega arith
  length-drop (suc n) (x ∷ xs) = omega (arith, length-drop n xs)

  pub take-append_length : (xs ys : List A) {n : ℕ} → length xs ≡ n → take n (xs ++ ys) ≡ xs
  take-append_length [] ys {n = zero} h = refl
  take-append_length [] ys {n = suc n} h = absurd (omega arith)
  take-append_length (x ∷ xs) ys {n = zero} h = absurd (omega arith)
  take-append_length (x ∷ xs) ys {n = suc n} h =
      ap (◌∷◌ x) (take-append_length xs ys {n = n} (omega arith))

  pub drop-append_length : (xs ys : List A) {n : ℕ} → length xs ≡ n → drop n (xs ++ ys) ≡ ys
  drop-append_length [] ys {n = zero} h = refl
  drop-append_length [] ys {n = suc n} h = absurd (omega arith)
  drop-append_length (x ∷ xs) ys {n = zero} h = absurd (omega arith)
  drop-append_length (x ∷ xs) ys {n = suc n} h = drop-append_length xs ys {n = n} (omega arith)

  pub length-replicate : (n : ℕ) (a : A) → length (replicate n a) ≡ n
  length-replicate zero a = refl
  length-replicate (suc n) a = ap suc (length-replicate n a)

  pub take_all : (xs : List A) {n : ℕ} → length xs ≡ n → take n xs ≡ xs
  take_all [] {n = zero} h = refl
  take_all [] {n = suc n} h = refl
  take_all (x ∷ xs) {n = zero} h = absurd (omega arith)
  take_all (x ∷ xs) {n = suc n} h = ap (◌∷◌ x) (take_all xs {n = n} (omega arith))

  pub take_long : (xs : List A) {n : ℕ} → length xs ≤ n → take n xs ≡ xs
  take_long [] {n = zero} h = refl
  take_long [] {n = suc n} h = refl
  take_long (x ∷ xs) {n = zero} h = absurd (omega arith)
  take_long (x ∷ xs) {n = suc n} h = ap (◌∷◌ x) (take_long xs {n = n} (omega arith))

  pub take-append-drop : (n : ℕ) (xs : List A) → take n xs ++ drop n xs ≡ xs
  take-append-drop zero xs = refl
  take-append-drop (suc n) [] = refl
  take-append-drop (suc n) (x ∷ xs) = ap (◌∷◌ x) (take-append-drop n xs)
