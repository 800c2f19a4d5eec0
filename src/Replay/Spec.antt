-- ===== src/Replay/Spec.antt =====
-- The window's contract: the set of accepted counters, kept whole.
use hashshashin.Base.{
  ℕ, ◌+◌, ◌≤◌, ◌<◌, max, ◌≡◌, ◌≢◌, refl, Bool, true, false, not, ◌&&◌, ◌||◌, List, [], ◌∷◌, arith,
  ltb, ◌==◌,
}

unfoldable pub contains : ℕ → List ℕ → Bool
contains c [] = false
contains c (x ∷ xs) = (c == x) || contains c xs

unfoldable pub newest : List ℕ → ℕ
newest [] = 0
newest (x ∷ xs) = max x (newest xs)

-- A counter is acceptable if it is not 0, was not accepted before, and is less than 64 behind the
-- newest.
abbrev pub is_fresh : List ℕ → ℕ → Bool
is_fresh seen c = not (c == 0) && (not (contains c seen) && ltb (newest seen) (c + 64))

-- No counter stands twice, and none is 0.
abbrev pub IsDistinct : List ℕ → Type 0
IsDistinct [] = Unit
IsDistinct (x ∷ xs) = (x ≢ 0) × (contains x xs ≡ false) × IsDistinct xs

pub contains-le-newest : (c : ℕ) (xs : List ℕ) → contains c xs ≡ true → c ≤ newest xs
unfolding contains newest
contains-le-newest c [] h = ground arith
contains-le-newest c (x ∷ xs) h = ground (arith, contains-le-newest c xs)

pub contains-above : (c : ℕ) (xs : List ℕ) → newest xs < c → contains c xs ≡ false
unfolding contains newest
contains-above c [] h = refl
contains-above c (x ∷ xs) h = ground (arith, contains-above c xs)

pub contains-zero : (xs : List ℕ) → IsDistinct xs → contains 0 xs ≡ false
unfolding contains
contains-zero [] h = refl
contains-zero (x ∷ xs) h = ground (arith, contains-zero xs)

pub newest_pos : (xs : List ℕ) → IsDistinct xs → newest xs ≡ 0 → xs ≡ []
unfolding newest
newest_pos [] h e = refl
newest_pos (x ∷ xs) h e = ground arith

pub newest_mem : (x : ℕ) (xs : List ℕ) → contains (newest (x ∷ xs)) (x ∷ xs) ≡ true
unfolding contains newest
newest_mem x [] = ground arith
newest_mem x (y ∷ ys) = ground (arith, newest_mem y ys)
