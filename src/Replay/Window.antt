-- ===== src/Replay/Window.antt =====
-- One call of `accept` against the contract of `Replay.Spec`.
use native.Mathlib.Nat.{mod-eq_of_lt, pow-suc, one-le-pow, pow-le-pow_right}
use hashshashin.Base.{
  ℕ, zero, suc, ◌+◌, ◌-◌, ◌*◌, ◌/◌, ◌%◌, ◌^◌, ◌≤◌, ◌<◌, max, bit_and, bit_or, ◌≡◌, ◌≢◌, refl, sym,
  ap, ◌∙◌, Bool, true, false, ◌||◌, List, [], ◌∷◌, arith, ltb, leb, ◌==◌, if◌then◌else◌, Bool-cases,
  inl, inr, tests, ℕ_discrete, dec_lt,
}
use hashshashin.Base.Bits.{
  bit, bit-lt, bit-zero, bit-bit_or, bit-shift_low, bit-shift_high, bit-mod, bit-pow_self,
  bit-pow_ne, bit_and-pow, bit_or_digit,
}
use hashshashin.Replay.{ReplayWindow, empty_window, window_size, shl64, slide, mark_old, accept}
use hashshashin.Replay.Spec.{contains, newest, is_fresh, IsDistinct, contains-above, newest_pos}

abbrev pub indicator : Bool → ℕ
indicator true = 1
indicator false = 0

-- The window stands for the counters `seen`: digit `d` of the bitmap tells whether the counter
-- `d` behind the newest was accepted.
pub record Represents (seen : List ℕ) (r : ReplayWindow) : Type 0 where
  pub distinct : IsDistinct seen
  pub top : r.highest ≡ newest seen
  pub width : r.bitmap < 2 ^ 64
  pub digits : (d : ℕ) → d < 64 → bit d r.bitmap ≡ indicator (contains (newest seen - d) seen)

bit_or-lt : (w a b : ℕ) → a < 2 ^ w → b < 2 ^ w → bit_or a b < 2 ^ w
bit_or-lt zero a b p q =
    let a0 : a ≡ 0 = omega arith in let b0 : b ≡ 0 = omega arith in rw (a0, b0) (omega arith)
bit_or-lt (suc w) a b p q = omega (
  arith,
  pow-suc 2 w,
  bit_or_digit a b,
  bit_or-lt w (a / 2) (b / 2) (omega (arith, pow-suc 2 w)) (omega (arith, pow-suc 2 w)),
)

pow-lt : (d w : ℕ) → d < w → 2 ^ d < 2 ^ w
pow-lt d w h =
    omega
      (arith, pow-suc 2 d, one-le-pow d 2 (omega arith), pow-le-pow_right {n = 2} (omega arith) h)

shl64_one : (d : ℕ) → d < 64 → shl64 1 d ≡ 2 ^ d
shl64_one d h =
    let one_times : 1 * 2 ^ d ≡ 2 ^ d = omega arith in
    ap (λ t. t % 2 ^ 64) one_times ∙ mod-eq_of_lt (pow-lt d 64 h)

bit_of_one : (d : ℕ) → bit d 1 ≡ (if d == 0 then 1 else 0)
bit_of_one zero = refl
bit_of_one (suc d) = bit-zero d ∙ ground arith

-- The digits after the window moved up by `s`.
slide-bit :
    (b s d : ℕ)
    → 0 < s
    → d < 64
    → bit d (slide b s) ≡ (if d == 0 then 1 else if ltb d s then 0 else bit (d - s) b)
unfolding slide
slide-bit b s d pos h = elim (Bool-cases (leb window_size s)) [
  | inl far ↦ rw far (bit_of_one d ∙ ground arith)
  | inr near ↦
      rw (near, bit-bit_or, bit_of_one, bit-mod d 64 (b * 2 ^ s) h)
        (elim (Bool-cases (ltb d s)) [
          | inl below ↦ ground (arith, bit-shift_low d s b)
          | inr above ↦ ground (arith, bit-shift_high d s b, bit-lt (d - s) b)
        ])
]

slide-lt : (b s : ℕ) → slide b s < 2 ^ 64
unfolding slide
slide-lt b s = ground (arith, bit_or-lt 64 (shl64 b s) 1)

pub empty-Represents : Represents [] empty_window
unfolding newest contains
empty-Represents = record {
  distinct = tt;
  top = refl;
  width = omega arith;
  digits = λ d h. bit-zero d;
}

-- The first counter of a session.
first-Represents : (c : ℕ) → c ≢ 0 → Represents (c ∷ []) (record { highest = c; bitmap = 1 })
unfolding newest contains
first-Represents c ne = record {
  distinct = (ne, refl, tt);
  top = omega arith;
  width = omega arith;
  digits = λ d h. bit_of_one d ∙ ground arith;
}

-- Digit `d` after the move, read from the counters.
ahead_digit :
    (seen : List ℕ) (b c d : ℕ)
    → ((k : ℕ) → k < 64 → bit k b ≡ indicator (contains (newest seen - k) seen))
    → newest seen < c
    → d < 64
    → (if d == 0 then 1 else if ltb d (c - newest seen) then 0 else bit (d - (c - newest seen)) b)
      ≡ indicator ((c - d == c) || contains (c - d) seen)
ahead_digit seen b c d digits above h = elim (Bool-cases (ltb d (c - newest seen))) [
  | inl inside ↦ ground (arith, contains-above (c - d) seen)
  | inr outside ↦
      let same : newest seen - (d - (c - newest seen)) ≡ c - d = ground arith in
      let old : bit (d - (c - newest seen)) b ≡ indicator (contains (c - d) seen) =
        digits (d - (c - newest seen)) (omega arith) ∙ ap (λ k. indicator (contains k seen)) same in
      ground arith
]

-- A counter above the newest.
ahead-Represents :
    (seen : List ℕ) (r : ReplayWindow) (c : ℕ)
    → Represents seen r
    → newest seen < c
    → Represents (c ∷ seen) (record { highest = c; bitmap = slide r.bitmap (c - r.highest) })
unfolding newest contains
ahead-Represents seen r c rep above =
    let tallest : newest (c ∷ seen) ≡ c = omega arith in
    record {
      distinct = (omega arith, contains-above c seen above, rep.distinct);
      top = omega arith;
      width = slide-lt r.bitmap (c - r.highest);
      digits = λ d h.
          slide-bit r.bitmap (c - r.highest) d (omega (arith, rep.top)) h
          ∙ rw rep.top (ahead_digit seen r.bitmap c d rep.digits above h)
          ∙ ap (λ n. indicator (contains (n - d) (c ∷ seen))) (sym tallest);
    }

old_digit :
    (seen : List ℕ) (c d : ℕ)
    → c ≢ 0
    → c ≤ newest seen
    → max (indicator (contains (newest seen - d) seen)) (bit d (2 ^ (newest seen - c)))
      ≡ indicator ((newest seen - d == c) || contains (newest seen - d) seen)
old_digit seen c d ne below = elim (ℕ_discrete d (newest seen - c)) [
  | yes e ↦
      ground (arith, ap (λ k. bit k (2 ^ (newest seen - c))) e, bit-pow_self (newest seen - c))
  | no miss ↦ ground (arith, bit-pow_ne d (newest seen - c) miss)
]

-- A counter at or below the newest, within the window and not seen: its digit is set.
old-Represents :
    (seen : List ℕ) (r : ReplayWindow) (c : ℕ)
    → Represents seen r
    → c ≢ 0
    → c ≤ newest seen
    → newest seen < c + 64
    → contains c seen ≡ false
    → Represents (c ∷ seen) (record r { bitmap = bit_or r.bitmap (2 ^ (newest seen - c)) })
unfolding newest contains
old-Represents seen r c rep ne below near new =
    let tallest : newest (c ∷ seen) ≡ newest seen = omega arith in
    record {
      distinct = (ne, new, rep.distinct);
      top = rep.top ∙ sym tallest;
      width = bit_or-lt 64 _ _ rep.width (pow-lt (newest seen - c) 64 (omega arith));
      digits = λ d h.
          bit-bit_or d r.bitmap (2 ^ (newest seen - c))
          ∙ rw (rep.digits d h) (old_digit seen c d ne below)
          ∙ ap (λ n. indicator (contains (n - d) (c ∷ seen))) (sym tallest);
    }

abbrev pub note_fresh : List ℕ → ℕ → List ℕ
note_fresh seen c = if is_fresh seen c then c ∷ seen else seen

-- The bit test of `mark_old` reads whether the counter was accepted.
mask_test :
    (seen : List ℕ) (r : ReplayWindow) (c : ℕ)
    → Represents seen r
    → c ≤ newest seen
    → newest seen < c + 64
    → bit_and r.bitmap (shl64 1 (newest seen - c))
      ≡ indicator (contains c seen) * 2 ^ (newest seen - c)
mask_test seen r c rep below near =
    let back : newest seen - (newest seen - c) ≡ c = omega arith in
    ap (bit_and r.bitmap) (shl64_one (newest seen - c) (omega arith))
    ∙ bit_and-pow (newest seen - c) r.bitmap
    ∙ ap (λ (k : ℕ). k * 2 ^ (newest seen - c))
        (rep.digits (newest seen - c) (omega arith) ∙ ap (λ k. indicator (contains k seen)) back)

abbrev pub Refines : List ℕ → ℕ → ReplayWindow × Bool → Type 0
Refines seen c (r', ok) = (ok ≡ is_fresh seen c) × Represents (note_fresh seen c) r'

module _ (seen : List ℕ) (r : ReplayWindow) (c : ℕ) (rep : Represents seen r) where
  mark_old_stale :
      c ≤ newest seen
      → (newest seen < c + 64 → contains c seen ≡ true)
      → mark_old r (newest seen - c) ≡ (r, false)
  unfolding mark_old
  mark_old_stale below old = elim (Bool-cases (ltb (newest seen) (c + 64))) [
    | inl near ↦ ground (
      arith,
      mask_test seen r c rep below (omega tests),
      old (omega tests),
      one-le-pow (newest seen - c) 2 (omega arith),
    )
    | inr far ↦ ground arith
  ]

  mark_old_fresh :
      c ≤ newest seen
      → newest seen < c + 64
      → contains c seen ≡ false
      → mark_old r (newest seen - c)
        ≡ (record r { bitmap = bit_or r.bitmap (2 ^ (newest seen - c)) }, true)
  unfolding mark_old
  mark_old_fresh below near new =
      ground (arith, mask_test seen r c rep below near, shl64_one (newest seen - c))

  mark_old-Refines : c ≢ 0 → c ≤ newest seen → Refines seen c (mark_old r (newest seen - c))
  mark_old-Refines ne below = elim (Bool-cases (is_fresh seen c)) [
    | inl fresh ↦
        let near : newest seen < c + 64 = ground arith in
        let new : contains c seen ≡ false = ground arith in
        rw (mark_old_fresh below near new, fresh)
          (refl, old-Represents seen r c rep ne below near new)
    | inr stale ↦ rw (mark_old_stale below (λ near. ground arith), stale) (refl, rep)
  ]

  accept_first : c ≢ 0 → newest seen ≡ 0 → Refines seen c (accept r c)
  unfolding accept contains
  accept_first ne none_yet =
      let empty : seen ≡ [] = newest_pos seen rep.distinct none_yet in
      let runs : accept r c ≡ (record { highest = c; bitmap = 1 }, true) =
        ground (arith, rep.top) in
      let fresh : is_fresh [] c ≡ true = ground arith in
      rw (runs, empty, fresh) (refl, first-Represents c ne)

  accept_ahead : c ≢ 0 → newest seen ≢ 0 → newest seen < c → Refines seen c (accept r c)
  unfolding accept
  accept_ahead ne some_seen above =
      let runs : accept r c
          ≡ (record { highest = c; bitmap = slide r.bitmap (c - r.highest) }, true) =
        ground (arith, rep.top) in
      let fresh : is_fresh seen c ≡ true = ground (arith, contains-above c seen above) in
      rw (runs, fresh) (refl, ahead-Represents seen r c rep above)

  accept_behind : c ≢ 0 → newest seen ≢ 0 → c ≤ newest seen → Refines seen c (accept r c)
  unfolding accept
  accept_behind ne some_seen below =
      let runs : accept r c ≡ mark_old r (newest seen - c) = ground (arith, rep.top) in
      rw runs (mark_old-Refines ne below)

  accept_zero : c ≡ 0 → Refines seen c (accept r c)
  unfolding accept
  accept_zero e =
      let runs : accept r c ≡ (r, false) = ground arith in
      let stale : is_fresh seen c ≡ false = ground arith in rw (runs, stale) (refl, rep)

  -- One call of `accept` answers whether the counter is fresh, and the new window stands for the
  -- counters with this one added if it is.
  pub accept-Refines : Refines seen c (accept r c)
  accept-Refines = elim (ℕ_discrete c 0) [
    | yes e ↦ accept_zero e
    | no ne ↦ elim (ℕ_discrete (newest seen) 0) [
      | yes e ↦ accept_first ne e
      | no some_seen ↦ elim (dec_lt (newest seen) c) [
        | yes above ↦ accept_ahead ne some_seen above
        | no below ↦ accept_behind ne some_seen (omega arith)
      ]
    ]
  ]
