-- ===== src/Replay.antt =====
-- crypto.go, `replayWindow`: the sliding window of 64 counters that refuses a packet seen before.
-- Counters and the bitmap are uint64, kept below 2 ^ 64; the mutex makes each call one step.
pub mod Spec
pub mod Window
pub mod Traces
mod Tests
use hashshashin.Base.{
  ℕ, ◌-◌, ◌*◌, ◌%◌, ◌^◌, bit_and, bit_or, Bool, true, false, not, List, [], ◌∷◌, ltb, leb, ◌==◌,
  if◌then◌else◌,
}

pub record ReplayWindow : Type 0 where
  pub highest : ℕ
  pub bitmap : ℕ

-- `new(session)` leaves the window zeroed.
abbrev pub empty_window : ReplayWindow
empty_window = record { highest = 0; bitmap = 0 }

abbrev pub window_size : ℕ
window_size = 64

-- uint64 `x << k`.
abbrev pub shl64 : ℕ → ℕ → ℕ
shl64 x k = x * 2 ^ k % 2 ^ 64

-- The bitmap after the window moves up by `shift`, with the new counter's own bit set.
pub slide : ℕ → ℕ → ℕ
slide bitmap shift = if leb window_size shift then 1 else bit_or (shl64 bitmap shift) 1

-- A counter at or below `highest`.
pub mark_old : ReplayWindow → ℕ → ReplayWindow × Bool
mark_old r delta =
    if leb window_size delta
    then (r, false)
    else if not (bit_and r.bitmap (shl64 1 delta) == 0)
    then (r, false)
    else (record r { bitmap = bit_or r.bitmap (shl64 1 delta) }, true)

pub accept : ReplayWindow → ℕ → ReplayWindow × Bool
accept r counter =
    if counter == 0
    then (r, false)
    else if r.highest == 0
    then (record { highest = counter; bitmap = 1 }, true)
    else if ltb r.highest counter
    then (record { highest = counter; bitmap = slide r.bitmap (counter - r.highest) }, true)
    else mark_old r (r.highest - counter)

-- A session's receive path feeds counters one after another; the accepted ones, newest first.
pub accept_all : ReplayWindow → List ℕ → List ℕ → ReplayWindow × List ℕ
accept_all r seen [] = (r, seen)
accept_all r seen (c ∷ cs) =
    let (r', fresh) = accept r c in accept_all r' (if fresh then c ∷ seen else seen) cs
