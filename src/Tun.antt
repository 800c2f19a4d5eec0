-- ===== src/Tun.antt =====
-- tun_linux.go: opening the queues of the TUN device, and the choice of a queue for each packet. An
-- *os.File is of any type F; openTunQueue, which asks the kernel, is a parameter: for each call in
-- turn, the file or nothing.
pub mod Queues
mod Tests
use hashshashin.Base.{
  ℕ, zero, suc, ◌+◌, ◌-◌, ◌^◌, ◌%◌, ◌*◌, Bool, true, false, not, ◌||◌, List, [], ◌∷◌, ◌++◌, Option,
  none, some, leb, ◌==◌, if◌then◌else◌, length, get_elem?,
}
use hashshashin.Base.Int.{ℤ, pos, pos_part, ltb_ℤ}

-- The device that was opened, if any, and the files that were closed again.
pub record Opened {ℓ} (F : Type ℓ) : Type ℓ where
  pub queues : Option (List F)
  pub closed : List F

pub record TunDevice {ℓ} (F : Type ℓ) : Type ℓ where
  pub queues : List F
  pub write_count : ℕ

-- `if queueCount < 1 { queueCount = 1 }`.
unfoldable pub queue_count : ℤ → ℕ
queue_count count = pos_part (if ltb_ℤ count (pos 1) then pos 1 else count)

module _ {ℓ} {F : Type ℓ} where
  after_queue : (List F → Opened F) → List F → Option F → Opened F
  after_queue more files none = record { queues = none; closed = files }
  after_queue more files (some f) = more (files ++ f ∷ [])

  -- The loop of openTunWithQueues: how many queues are left to open, the number of the next one and the
  -- files so far.
  unfoldable pub open_queues : (ℕ → Option F) → ℕ → ℕ → List F → Opened F
  unfolding after_queue
  open_queues ask zero i files = record { queues = some files; closed = [] }
  open_queues ask (suc n) i files = after_queue (open_queues ask n (suc i)) files (ask i)

  fall_back : (ℕ → Option F) → ℕ → Option (List F) → List F → Opened F
  fall_back ask_single n (some files) closed = record { queues = some files; closed = closed }
  fall_back ask_single n none closed =
      let again = open_queues ask_single 1 0 [] in
      if n == 1
      then record { queues = none; closed = closed }
      else record { queues = again.queues; closed = closed ++ again.closed }

  -- openTun: what the kernel says to the calls of the first try, and to the single one of the second.
  unfoldable pub open_tun : (ℕ → Option F) → (ℕ → Option F) → ℤ → Opened F
  unfolding fall_back
  open_tun ask ask_single count =
      let n = queue_count count in
      let first = open_queues ask n 0 [] in fall_back ask_single n first.queues first.closed

  -- ReadQueue's file; none is its error.
  unfoldable pub read_queue : TunDevice F → ℤ → Option F
  read_queue t index =
      if ltb_ℤ index (pos 0) || not (ltb_ℤ index (pos (length t.queues)))
      then none
      else get_elem? t.queues (pos_part index)

  -- Write's file, with the 32-bit counter; none is its error, or a panic out of range.
  unfoldable pub write_queue : TunDevice F → Option F × TunDevice F
  write_queue t =
      let n = (t.write_count + 1) % 2 ^ 32 in
      if length t.queues == 0 then (none, t) else (
        get_elem? t.queues ((n + 2 ^ 32 - 1) % 2 ^ 32 % length t.queues),
        record t { write_count = n },
      )

  -- k packets written, then the file of the next one.
  unfoldable pub write_many : ℕ → TunDevice F → Option F
  write_many zero t = (write_queue t).0
  write_many (suc k) t = write_many k (write_queue t).1

  -- Close, with what closing each file returns: the first error, and a device without queues.
  unfoldable pub close_all {κ} : {E : Type κ} → (F → Option E) → List F → Option E
  close_all result [] = none
  close_all result (f ∷ files) =
      let rest = close_all result files in elim (result f) [ none ↦ rest | some e ↦ some e ]

  unfoldable pub close {κ} : {E : Type κ} → (F → Option E) → TunDevice F → Option E × TunDevice F
  close result t = (close_all result t.queues, record t { queues = [] })
