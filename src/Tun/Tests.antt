-- ===== src/Tun/Tests.antt =====
-- A kernel that refuses the third queue, and a device with three queues.
use hashshashin.Base.{
  ℕ, ◌+◌, ◌^◌, ◌%◌, ◌≡◌, [], ◌∷◌, Option, none, some, arith, ltb, if◌then◌else◌, get_elem?,
}
use hashshashin.Base.Int.{pos}
use hashshashin.Tun.{TunDevice, open_tun, write_many}
use hashshashin.Tun.Queues.{wanted, IsOpened, opened_by, open_tun-IsOpened, write_many-get_elem?}

-- The file of a call is its number.
abbrev two_only : ℕ → Option ℕ
two_only i = if ltb i 2 then some i else none

abbrev one_more : ℕ → Option ℕ
one_more i = some (7 + i)

abbrev device : TunDevice ℕ
device = record { queues = 0 ∷ 1 ∷ 2 ∷ []; write_count = 0 }

open_tun-IsOpened_example :
    IsOpened
      (wanted (pos 4))
      (opened_by two_only (wanted (pos 4)) 0)
      (opened_by one_more 1 0)
      (open_tun two_only one_more (pos 4)).queues
      (open_tun two_only one_more (pos 4)).closed
open_tun-IsOpened_example = open_tun-IsOpened two_only one_more (pos 4)

write_many-get_elem?_example :
    (f : ℕ) × ((write_many 4 device ≡ some f)
      × (get_elem? device.queues ((0 + 4) % 2 ^ 32 % 3) ≡ some f))
write_many-get_elem?_example = write_many-get_elem? 4 device (omega arith) (omega arith)
