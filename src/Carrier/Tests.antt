-- ===== src/Carrier/Tests.antt =====
-- Two packets sent over one connection and read at its other end.
use hashshashin.Base.{◌≡◌, refl, false, [], ◌∷◌, none, some, arith}
use hashshashin.Base.Bytes.{put_u32}
use hashshashin.Carrier.{Conn, took, broke, Turn, done, packet, read_packet, write_packet}
use hashshashin.Carrier.Frames.{
  frame, stream_of, holding, read_calls, read_calls-stream_of, IsReceived, read_packet-IsReceived,
}
use hashshashin.Carrier.Writing.{AfterWrite, write_packet-AfterWrite}
use hashshashin.Carrier.Progress.{write_packet-done}

abbrev turn : Turn
turn = record { dialed = none; closed_meanwhile = false; cancelled = false }

abbrev redialed : Turn
redialed = record {
  dialed = some (record { id = 2; incoming = []; writes = took 4 ∷ took 2 ∷ []; sent = [] });
  closed_meanwhile = false;
  cancelled = false;
}

-- Takes the header in two calls, and fails within the packet.
abbrev failing : Conn
failing = record {
  id = 1;
  incoming = [];
  writes = took 1 ∷ took 3 ∷ took 1 ∷ broke 1 ∷ [];
  sent = [];
}

abbrev slow : Conn
slow = record {
  id = 1;
  incoming = [];
  writes = took 1 ∷ took 3 ∷ took 1 ∷ took 9 ∷ took 1 ∷ took 1 ∷ [];
  sent = [];
}

abbrev two : Conn
two = record {
  id = 1;
  incoming = 0 ∷ 0 ∷ 0 ∷ 2 ∷ 7 ∷ 8 ∷ 0 ∷ 0 ∷ 0 ∷ 1 ∷ 9 ∷ [];
  writes = [];
  sent = [];
}

read_calls-stream_of_example :
    read_calls 1500 (turn ∷ turn ∷ []) (holding two)
    ≡ some (packet (7 ∷ 8 ∷ []) ∷ packet (9 ∷ []) ∷ [], holding (record two { incoming = [] }))
unfolding stream_of frame put_u32
read_calls-stream_of_example =
    read_calls-stream_of 1500 (turn ∷ turn ∷ []) ((7 ∷ 8 ∷ []) ∷ (9 ∷ []) ∷ []) [] two
      ((omega arith, (omega arith, omega arith)), ((omega arith, (omega arith, omega arith)), tt))
      refl refl

-- A buffer too small for the packet.
read_packet-IsReceived_example : IsReceived 1 (read_packet 1 (turn ∷ []) (holding two))
read_packet-IsReceived_example = read_packet-IsReceived 1 (turn ∷ []) (holding two)

-- The first connection fails halfway, the second takes the packet.
write_packet-AfterWrite_example :
    AfterWrite (7 ∷ 8 ∷ []) (write_packet turn redialed (7 ∷ 8 ∷ []) (holding failing))
unfolding stream_of
write_packet-AfterWrite_example =
    write_packet-AfterWrite turn redialed (7 ∷ 8 ∷ []) (holding failing) tt refl ([], (tt, refl))

write_packet-done_example : (write_packet turn turn (7 ∷ 8 ∷ []) (holding slow)).0 ≡ done
write_packet-done_example =
    write_packet-done turn turn (7 ∷ 8 ∷ []) slow (omega arith, (omega arith, omega arith))
      (omega arith, (omega arith, (omega arith, (omega arith, (omega arith, (omega arith, tt))))))
