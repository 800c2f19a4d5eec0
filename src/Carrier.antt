-- ===== src/Carrier.antt =====
-- carrier.go, `streamCarrier`: packets over a stream, each after its length in four bytes.
-- What happens outside is a list of turns, one for each round of a loop; locks are left out, and what
-- a concurrent Close can do during a dial is part of the turn.
pub mod Frames
pub mod Writing
pub mod Progress
pub mod Udp
pub mod Open
mod Tests
use hashshashin.Base.{
  ℕ, ◌+◌, ◌*◌, ◌^◌, ◌-◌, ◌%◌, Bool, true, false, not, ◌&&◌, ◌||◌, List, [], ◌∷◌, ◌++◌, Option, none,
  some, leb, ltb, ◌==◌, if◌then◌else◌, length, take, drop, min,
}
use hashshashin.Base.Bytes.{Bytes, put_u32, get_be}

-- 1 << 20.
abbrev pub max_carrier_frame : ℕ
max_carrier_frame = 1048576

-- What a call of Write returns: the number of bytes taken, or an error after so many were taken.
pub data WriteResult : Type 0 where
  took broke : ℕ → WriteResult

-- A net.Conn: `incoming` is all that it will deliver before it fails, `writes` what its calls of Write
-- will return, and `sent` all that it has taken.
pub record Conn : Type 0 where
  pub id : ℕ
  pub incoming : Bytes
  pub writes : List WriteResult
  pub sent : Bytes

pub record StreamCarrier : Type 0 where
  pub closed : Bool
  pub conn : Option Conn

-- What one round of a loop meets: the result of Accept or of the dialer, whether Close ran
-- meanwhile, and whether the context has ended when the round asks.
pub record Turn : Type 0 where
  pub dialed : Option Conn
  pub closed_meanwhile : Bool
  pub cancelled : Bool

connect : Turn → Option Conn → StreamCarrier → Option Conn × StreamCarrier
connect t none s = (none, record s { closed = s.closed || t.closed_meanwhile })
connect t (some conn) s =
    if t.closed_meanwhile
    then (none, record s { closed = true })
    else (some conn, record s { conn = some conn })

reuse : Turn → Option Conn → StreamCarrier → Option Conn × StreamCarrier
unfolding connect
reuse t (some conn) s = (some conn, s)
reuse t none s = connect t t.dialed s

unfoldable pub ensure_conn : Turn → StreamCarrier → Option Conn × StreamCarrier
unfolding reuse
ensure_conn t s = if s.closed then (none, s) else reuse t s.conn s

reset_held : Conn → Option Conn → StreamCarrier → StreamCarrier
reset_held conn none s = s
reset_held conn (some held) s = if held.id == conn.id then record s { conn = none } else s

unfoldable pub reset_conn : Conn → StreamCarrier → StreamCarrier
unfolding reset_held
reset_conn conn s = reset_held conn s.conn s

-- io.ReadFull: all of the bytes, or an error.
unfoldable pub read_full : ℕ → Bytes → Option (Bytes × Bytes)
read_full n incoming =
    if leb n (length incoming) then some (take n incoming, drop n incoming) else none

pub data Received : Type 0 where
  packet : Bytes → Received
  invalid_length : ℕ → Received
  ended : Received

-- A round that returns, or one that goes on.
pub data ReadRound : Type 0 where
  returns : Received → StreamCarrier → ReadRound
  continues : StreamCarrier → ReadRound

store_conn : StreamCarrier → Conn → StreamCarrier
store_conn s conn = record s { conn = some conn }

-- The second half of a round, after a header that announces n bytes.
read_body : Conn → Option (Bytes × Bytes) → StreamCarrier → ReadRound
unfolding store_conn
read_body conn none s = continues (reset_conn conn s)
read_body conn (some (p, rest)) s =
    returns (packet p) (store_conn s (record conn { incoming = rest }))

read_frame : ℕ → Turn → Conn → Option (Bytes × Bytes) → StreamCarrier → ReadRound
unfolding read_body
read_frame room t conn none s =
    if t.cancelled then returns ended (reset_conn conn s) else continues (reset_conn conn s)
read_frame room t conn (some (hdr, rest)) s =
    let n = get_be hdr in
    if leb n 0 || (ltb max_carrier_frame n || ltb room n)
    then returns (invalid_length n) (reset_conn conn s)
    else read_body (record conn { incoming = rest }) (read_full n rest) s

read_on : ℕ → Turn → Option Conn × StreamCarrier → ReadRound
unfolding read_frame
read_on room t (none, s) = if t.cancelled then returns ended s else continues s
read_on room t (some conn, s) = read_frame room t conn (read_full 4 conn.incoming) s

-- One round of the loop of ReadPacket, for a buffer of `room` bytes.
unfoldable pub read_round : ℕ → Turn → StreamCarrier → ReadRound
unfolding read_on
read_round room t s = read_on room t (ensure_conn t s)

after_round :
    (StreamCarrier → Option (Received × StreamCarrier))
    → ReadRound
    → Option (Received × StreamCarrier)
after_round again (returns r s) = some (r, s)
after_round again (continues s) = again s

-- ReadPacket over the turns that it meets; none while it still waits.
unfoldable pub read_packet : ℕ → List Turn → StreamCarrier → Option (Received × StreamCarrier)
unfolding after_round
read_packet room [] s = none
read_packet room (t ∷ ts) s = after_round (read_packet room ts) (read_round room t s)

-- writeAll: whether all was written, and the connection afterwards.
unfoldable pub write_all : Bytes → List WriteResult → Conn → Bool × Conn
write_all [] ws conn = (true, record conn { writes = ws })
write_all (b ∷ bs) [] conn = (false, record conn { writes = [] })
write_all (b ∷ bs) (broke n ∷ ws) conn =
    (false, record conn { writes = ws; sent = conn.sent ++ take n (b ∷ bs) })
write_all (b ∷ bs) (took n ∷ ws) conn =
    let p = b ∷ bs in
    let rest = write_all (drop n p) ws (record conn { sent = conn.sent ++ take n p }) in
    if n == 0 then (false, record conn { writes = ws }) else rest

-- The header, then the packet; false if either write failed.
write_body : Bytes → Bool × Conn → Bool × Conn
write_body p (false, conn) = (false, conn)
write_body p (true, conn) = write_all p conn.writes conn

unfoldable pub write_frame : Bytes → Conn → Bool × Conn
unfolding write_body
write_frame p conn = write_body p (write_all (put_u32 (length p % 2 ^ 32)) conn.writes conn)

pub data Written : Type 0 where
  done bad_length no_conn failed : Written

-- The end of an attempt on the connection as it is now: it is kept, or closed before the next attempt.
attempt_over : Bool → Conn → StreamCarrier → Bool × StreamCarrier
attempt_over true conn s = (true, s)
attempt_over false conn s = (false, reset_conn conn s)

-- The carrier holds the connection by a pointer: what was written to it is seen there.
attempt_on : Bytes → Option Conn × StreamCarrier → Option Bool × StreamCarrier
unfolding attempt_over store_conn
attempt_on p (none, s) = (none, s)
attempt_on p (some conn, s) =
    let (whole, written) = write_frame p conn in
    let (ok, s') = attempt_over whole written (store_conn s written) in (some ok, s')

-- One round of the loop of WritePacket: none if there is no connection.
unfoldable pub attempt : Turn → Bytes → StreamCarrier → Option Bool × StreamCarrier
unfolding attempt_on
attempt t p s = attempt_on p (ensure_conn t s)

after_attempt :
    (StreamCarrier → Written × StreamCarrier)
    → Option Bool × StreamCarrier
    → Written × StreamCarrier
after_attempt again (none, s) = (no_conn, s)
after_attempt again (some true, s) = (done, s)
after_attempt again (some false, s) = again s

-- The loop, over the turns that are left to it.
unfoldable pub write_attempts : List Turn → Bytes → StreamCarrier → Written × StreamCarrier
unfolding after_attempt
write_attempts [] p s = (failed, s)
write_attempts (t ∷ ts) p s = after_attempt (write_attempts ts p) (attempt t p s)

-- WritePacket, with the turns of its two rounds.
unfoldable pub write_packet : Turn → Turn → Bytes → StreamCarrier → Written × StreamCarrier
write_packet first second p s =
    if (length p == 0) || ltb max_carrier_frame (length p)
    then (bad_length, s)
    else write_attempts (first ∷ second ∷ []) p s

-- The error of closing the connection, if one is held, else that of closing the listener, if there is
-- one.
close_error {ℓ} : {E : Type ℓ} → Option E → Option Conn → Option E → Option E
close_error conn_error none listener_error = listener_error
close_error none (some conn) listener_error = listener_error
close_error (some e) (some conn) listener_error = some e

unfoldable pub close {ℓ} :
    {E : Type ℓ} → Option E → Option E → StreamCarrier → Option E × StreamCarrier
unfolding close_error
close conn_error listener_error s =
    (close_error conn_error s.conn listener_error, record { closed = true; conn = none })
