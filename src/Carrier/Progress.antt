-- ===== src/Carrier/Progress.antt =====
-- Writing succeeds as long as the connection goes on taking bytes.
use hashshashin.Base.{
  ℕ, zero, suc, ◌+◌, ◌^◌, ◌%◌, ◌≤◌, ◌≡◌, refl, Bool, true, false, ◌||◌, List, [], ◌∷◌, some, arith,
  ltb, ◌==◌, length, drop, length-drop,
}
use hashshashin.Base.Bytes.{Bytes, put_u32, length-put_u32}
use hashshashin.Carrier.{
  max_carrier_frame, Conn, WriteResult, took, broke, Turn, reuse, ensure_conn, write_all,
  write_body, write_frame, done, attempt_over, attempt_on, attempt, after_attempt, write_attempts,
  write_packet,
}
use hashshashin.Carrier.Frames.{Fits, holding}

-- The next k calls of Write each take a byte at least.
abbrev pub Accepting : ℕ → List WriteResult → Type 0
Accepting zero ws = Unit
Accepting (suc k) [] = ⊥
Accepting (suc k) (broke n ∷ ws) = ⊥
Accepting (suc k) (took n ∷ ws) = (1 ≤ n) × Accepting k ws

Accepting-fewer : (j k : ℕ) (ws : List WriteResult) → j ≤ k → Accepting k ws → Accepting j ws
Accepting-fewer zero k ws below h = tt
Accepting-fewer (suc j) zero ws below h = absurd (omega arith)
Accepting-fewer (suc j) (suc k) [] below h = elim h [ ]
Accepting-fewer (suc j) (suc k) (broke n ∷ ws) below h = elim h [ ]
Accepting-fewer (suc j) (suc k) (took n ∷ ws) below (some_byte, h) =
    (some_byte, Accepting-fewer j k ws (omega arith) h)

-- All is written, and j calls are left that take bytes.
abbrev Done : ℕ → Bool × Conn → Type 0
Done j r = (r.0 ≡ true) × Accepting j r.1.writes

write_all-Done :
    (j k : ℕ) (p : Bytes) (ws : List WriteResult) (conn : Conn)
    → j + length p ≤ k
    → Accepting k ws
    → Done j (write_all p ws conn)
unfolding write_all
write_all-Done j k [] ws conn below h = (refl, Accepting-fewer j k ws (omega arith) h)
write_all-Done j zero (b ∷ bs) ws conn below h = absurd (omega arith)
write_all-Done j (suc k) (b ∷ bs) [] conn below h = elim h [ ]
write_all-Done j (suc k) (b ∷ bs) (broke n ∷ ws) conn below h = elim h [ ]
write_all-Done j (suc k) (b ∷ bs) (took n ∷ ws) conn below (some_byte, h) =
    let stuck : n == 0 ≡ false = ground arith in
    rw stuck (write_all-Done j k (drop n (b ∷ bs)) ws _ (omega (arith, length-drop n (b ∷ bs))) h)

write_body-Done : (p : Bytes) (r : Bool × Conn) → Done (length p) r → Done 0 (write_body p r)
unfolding write_body
write_body-Done p (true, conn) (ok, h) =
    write_all-Done 0 (length p) p conn.writes conn (omega arith) h
write_body-Done p (false, conn) (ok, h) = cc

-- On an open carrier whose connection takes a byte at least in each of the next calls of Write, as many
-- as the frame has bytes, WritePacket succeeds.
pub write_packet-done :
    (first second : Turn) (p : Bytes) (conn : Conn)
    → Fits max_carrier_frame p
    → Accepting (4 + length p) conn.writes
    → (write_packet first second p (holding conn)).0 ≡ done
unfolding write_packet write_attempts attempt ensure_conn reuse attempt_on write_frame after_attempt
    attempt_over
write_packet-done first second p conn (some_byte, (below, same)) h =
    let good : (length p == 0) || ltb max_carrier_frame (length p) ≡ false = ground arith in
    let hdr = put_u32 (length p % 2 ^ 32) in
    let header =
      write_all-Done (length p) (4 + length p) hdr conn.writes conn
        (omega (arith, length-put_u32 (length p % 2 ^ 32))) h in
    let (ok, more) = write_body-Done p (write_all hdr conn.writes conn) header in
    rw good (go (write_body p (write_all hdr conn.writes conn)) ok)
  where
    go :
        (r : Bool × Conn)
        → r.0 ≡ true
        → (after_attempt
            (write_attempts (second ∷ []) p)
            (let (ok, s) = attempt_over r.0 r.1 (holding r.1) in (some ok, s))).0
          ≡ done
    go (true, c) e = refl
    go (false, c) e = cc
