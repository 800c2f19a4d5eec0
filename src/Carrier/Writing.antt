-- ===== src/Carrier/Writing.antt =====
-- Writing: a connection that the carrier holds has been sent whole frames only.
use hashshashin.Base.{
  ℕ, ◌^◌, ◌%◌, ◌≤◌, ◌≡◌, refl, sym, ap, subst, Bool, true, false, ◌||◌, List, [], ◌∷◌, ◌++◌, Option,
  none, some, arith, ltb, ◌==◌, if◌then◌else◌, length, take, drop, ◌∙◌, append_assoc, append-nil,
  take-append-drop,
}
use hashshashin.Base.Bytes.{Bytes, put_u32}
use hashshashin.Carrier.{
  max_carrier_frame, Conn, WriteResult, took, broke, StreamCarrier, Turn, ensure_conn, reset_conn,
  reset_held, store_conn, write_all, write_body, write_frame, Written, done, bad_length, no_conn,
  failed, attempt_over, attempt_on, attempt, after_attempt, write_attempts, write_packet,
}
use hashshashin.Carrier.Frames.{frame, stream_of, Fits, AllFit, IsFound, ensure_conn-IsFound}

-- What a call of writeAll does, with all written or not.
record Wrote (p : Bytes) (conn : Conn) (r : Bool × Conn) : Type 0 where
  id : r.1.id ≡ conn.id
  all : r.0 ≡ true → r.1.sent ≡ conn.sent ++ p

write_all-Wrote :
    (p : Bytes) (ws : List WriteResult) (conn : Conn) → Wrote p conn (write_all p ws conn)
unfolding write_all
write_all-Wrote [] ws conn = record { id = refl; all = λ ok. sym (append-nil conn.sent) }
write_all-Wrote (b ∷ bs) [] conn = record { id = refl; all = λ ok. cc }
write_all-Wrote (b ∷ bs) (broke n ∷ ws) conn = record { id = refl; all = λ ok. cc }
write_all-Wrote (b ∷ bs) (took n ∷ ws) conn =
    go (n == 0)
      (write_all-Wrote (drop n (b ∷ bs)) ws (record conn { sent = conn.sent ++ take n (b ∷ bs) }))
  where
    p : Bytes
    p = b ∷ bs

    next : Conn
    next = record conn { sent = conn.sent ++ take n p }

    go :
        (stuck : Bool)
        → Wrote (drop n p) next (write_all (drop n p) ws next)
        → Wrote p conn
            (if stuck then (false, record conn { writes = ws }) else write_all (drop n p) ws next)
    go true later = record { id = refl; all = λ ok. cc }
    go false later = record {
      id = later.id;
      all = λ ok.
          later.all ok
          ∙ append_assoc conn.sent (take n p) (drop n p)
          ∙ ap (λ x. conn.sent ++ x) (take-append-drop n p);
    }

write_body-Wrote :
    (hdr p : Bytes) (conn : Conn) (r : Bool × Conn)
    → Wrote hdr conn r
    → Wrote (hdr ++ p) conn (write_body p r)
unfolding write_body
write_body-Wrote hdr p conn (false, c) w = record { id = w.id; all = λ ok. cc }
write_body-Wrote hdr p conn (true, c) w =
    let body = write_all-Wrote p c.writes c in
    record {
      id = body.id ∙ w.id;
      all = λ ok. body.all ok ∙ ap (λ x. x ++ p) (w.all refl) ∙ append_assoc conn.sent hdr p;
    }

write_frame-Wrote :
    (p : Bytes) (conn : Conn)
    → length p ≤ max_carrier_frame
    → Wrote (frame p) conn (write_frame p conn)
unfolding write_frame frame
write_frame-Wrote p conn below =
    let small : length p % 2 ^ 32 ≡ length p = omega arith in
    rw small (
      write_body-Wrote (put_u32 (length p)) p conn _
        (write_all-Wrote (put_u32 (length p)) conn.writes conn))

-- A connection, if one is held, has been sent these frames and no more.
abbrev pub HasSent : List Bytes → Option Conn → Type 0
HasSent ps none = Unit
HasSent ps (some conn) = AllFit max_carrier_frame ps × (conn.sent ≡ stream_of ps)

abbrev pub HoldsFrames : Option Conn → Type 0
HoldsFrames held = (ps : List Bytes) × HasSent ps held

-- Nothing has been sent on a connection that was just made.
abbrev pub IsFresh : Option Conn → Type 0
IsFresh none = Unit
IsFresh (some conn) = conn.sent ≡ []

-- After a success the held connection has been sent the packet last.
abbrev pub AfterWrite : Bytes → Written × StreamCarrier → Type 0
AfterWrite p (done, s) =
    (conn : Conn) × ((ps : List Bytes) × ((s.conn ≡ some conn)
        × HasSent (ps ++ p ∷ []) (some conn)))
AfterWrite p (bad_length, s) = HoldsFrames s.conn
AfterWrite p (no_conn, s) = HoldsFrames s.conn
AfterWrite p (failed, s) = HoldsFrames s.conn

AfterAttempt : Bytes → Option Bool × StreamCarrier → Type 0
AfterAttempt p (some true, s) = AfterWrite p (done, s)
AfterAttempt p (some false, s) = HoldsFrames s.conn
AfterAttempt p (none, s) = HoldsFrames s.conn

stream_of-append :
    (ps : List Bytes) (p : Bytes) → stream_of (ps ++ p ∷ []) ≡ stream_of ps ++ frame p
unfolding stream_of
stream_of-append [] p = append-nil (frame p)
stream_of-append (q ∷ ps) p =
    ap (λ x. frame q ++ x) (stream_of-append ps p)
    ∙ sym (append_assoc (frame q) (stream_of ps) (frame p))

AllFit-append :
    (room : ℕ) (ps : List Bytes) (p : Bytes)
    → AllFit room ps
    → Fits room p
    → AllFit room (ps ++ p ∷ [])
AllFit-append room [] p fit fits = (fits, tt)
AllFit-append room (q ∷ ps) p (first, fit) fits = (first, AllFit-append room ps p fit fits)

-- The attempt ends with the written connection in the carrier.
attempt_over-AfterAttempt :
    (p : Bytes) (conn : Conn) (r : Bool × Conn) (s : StreamCarrier)
    → Fits max_carrier_frame p
    → s.conn ≡ some r.1
    → HoldsFrames (some conn)
    → Wrote (frame p) conn r
    → AfterAttempt p (let (ok, s') = attempt_over r.0 r.1 s in (some ok, s'))
unfolding attempt_over reset_conn reset_held AfterAttempt
attempt_over-AfterAttempt p conn (true, c) s fits held (ps, (fit, sent)) w = (
  c,
  (
    ps,
    (
      held,
      (
        AllFit-append max_carrier_frame ps p fit fits,
        w.all refl ∙ ap (λ x. x ++ frame p) sent ∙ sym (stream_of-append ps p),
      ),
    ),
  ),
)
attempt_over-AfterAttempt p conn (false, c) s fits held frames w =
    let same : c.id == c.id ≡ true = ground arith in rw (held, same) ([], tt)

attempt_on-AfterAttempt :
    (p : Bytes) (found : Option Conn) (s : StreamCarrier)
    → Fits max_carrier_frame p
    → IsFound (found, s)
    → HoldsFrames s.conn
    → AfterAttempt p (attempt_on p (found, s))
unfolding attempt_on store_conn AfterAttempt IsFound
attempt_on-AfterAttempt p none s fits held frames = frames
attempt_on-AfterAttempt p (some conn) s fits held frames =
    attempt_over-AfterAttempt p conn (write_frame p conn)
      (record s { conn = some (write_frame p conn).1 }) fits refl (subst HoldsFrames held frames)
      (write_frame-Wrote p conn fits.1.0)

fresh-HoldsFrames : (o : Option Conn) → IsFresh o → HoldsFrames o
unfolding stream_of
fresh-HoldsFrames none h = ([], tt)
fresh-HoldsFrames (some conn) h = ([], (tt, h))

AllFresh : List Turn → Type 0
AllFresh [] = Unit
AllFresh (t ∷ ts) = IsFresh t.dialed × AllFresh ts

after_attempt-AfterWrite :
    (p : Bytes) (again : StreamCarrier → Written × StreamCarrier) (r : Option Bool × StreamCarrier)
    → AfterAttempt p r
    → ((s : StreamCarrier) → HoldsFrames s.conn → AfterWrite p (again s))
    → AfterWrite p (after_attempt again r)
unfolding after_attempt AfterAttempt
after_attempt-AfterWrite p again (none, s) w h = w
after_attempt-AfterWrite p again (some true, s) w h = w
after_attempt-AfterWrite p again (some false, s) w h = h s w

write_attempts-AfterWrite :
    (ts : List Turn) (p : Bytes) (s : StreamCarrier)
    → Fits max_carrier_frame p
    → AllFresh ts
    → HoldsFrames s.conn
    → AfterWrite p (write_attempts ts p s)
unfolding write_attempts attempt AllFresh
write_attempts-AfterWrite [] p s fits fresh frames = frames
write_attempts-AfterWrite (t ∷ ts) p s fits (new, fresh) frames =
    let (found, kept) =
      ensure_conn-IsFound HoldsFrames t s frames (fresh-HoldsFrames t.dialed new) in
    let (o, s') = ensure_conn t s in
    after_attempt-AfterWrite p (write_attempts ts p) (attempt t p s)
      (attempt_on-AfterAttempt p o s' fits found kept)
      (λ x held. write_attempts-AfterWrite ts p x fits fresh held)

-- Whatever the two rounds of WritePacket meet, an error of Write after a part of a frame
-- included, if the held connection has been sent whole frames only and connections start empty, then it has been sent whole frames only afterwards too, and after a
-- success the packet's frame comes last.
pub write_packet-AfterWrite :
    (first second : Turn) (p : Bytes) (s : StreamCarrier)
    → IsFresh first.dialed
    → IsFresh second.dialed
    → HoldsFrames s.conn
    → AfterWrite p (write_packet first second p s)
unfolding write_packet AllFresh
write_packet-AfterWrite first second p s new1 new2 frames =
    go ((length p == 0) || ltb max_carrier_frame (length p)) refl
  where
    go :
        (b : Bool)
        → (length p == 0) || ltb max_carrier_frame (length p) ≡ b
        → AfterWrite p (if b then (bad_length, s) else write_attempts (first ∷ second ∷ []) p s)
    go true e = frames
    go false e =
        let below : length p ≤ max_carrier_frame = ground arith in
        write_attempts-AfterWrite (first ∷ second ∷ []) p s (ground arith, (below, below))
          (new1, (new2, tt)) frames
