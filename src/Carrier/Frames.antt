-- ===== src/Carrier/Frames.antt =====
-- Reading: frames come out one by one, and a bad length ends the connection.
use hashshashin.Base.{
  ℕ, ◌≤◌, ◌≡◌, refl, ap, Bool, true, false, ◌||◌, List, [], ◌∷◌, ◌++◌, Option, none, some, arith,
  leb, ltb, leb→le, ◌==◌, if◌then◌else◌, length, take, drop, ◌∙◌, append_assoc, map, length-append,
  length-take, take-append_length, drop-append_length,
}
use hashshashin.Base.Bytes.{Bytes, put_u32, get_be, get_be-put_u32, length-put_u32}
use hashshashin.Carrier.{
  max_carrier_frame, Conn, StreamCarrier, Turn, connect, reuse, ensure_conn, read_full, read_frame,
  read_body, read_on, Received, ReadRound, returns, continues, packet, invalid_length, ended,
  read_round, read_packet, after_round, store_conn, reset_conn, reset_held,
}

unfoldable pub frame : Bytes → Bytes
frame p = put_u32 (length p) ++ p

unfoldable pub stream_of : List Bytes → Bytes
unfolding frame
stream_of [] = []
stream_of (p ∷ ps) = frame p ++ stream_of ps

abbrev pub Fits : ℕ → Bytes → Type 0
Fits room p = (1 ≤ length p) × ((length p ≤ max_carrier_frame) × (length p ≤ room))

abbrev pub AllFit : ℕ → List Bytes → Type 0
AllFit room [] = Unit
AllFit room (p ∷ ps) = Fits room p × AllFit room ps

-- An open carrier on this connection.
abbrev pub holding : Conn → StreamCarrier
holding conn = record { closed = false; conn = some conn }

read_full-append :
    (p rest : Bytes) (n : ℕ) → length p ≡ n → read_full n (p ++ rest) ≡ some (p, rest)
unfolding read_full
read_full-append p rest n h =
    let enough : leb n (length (p ++ rest)) ≡ true = ground (arith, length-append p rest) in
    rw (enough, take-append_length p rest h, drop-append_length p rest h) refl

-- A round over a whole frame.
pub read_round-frame :
    (room : ℕ) (t : Turn) (conn : Conn) (p rest : Bytes)
    → Fits room p
    → conn.incoming ≡ frame p ++ rest
    → read_round room t (holding conn)
      ≡ returns (packet p) (holding (record conn { incoming = rest }))
unfolding frame read_round ensure_conn reuse read_on read_frame read_body store_conn
read_round-frame room t conn p rest (some_byte, (below, fits)) h =
    let hdr = put_u32 (length p) in
    let split : conn.incoming ≡ hdr ++ (p ++ rest) = h ∙ append_assoc hdr p rest in
    let good : leb (length p) 0 || (ltb max_carrier_frame (length p) || ltb room (length p))
        ≡ false =
      ground arith in
    rw
      (
        split,
        read_full-append hdr (p ++ rest) 4 (length-put_u32 (length p)),
        get_be-put_u32 (length p) (omega arith),
        good,
        read_full-append p rest (length p) refl,
      )
      refl

infixl 5 ◌>>=◌
abbrev ◌>>=◌ {ℓ κ} : {A : Type ℓ} {B : Type κ} → Option A → (A → Option B) → Option B
none >>= f = none
some a >>= f = f a

-- Calls of ReadPacket one after another, each with the turn that it meets.
unfoldable pub read_calls : ℕ → List Turn → StreamCarrier → Option (List Received × StreamCarrier)
read_calls room [] s = some ([], s)
read_calls room (t ∷ ts) s = do
  (r, s') ← read_packet room (t ∷ []) s
  (rs, s'') ← read_calls room ts s'
  some (r ∷ rs, s'')

-- A peer that is sent these frames reads these packets, in order, one for each call, and leaves what
-- comes after them on the connection.
pub read_calls-stream_of :
    (room : ℕ) (ts : List Turn) (ps : List Bytes) (rest : Bytes) (conn : Conn)
    → AllFit room ps
    → length ts ≡ length ps
    → conn.incoming ≡ stream_of ps ++ rest
    → read_calls room ts (holding conn)
      ≡ some (map packet ps, holding (record conn { incoming = rest }))
unfolding read_calls read_packet stream_of
read_calls-stream_of room [] [] rest conn fit same h =
    ap (λ x. some ([], holding (record conn { incoming = x }))) h
read_calls-stream_of room [] (p ∷ ps) rest conn fit same h = absurd (omega arith)
read_calls-stream_of room (t ∷ ts) [] rest conn fit same h = absurd (omega arith)
read_calls-stream_of room (t ∷ ts) (p ∷ ps) rest conn (fits, fit) same h =
    let next : Conn = record conn { incoming = stream_of ps ++ rest } in
    rw
      (
        read_round-frame room t conn p (stream_of ps ++ rest) fits
            (h ∙ append_assoc (frame p) (stream_of ps) rest),
        read_calls-stream_of room ts ps rest next fit (omega arith) refl,
      )
      refl

-- A round that ends with a packet or a bad length.
IsSafe : ℕ → ReadRound → Type 0
IsSafe room (continues s) = Unit
IsSafe room (returns (packet p) s) = Fits room p
IsSafe room (returns (invalid_length n) s) = s.conn ≡ none
IsSafe room (returns ended s) = Unit

read_body-IsSafe :
    (room : ℕ) (conn : Conn) (n : ℕ) (rest : Bytes) (s : StreamCarrier)
    → 1 ≤ n
    → n ≤ max_carrier_frame
    → n ≤ room
    → IsSafe room (read_body conn (read_full n rest) s)
unfolding read_body read_full IsSafe
read_body-IsSafe room conn n rest s some_byte below fits = go (leb n (length rest)) refl
  where
    go :
        (b : Bool)
        → leb n (length rest) ≡ b
        → IsSafe room (read_body conn (if b then some (take n rest, drop n rest) else none) s)
    go false e = tt
    go true e =
        let enough = leb→le n (length rest) e in
        let whole = length-take n rest in
        (omega (arith, enough, whole), (omega (arith, enough, whole), omega (arith, enough, whole)))

-- A connection that is found is the one that is held.
unfoldable pub IsFound : Option Conn × StreamCarrier → Type 0
IsFound (none, s) = Unit
IsFound (some conn, s) = s.conn ≡ some conn

module _ (P : Option Conn → Type 0) (t : Turn) (s : StreamCarrier) (before : P s.conn) where
  abbrev Keeps : Option Conn × StreamCarrier → Type 0
  Keeps r = IsFound r × P r.1.conn

  connect-IsFound : (o : Option Conn) → P o → IsFound (connect t o s) × P (connect t o s).1.conn
  unfolding connect IsFound
  connect-IsFound none q = (tt, before)
  connect-IsFound (some conn) q = go t.closed_meanwhile
    where
      go :
          (b : Bool)
          → Keeps (
              if b
              then (none, record s { closed = true })
              else (some conn, record s { conn = some conn }))
      go true = (tt, before)
      go false = (refl, q)

  reuse-IsFound :
      (held : Option Conn)
      → s.conn ≡ held
      → P t.dialed
      → IsFound (reuse t held s) × P (reuse t held s).1.conn
  unfolding reuse IsFound
  reuse-IsFound none e q = connect-IsFound t.dialed q
  reuse-IsFound (some conn) e q = (e, before)

  -- What holds of the connection held before and of the one dialed holds of the one held after.
  pub ensure_conn-IsFound : P t.dialed → IsFound (ensure_conn t s) × P (ensure_conn t s).1.conn
  unfolding ensure_conn IsFound
  ensure_conn-IsFound q = go s.closed
    where
      go : (b : Bool) → Keeps (if b then (none, s) else reuse t s.conn s)
      go true = (tt, before)
      go false = reuse-IsFound s.conn refl q

id_eq_refl : (n : ℕ) → n == n ≡ true
id_eq_refl n = ground arith

read_frame-IsSafe :
    (room : ℕ) (t : Turn) (conn : Conn) (r : Option (Bytes × Bytes)) (s : StreamCarrier)
    → s.conn ≡ some conn
    → IsSafe room (read_frame room t conn r s)
unfolding read_frame IsSafe reset_conn reset_held
read_frame-IsSafe room t conn none s held = go t.cancelled
  where
    go :
        (b : Bool)
        → IsSafe room
            (if b then returns ended (reset_conn conn s) else continues (reset_conn conn s))
    go true = tt
    go false = tt
read_frame-IsSafe room t conn (some (hdr, rest)) s held = go (get_be hdr) _ refl
  where
    go :
        (n : ℕ) (b : Bool)
        → leb n 0 || (ltb max_carrier_frame n || ltb room n) ≡ b
        → IsSafe room (
            if b
            then returns (invalid_length n) (reset_conn conn s)
            else read_body (record conn { incoming = rest }) (read_full n rest) s)
    go n true e = rw (held, id_eq_refl conn.id) refl
    go n false e =
        let c : Conn = record conn { incoming = rest } in
        read_body-IsSafe room c n rest s (ground arith) (ground arith) (ground arith)

read_on-IsSafe :
    (room : ℕ) (t : Turn) (found : Option Conn) (s : StreamCarrier)
    → IsFound (found, s)
    → IsSafe room (read_on room t (found, s))
unfolding read_on IsSafe IsFound
read_on-IsSafe room t none s held = go t.cancelled
  where
    go : (b : Bool) → IsSafe room (if b then returns ended s else continues s)
    go true = tt
    go false = tt
read_on-IsSafe room t (some conn) s held =
    read_frame-IsSafe room t conn (read_full 4 conn.incoming) s held

-- What ReadPacket returns: a packet that fits the buffer, or an error; a bad length ends the connection.
pub IsReceived : ℕ → Option (Received × StreamCarrier) → Type 0
IsReceived room none = Unit
IsReceived room (some (packet p, s)) = Fits room p
IsReceived room (some (invalid_length n, s)) = s.conn ≡ none
IsReceived room (some (ended, s)) = Unit

after_round-IsReceived :
    (room : ℕ) (again : StreamCarrier → Option (Received × StreamCarrier)) (r : ReadRound)
    → IsSafe room r
    → ((s : StreamCarrier) → IsReceived room (again s))
    → IsReceived room (after_round again r)
unfolding after_round IsSafe IsReceived
after_round-IsReceived room again (continues s) safe h = h s
after_round-IsReceived room again (returns (packet p) s) safe h = safe
after_round-IsReceived room again (returns (invalid_length n) s) safe h = safe
after_round-IsReceived room again (returns ended s) safe h = tt

-- Whatever the connections deliver and however they fail, a packet that ReadPacket returns is not
-- empty, is at most 1 MiB long and fits the buffer; after a bad length no connection is held.
pub read_packet-IsReceived :
    (room : ℕ) (ts : List Turn) (s : StreamCarrier) → IsReceived room (read_packet room ts s)
unfolding read_packet read_round IsReceived
read_packet-IsReceived room [] s = tt
read_packet-IsReceived room (t ∷ ts) s =
    after_round-IsReceived room (read_packet room ts) (read_round room t s)
      (let (found, s') = ensure_conn t s in
        read_on-IsSafe room t found s' (ensure_conn-IsFound (λ o. Unit) t s tt tt).0)
      (λ s'. read_packet-IsReceived room ts s')
