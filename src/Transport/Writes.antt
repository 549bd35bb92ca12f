-- ===== src/Transport/Writes.antt =====
-- `write_all` over a Unix socket, however the bytes are taken in pieces.
use glu_core.Prelude.{
  ℕ, zero, suc, ◌+◌, ◌-◌, ◌≤◌, ◌<◌, ◌≡◌, sym, ap, ◌∙◌, ◌⊎◌, inl, inr, Bool, true, false, ltb, leb,
  eqb, min, some, [], ◌∷◌, ◌++◌, append-nil, append_assoc, Bytes, length, take?, drop?, take, drop,
  before, take-drop, length-take, length-drop, eqb_iff, take?-take, drop?-drop, take?-pieces, arith,
  Bool-cases, length-append,
}
use glu_core.World.{World, Socket}
use glu_core.World.Sockets.{set_socket, rest_of, filled}
use glu_core.World.Sockets
use glu_core.Transport.{Io, done, is_ok, on_write, write_from, write_all}
use glu_core.Transport.Unix.{from_raw_fd, unix, write, write_socket}
use glu_core.Transport.Replaced.{socket-set_socket, set_socket-same, set_socket-twice}

abbrev pub outcome : Io (Unit {0}) × World → Bool × World
outcome r = (is_ok r.0, r.1)

-- All of the bytes at once, to a socket; whether they fit.
abbrev sent_by : Bool → Socket → Bytes → Bool × Socket
sent_by true s bytes = (true, record s { outbox = s.outbox ++ bytes; room = s.room - length bytes })
sent_by false s bytes = (false, record s { outbox = filled s (take? s.room bytes); room = 0 })

abbrev sent_to : Socket → Bytes → Bool × Socket
sent_to s bytes = sent_by (leb (length bytes) s.room) s bytes

abbrev piece_to : Socket → Bytes → Socket
piece_to s bytes = record s { outbox = s.outbox ++ bytes; room = s.room - length bytes }

module _ (s : Socket) (xs ys : Bytes) (h : length xs ≤ s.room) where
  filled-pieces :
      s.room - length xs ≤ length ys
      → filled (piece_to s xs) (take? (s.room - length xs) ys) ≡ filled s (take? s.room (xs ++ ys))
  filled-pieces short =
      let m = s.room - length xs in
      let whole : length xs + m ≡ s.room = omega (arith, h) in
      let split : take? s.room (xs ++ ys) ≡ some (xs ++ take m ys) =
        ap (λ l. take? l (xs ++ ys)) (sym whole)
        ∙ take?-pieces xs ys m
        ∙ ap (before xs) (take?-take m ys short) in
      rw (split, take?-take m ys short, append_assoc)

  sent_to-pieces : sent_to (piece_to s xs) ys ≡ sent_to s (xs ++ ys)
  sent_to-pieces = elim (Bool-cases (leb (length ys) (s.room - length xs))) [
    | inl e ↦
        let e' : leb (length (xs ++ ys)) s.room ≡ true =
          ground (arith, e, h, length-append xs ys) in
        let room : s.room - length xs - length ys ≡ s.room - length (xs ++ ys) =
          omega (arith, length-append xs ys) in
        rw (e, e', room, append_assoc)
    | inr e ↦
        let e' : leb (length (xs ++ ys)) s.room ≡ false =
          ground (arith, e, h, length-append xs ys) in
        rw (e, e', filled-pieces (ground (arith, e)))
  ]

module _ (fd : ℕ) where
  -- The same in the world.
  abbrev sent : Bytes → World → Bool × World
  sent bytes w = let r = sent_to (w.socket fd) bytes in (r.0, set_socket fd r.1 w)

  abbrev left : Bytes → World → World
  left bytes w = set_socket fd (piece_to (w.socket fd) bytes) w

  sent-pieces :
      (xs ys : Bytes) (w : World)
      → length xs ≤ (w.socket fd).room
      → sent ys (left xs w) ≡ sent (xs ++ ys) w
  sent-pieces xs ys w h =
      let s = w.socket fd in
      let after = socket-set_socket fd (piece_to s xs) w in
      let r = sent_to s (xs ++ ys) in
      ap (λ t. ((sent_to t ys).0, set_socket fd (sent_to t ys).1 (left xs w))) after
      ∙ ap (λ q. (q.0, set_socket fd q.1 (left xs w))) (sent_to-pieces s xs ys h)
      ∙ ap (λ v. (r.0, v)) (set_socket-twice fd (piece_to s xs) r.1 w)

  sent-nothing : (w : World) → sent [] w ≡ (true, w)
  sent-nothing w =
      let s = w.socket fd in
      let fits : leb 0 s.room ≡ true = ground arith in
      let room : s.room - 0 ≡ s.room = omega arith in
      let same : piece_to s [] ≡ s = rw (room, append-nil s.outbox) in
      rw fits (ap (λ v. (true, v)) (ap (λ t. set_socket fd t w) same ∙ set_socket-same fd w))

  sent-full :
      (b : ℕ) (bytes : Bytes) (w : World) → (w.socket fd).room ≡ 0 → sent (b ∷ bytes) w ≡ (false, w)
  sent-full b bytes w full =
      let s = w.socket fd in
      let over : leb (length (b ∷ bytes)) s.room ≡ false = ground (arith, full) in
      let nothing : filled s (take? s.room (b ∷ bytes)) ≡ s.outbox =
        ap (λ r. filled s (take? r (b ∷ bytes))) full ∙ append-nil s.outbox in
      let same : record s { outbox = filled s (take? s.room (b ∷ bytes)); room = 0 } ≡ s =
        rw nothing (ap (λ r. record s { room = r }) (sym full)) in
      rw over (ap (λ v. (false, v)) (ap (λ t. set_socket fd t w) same ∙ set_socket-same fd w))

  module _ (b : ℕ) (bytes : Bytes) (again : Bytes → World → Io (Unit {0}) × World)
      (ih : (ys : Bytes) (w : World)
        → length ys < length (b ∷ bytes)
        → fd < w.fd_limit
        → outcome (again ys w) ≡ sent ys w) where
    -- The world where `k` of the bytes were taken.
    abbrev put : ℕ → World → World
    put k w =
        let s = w.socket fd in
        set_socket fd (record s { outbox = s.outbox ++ take k (b ∷ bytes); room = s.room - k }) w

    on_write-pieces :
        (k j : ℕ) (w : World)
        → j ≡ suc k
        → j ≤ length (b ∷ bytes)
        → j ≤ (w.socket fd).room
        → fd < w.fd_limit
        → outcome (on_write again (b ∷ bytes) (done j, put j w)) ≡ sent (b ∷ bytes) w
    unfolding on_write
    on_write-pieces k j w e short fits live =
        let xs = take (suc k) (b ∷ bytes) in
        let ys = drop (suc k) (b ∷ bytes) in
        let len : length xs ≡ suc k = omega (arith, length-take (suc k) (b ∷ bytes)) in
        let less : length ys < length (b ∷ bytes) =
          omega (arith, length-drop (suc k) (b ∷ bytes)) in
        let there : put (suc k) w ≡ left xs w = rw len in
        ap (λ l. outcome (on_write again (b ∷ bytes) (done l, put l w))) e
        ∙ ap (λ v. outcome (again (rest_of (drop? (suc k) (b ∷ bytes))) v)) there
        ∙ ap (λ o. outcome (again (rest_of o) (left xs w)))
            (drop?-drop (suc k) (b ∷ bytes) (omega arith))
        ∙ ih ys (left xs w) less live
        ∙ sent-pieces xs ys w (omega (arith, len))
        ∙ ap (λ l. sent l w) (take-drop (suc k) (b ∷ bytes))

  writes :
      (pace : ℕ → ℕ) (fuel i : ℕ) (bytes : Bytes) (w : World)
      → length bytes ≤ fuel
      → fd < w.fd_limit
      → outcome (write_from unix pace (from_raw_fd fd) fuel i bytes w) ≡ sent bytes w
  unfolding write_from write write_socket on_write
  writes pace fuel i [] w enough live = sym (sent-nothing w)
  writes pace zero i (b ∷ bytes) w enough live = absurd (omega arith)
  writes pace (suc fuel) i (b ∷ bytes) w enough live =
      let room = (w.socket fd).room in
      let j = min (min (length (b ∷ bytes)) (suc (pace i))) room in
      let is_live : ltb fd w.fd_limit ≡ true = ground (arith, live) in
      elim (Bool-cases (eqb room 0)) [
        | inl full ↦
            rw (is_live, full) (sym (sent-full b bytes w (ground (arith, full, eqb_iff room 0))))
        | inr space ↦
            rw (is_live, space)
              (on_write-pieces b bytes (write_from unix pace (from_raw_fd fd) fuel (i + 1))
                (λ ys w' less live'. writes pace fuel (i + 1) ys w' (omega (arith, less)) live')
                (j - 1) j w (ground (arith, space, eqb_iff room 0)) (omega arith) (omega arith)
                live)
      ]

unsent :
    (pace : ℕ → ℕ) (fd : ℕ) (bytes : Bytes) (w : World)
    → (0 < length bytes) ⊎ (fd < w.fd_limit)
    → ltb fd w.fd_limit ≡ false
    → outcome (write_all unix pace (from_raw_fd fd) bytes w) ≡ (false, w)
unfolding write_from on_write write write_socket
unsent pace fd [] w (inl some_byte) shut = absurd (omega arith)
unsent pace fd [] w (inr live) shut = absurd (ground (arith, live, shut))
unsent pace fd (b ∷ bytes) w h shut = rw shut

-- `write_all` over an `IpcStream`, however many bytes each `write` takes: it succeeds, with all of the
-- bytes sent, if the peer takes as many; otherwise it fails, and what the peer takes was sent. This is
-- the `write_all` of the model of the core, which knows of no pieces. The socket must be open, or
-- some byte sent.
pub write_all_lem :
    (pace : ℕ → ℕ) (fd : ℕ) (bytes : Bytes) (w : World)
    → (0 < length bytes) ⊎ (fd < w.fd_limit)
    → outcome (write_all unix pace (from_raw_fd fd) bytes w) ≡ Sockets.write_all fd bytes w
unfolding Sockets.write_all
write_all_lem pace fd bytes w h = elim (Bool-cases (ltb fd w.fd_limit)) [
  | inl live ↦ elim (Bool-cases (leb (length bytes) (w.socket fd).room)) [
    | inl e ↦
        writes fd pace (length bytes) 0 bytes w (omega arith) (ground (arith, live))
        ∙ rw (live, e, Sockets.write_all)
    | inr e ↦
        writes fd pace (length bytes) 0 bytes w (omega arith) (ground (arith, live))
        ∙ rw (live, e, Sockets.write_all)
  ]
  | inr shut ↦ rw (shut, Sockets.write_all) (unsent pace fd bytes w h shut)
]
