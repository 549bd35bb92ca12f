-- ===== src/World/Sockets.antt =====
-- `write_all` and `read_exact` on a connected stream (core/src/transport.rs wraps a Unix socket). Both
-- fail on a descriptor that is not open.
use glu_core.Prelude.{
  ℕ, ◌-◌, Bool, true, false, Option, none, some, [], ◌++◌, ◌&&◌, Bytes, length, take?, drop?, leb,
  ltb, eqb, if◌then◌else◌,
}
use glu_core.World.{Socket, World}

abbrev pub set_socket : ℕ → Socket → World → World
set_socket fd s w = record w { socket = λ i. if eqb fd i then s else w.socket i }

abbrev pub filled : Socket → Option Bytes → Bytes
filled s none = s.outbox
filled s (some part) = s.outbox ++ part

-- `stream.write_all(bytes).is_ok()`; a write that fails has sent what the peer took.
unfoldable pub write_all : ℕ → Bytes → World → Bool × World
write_all fd bytes w =
    let s = w.socket fd in
    if ltb fd w.fd_limit
    then if leb (length bytes) s.room
      then (
        true,
        set_socket fd (record s { outbox = s.outbox ++ bytes; room = s.room - length bytes }) w,
      )
      else (false, set_socket fd (record s { outbox = filled s (take? s.room bytes); room = 0 }) w)
    else (false, w)

abbrev pub rest_of : Option Bytes → Bytes
rest_of none = []
rest_of (some rest) = rest

-- `stream.read_exact(&mut buf)` of `n` bytes; `none` where the stream ends before them.
unfoldable pub read_exact : ℕ → ℕ → World → Option Bytes × World
read_exact fd n w =
    let s = w.socket fd in
    if ltb fd w.fd_limit
    then (take? n s.inbox, set_socket fd (record s { inbox = rest_of (drop? n s.inbox) }) w)
    else (none, w)

-- A read that gave less than was asked for, of an open stream: from a peer that stays, the thread waits
-- for the rest for ever, since no time is set for it.
unfoldable pub waits_for : ℕ → World → Bool
waits_for fd w = ltb fd w.fd_limit && w.stays_open fd
