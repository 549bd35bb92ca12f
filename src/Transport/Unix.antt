-- ===== src/Transport/Unix.antt =====
-- `unix_imp` of core/src/transport.rs: an `IpcStream` is a connected Unix socket, by its descriptor,
-- which it owns.
use glu_core.Prelude.{
  ℕ, suc, ◌-◌, min, [], ◌++◌, Bytes, length, take, drop, ltb, eqb, if◌then◌else◌,
}
use glu_core.World.{World}
use glu_core.World.Sockets.{set_socket}
use glu_core.Transport.{Io, done, failed, refused, Stream}

-- `std::os::unix::net::UnixStream`, and what it does with its descriptor.
pub record UnixStream : Type 0 where
  pub fd : ℕ

-- One `read` gives as much as is there and asked for, but no more than `most` bytes and one.
unfoldable pub read_socket : ℕ → UnixStream → ℕ → World → Io Bytes × World
read_socket most s n w =
    let socket = w.socket s.fd in
    let k = min n (suc most) in
    if ltb s.fd w.fd_limit
    then (
      done (take k socket.inbox),
      set_socket s.fd (record socket { inbox = drop k socket.inbox }) w,
    )
    else (failed refused, w)

-- One `write` takes as much as there is room for, but no more than `most` bytes and one.
unfoldable pub write_socket : ℕ → UnixStream → Bytes → World → Io ℕ × World
write_socket most s bytes w =
    let socket = w.socket s.fd in
    let k = min (min (length bytes) (suc most)) socket.room in
    if ltb s.fd w.fd_limit
    then if eqb socket.room 0 then (failed refused, w) else (
      done k,
      set_socket s.fd
          (record socket { outbox = socket.outbox ++ take k bytes; room = socket.room - k }) w,
    )
    else (failed refused, w)

-- A closed socket has nothing to be read, and takes nothing.
unfoldable pub close : UnixStream → World → World
close s w = set_socket s.fd (record { inbox = []; outbox = (w.socket s.fd).outbox; room = 0 }) w

pub record IpcStream : Type 0 where
  pub inner : UnixStream

-- The registration of a module owns the descriptor between calls: a stream is made of it for the time
-- of a call, and forgotten.
abbrev pub from_raw_fd : ℕ → IpcStream
from_raw_fd fd = record { inner = record { fd = fd } }

abbrev pub as_raw_fd : IpcStream → ℕ
as_raw_fd s = s.inner.fd

-- `mem::forget(self)`: nothing is dropped.
abbrev pub forget : IpcStream → World → World
forget s w = w

-- The body of `Drop` is empty; the field is dropped after it.
unfoldable pub drop_stream : IpcStream → World → World
drop_stream s w = close s.inner w

unfoldable pub read : ℕ → IpcStream → ℕ → World → Io Bytes × World
read most s n w = read_socket most s.inner n w

unfoldable pub write : ℕ → IpcStream → Bytes → World → Io ℕ × World
write most s bytes w = write_socket most s.inner bytes w

-- The socket keeps nothing back that it has taken.
unfoldable pub flush : IpcStream → World → Io (Unit {0}) × World
flush s w = (done tt, w)

abbrev pub unix : Stream IpcStream
unix = record { read = read; write = write }
