-- ===== src/Transport/Stub.antt =====
-- `non_unix_imp` of core/src/transport.rs: a platform without Unix sockets. There is one stream, which
-- can be made by no operation but moves no byte either.
use glu_core.Prelude.{ℕ, suc, ◌^◌, ◌-◌, ◌≡◌, refl, ◌∷◌, ◌++◌, Bytes, codes}
use glu_core.Outcome.{Outcome, panic}
use glu_core.World.{World}
use glu_core.Transport.{
  IoError, unsupported, Io, done, failed, Stream, read_exact, write_all, read_from, write_from,
  on_read, on_write,
}

pub data IpcStream : Type 0 where
  the_stream : IpcStream

-- The text has an em dash, three bytes in UTF-8.
abbrev pub gap : Bytes
gap =
    codes "IPC transport not implemented on this platform (see KNOWN_FOOTGUNS.md "
    ++ (0xE2 ∷ 0x80 ∷ 0x94 ∷ codes " Windows named-pipe transport is a documented gap)")

abbrev pub not_here : IoError
not_here = unsupported (codes "IPC not implemented on this platform")

unfoldable pub connect : Bytes → Io IpcStream
connect path = failed (unsupported gap)

unfoldable pub from_raw_fd : ℕ → Outcome IpcStream
from_raw_fd fd = panic

unfoldable pub read : ℕ → IpcStream → ℕ → World → Io Bytes × World
read most s n w = (failed not_here, w)

unfoldable pub write : ℕ → IpcStream → Bytes → World → Io ℕ × World
write most s bytes w = (failed not_here, w)

abbrev pub stub : Stream IpcStream
stub = record { read = read; write = write }

-- The number that no descriptor has: `-1`, as the 32 bits that it is kept in.
unfoldable pub as_raw_fd : IpcStream → ℕ
as_raw_fd s = 2 ^ 32 - 1

unfoldable pub forget : IpcStream → World → World
forget s w = w

unfoldable pub flush : IpcStream → World → Io (Unit {0}) × World
flush s w = (done tt, w)

pub data IpcListener : Type 0 where
  the_listener : IpcListener

abbrev pub no_listener : IoError
no_listener = unsupported (codes "IPC listener not implemented on this platform")

unfoldable pub bind : Bytes → Io IpcListener
bind path = failed no_listener

unfoldable pub accept : IpcListener → Io IpcStream
accept l = failed no_listener

-- Nothing is removed.
unfoldable pub cleanup_endpoint : Bytes → World → World
cleanup_endpoint path w = w

-- Whatever is asked for, the stream refuses at once, and the world is as it was.
pub stub_refuses :
    (pace : ℕ → ℕ) (s : IpcStream) (n b : ℕ) (bytes : Bytes) (w : World)
    → (read_exact stub pace s (suc n) w ≡ (failed not_here, w))
      × (write_all stub pace s (b ∷ bytes) w ≡ (failed not_here, w))
unfolding read write read_from write_from on_read on_write
stub_refuses pace s n b bytes w = (refl, refl)
