-- ===== src/Transport.antt =====
-- core/src/transport.rs: the streams that connect the core to process modules. Here, what a stream
-- type offers to its users, and `read_exact` and `write_all` over it, which are the loops of
-- Rust's standard library around `read` and `write`.
pub mod Unix
pub mod Stub
pub mod Listener
pub mod Serves
mod Replaced
pub mod Reads
pub mod Writes
use glu_core.Prelude.{
  ℕ, zero, suc, ◌+◌, ◌-◌, Bool, true, false, Option, none, some, List, [], ◌∷◌, ◌++◌, Bytes, length,
  drop?,
}
use glu_core.World.{World}
use glu_core.World.Sockets.{rest_of}

-- The kinds of `std::io::Error` that are told apart; `refused` and `address_in_use` are what the operating
-- system answers.
pub data IoError : Type 0 where
  unsupported : Bytes → IoError
  unexpected_eof : IoError
  write_zero : IoError
  refused : IoError
  address_in_use : IoError

pub data Io {ℓ} (A : Type ℓ) : Type ℓ where
  done : A → Io A
  failed : IoError → Io A

abbrev pub ok_of {ℓ} : {A : Type ℓ} → Io A → Option A
ok_of (done a) = some a
ok_of (failed e) = none

abbrev pub is_ok {ℓ} : {A : Type ℓ} → Io A → Bool
is_ok (done a) = true
is_ok (failed e) = false

-- The traits `Read` and `Write` of a stream type: a read gives some of the bytes that are asked for,
-- and none at the end; a write takes some of its bytes, and tells how many. How many it is in one
-- call is up to the operating system, whose choice is the first argument.
pub record Stream (S : Type 0) : Type 0 where
  pub read : ℕ → S → ℕ → World → Io Bytes × World
  pub write : ℕ → S → Bytes → World → Io ℕ × World

abbrev pub prepend : Bytes → Io Bytes × World → Io Bytes × World
prepend bs (done rest, w) = (done (bs ++ rest), w)
prepend bs (failed e, w) = (failed e, w)

-- `again n w` reads the `n` bytes that are left.
unfoldable pub on_read : (ℕ → World → Io Bytes × World) → ℕ → Io Bytes × World → Io Bytes × World
on_read again n (failed e, w) = (failed e, w)
on_read again n (done [], w) = (failed unexpected_eof, w)
on_read again n (done (b ∷ bs), w) = prepend (b ∷ bs) (again (n - length (b ∷ bs)) w)

unfoldable pub on_write :
    (Bytes → World → Io (Unit {0}) × World) → Bytes → Io ℕ × World → Io (Unit {0}) × World
on_write again bytes (failed e, w) = (failed e, w)
on_write again bytes (done zero, w) = (failed write_zero, w)
on_write again bytes (done (suc k), w) = again (rest_of (drop? (suc k) bytes)) w

-- `pace` is the choice of the operating system at each call. A call moves a byte at least, so there are
-- no more calls than bytes, which is the fuel.
module _ {S : Type 0} (stream : Stream S) (pace : ℕ → ℕ) (s : S) where
  unfoldable pub read_from : ℕ → ℕ → ℕ → World → Io Bytes × World
  read_from fuel i zero w = (done [], w)
  read_from zero i (suc n) w = (failed unexpected_eof, w)
  read_from (suc fuel) i (suc n) w =
      on_read (read_from fuel (i + 1)) (suc n) (stream.read (pace i) s (suc n) w)

  unfoldable pub write_from : ℕ → ℕ → Bytes → World → Io (Unit {0}) × World
  write_from fuel i [] w = (done tt, w)
  write_from zero i (b ∷ bytes) w = (failed write_zero, w)
  write_from (suc fuel) i (b ∷ bytes) w =
      on_write (write_from fuel (i + 1)) (b ∷ bytes) (stream.write (pace i) s (b ∷ bytes) w)

  -- `read_exact(&mut buf)` with a buffer of `n` bytes
  abbrev pub read_exact : ℕ → World → Io Bytes × World
  read_exact n w = read_from n 0 n w

  abbrev pub write_all : Bytes → World → Io (Unit {0}) × World
  write_all bytes w = write_from (length bytes) 0 bytes w
