-- ===== src/Reader/At.antt =====
-- What the reads return where the bytes ahead are known.
use glu_core.Prelude.{
  ℕ, ◌+◌, ◌^◌, ◌<◌, ◌≡◌, some, [], ◌∷◌, ◌++◌, Bytes, length, drop?, to_le, length-to_le,
  from_le-to_le, drop?-drop?, drop?-append, take?-append, get_elem?-drop?,
}
use glu_core.Outcome.{ok}
use glu_core.Memory.{Memory}
use glu_core.Reader.{
  Cursor, slice, take_bytes, read_u32_le, read_u64_le, read_len_bytes, next_byte, next_byte_or,
}

abbrev pub at : ℕ → Memory → Cursor
at off mem = record { off = off; mem = mem }

-- `rest` is what `msg` holds from `off` on.
abbrev pub At : Bytes → ℕ → Bytes → Type 0
At msg off rest = drop? off msg ≡ some rest

pub At-append :
    (msg : Bytes) (off : ℕ) (xs ys : Bytes) → At msg off (xs ++ ys) → At msg (off + length xs) ys
At-append msg off xs ys h = rw (drop?-drop? off (length xs) msg h) (drop?-append xs ys)

pub At-cons : (msg : Bytes) (off x : ℕ) (ys : Bytes) → At msg off (x ∷ ys) → At msg (off + 1) ys
At-cons msg off x ys h = At-append msg off (x ∷ []) ys h

module _ (msg : Bytes) (off : ℕ) (mem : Memory) where
  pub take_bytes-At :
      (xs ys : Bytes)
      → At msg off (xs ++ ys)
      → take_bytes msg (length xs) (at off mem) ≡ (ok xs, at (off + length xs) mem)
  unfolding take_bytes slice
  take_bytes-At xs ys h = rw (h, take?-append xs ys)

  take_bytes-to_le :
      (n v : ℕ) (ys : Bytes)
      → At msg off (to_le n v ++ ys)
      → take_bytes msg n (at off mem) ≡ (ok (to_le n v), at (off + n) mem)
  take_bytes-to_le n v ys h = rw length-to_le at (take_bytes-At (to_le n v) ys h)

  pub read_u32_le-At :
      (v : ℕ) (ys : Bytes)
      → v < 2 ^ 32
      → At msg off (to_le 4 v ++ ys)
      → read_u32_le msg (at off mem) ≡ (ok v, at (off + 4) mem)
  unfolding read_u32_le
  read_u32_le-At v ys b h = rw (take_bytes-to_le 4 v ys h, from_le-to_le 4 v b)

  pub read_u64_le-At :
      (v : ℕ) (ys : Bytes)
      → v < 2 ^ 64
      → At msg off (to_le 8 v ++ ys)
      → read_u64_le msg (at off mem) ≡ (ok v, at (off + 8) mem)
  unfolding read_u64_le
  read_u64_le-At v ys b h = rw (take_bytes-to_le 8 v ys h, from_le-to_le 8 v b)

  pub next_byte-At :
      (b : ℕ) (ys : Bytes)
      → At msg off (b ∷ ys)
      → next_byte msg (at off mem) ≡ (ok b, at (off + 1) mem)
  unfolding next_byte
  next_byte-At b ys h = rw (get_elem?-drop? off msg h, next_byte)

  pub next_byte_or-At :
      (text : Bytes) (b : ℕ) (ys : Bytes)
      → At msg off (b ∷ ys)
      → next_byte_or text msg (at off mem) ≡ (ok b, at (off + 1) mem)
  unfolding next_byte_or
  next_byte_or-At text b ys h = rw (get_elem?-drop? off msg h, next_byte_or)

pub At-to_le :
    (msg : Bytes) (off n v : ℕ) (ys : Bytes) → At msg off (to_le n v ++ ys) → At msg (off + n) ys
At-to_le msg off n v ys h = rw length-to_le at (At-append msg off (to_le n v) ys h)

-- A field behind its length, and what follows it.
abbrev pub len_bytes : Bytes → Bytes → Bytes
len_bytes xs ys = to_le 4 (length xs) ++ (xs ++ ys)

pub At-len_bytes :
    (msg : Bytes) (off : ℕ) (xs ys : Bytes)
    → At msg off (len_bytes xs ys)
    → At msg (off + 4 + length xs) ys
At-len_bytes msg off xs ys h =
    At-append msg (off + 4) xs ys (At-to_le msg off 4 (length xs) (xs ++ ys) h)

pub read_len_bytes-At :
    (msg : Bytes) (off : ℕ) (mem : Memory) (xs ys : Bytes)
    → length xs < 2 ^ 32
    → At msg off (len_bytes xs ys)
    → read_len_bytes msg (at off mem) ≡ (ok xs, at (off + 4 + length xs) mem)
unfolding read_len_bytes
read_len_bytes-At msg off mem xs ys b h = rw (
  read_u32_le-At msg off mem (length xs) (xs ++ ys) b h,
  take_bytes-At msg (off + 4) mem xs ys (At-to_le msg off 4 (length xs) (xs ++ ys) h),
)
