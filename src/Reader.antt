-- ===== src/Reader.antt =====
-- The read position of core/src/fctp.rs: the message with the offset that its helpers advance, and the
-- memory into which decoded buffers are copied. Indexing past the end panics.
pub mod At
pub mod Stays
use glu_core.Prelude.{
  ℕ, ◌+◌, ◌≡◌, refl, Option, none, some, List, [], Bytes, drop?, take?, get_elem?, from_le,
}
use glu_core.Outcome.{Outcome, ok, err, panic}
use glu_core.Memory.{Memory, to_vec}
use glu_core.Types.{GluSlice}

pub record Cursor : Type 0 where
  pub off : ℕ
  pub mem : Memory

abbrev pub Reader {ℓ} : Type ℓ → Type ℓ
Reader A = Cursor → Outcome A × Cursor

module _ {ℓ} {A : Type ℓ} where
  abbrev pub pure : A → Reader A
  pure a c = (ok a, c)

  abbrev pub fail : Bytes → Reader A
  fail text c = (err text, c)

  -- `r?` of a `Result`
  abbrev pub lift : Outcome A → Reader A
  lift r c = (r, c)

module _ {ℓ κ} {A : Type ℓ} {B : Type κ} where
  abbrev pub continue : Outcome A → (A → Reader B) → Reader B
  continue (ok a) f c = f a c
  continue (err e) f c = (err e, c)
  continue panic f c = (panic, c)

  infixl 5 ◌>>=◌
  abbrev pub ◌>>=◌ : Reader A → (A → Reader B) → Reader B
  ◌>>=◌ m f c = continue (m c).0 f (m c).1

module _ {ℓ κ} {A : Type ℓ} {B : Type κ} where
  -- Inversion of a bind that returned.
  pub bind-eq-ok :
      (m : Reader A) (f : A → Reader B) (c : Cursor) {b : B} {c' : Cursor}
      → (m >>= f) c ≡ (ok b, c')
      → (a : A) × (c'' : Cursor) × (m c ≡ (ok a, c'')) × (f a c'' ≡ (ok b, c'))
  bind-eq-ok m f c {b} {c'} h = go (m c).0 (m c).1 refl h
    where
      go :
          (r : Outcome A) (d : Cursor)
          → ◌≡◌ {A = Outcome A × Cursor} (m c) (r, d)
          → continue r f d ≡ (ok b, c')
          → (a : A) × (c'' : Cursor) × (m c ≡ (ok a, c'')) × (f a c'' ≡ (ok b, c'))
      go (ok a) d e h' = (a, d, e, h')
      go (err x) d e h' = absurd (cc)
      go panic d e h' = absurd (cc)

  -- The same, handing the parts on.
  pub bind_ok_elim {μ} :
      {P : Type μ} (m : Reader A) (f : A → Reader B) (c : Cursor) {b : B} {c' : Cursor}
      → (m >>= f) c ≡ (ok b, c')
      → ((a : A) (c'' : Cursor) → m c ≡ (ok a, c'') → f a c'' ≡ (ok b, c') → P)
      → P
  bind_ok_elim m f c h k = let (a, c'', e, h') = bind-eq-ok m f c h in k a c'' e h'

-- `&data[off..off + n]`, where an index out of range panics
unfoldable pub slice : Bytes → ℕ → ℕ → Option Bytes
slice msg off n = elim (drop? off msg) [ none ↦ none | some rest ↦ take? n rest ]

-- `&data[*off..*off + n]` with `*off += n`
unfoldable pub take_bytes : Bytes → ℕ → Reader Bytes
take_bytes msg n c = elim (slice msg c.off n) [
  | none ↦ (panic, c)
  | some bs ↦ (ok bs, record c { off = c.off + n })
]

unfoldable pub read_u32_le : Bytes → Reader ℕ
read_u32_le msg = do bs ← take_bytes msg 4; pure (from_le bs)

unfoldable pub read_u64_le : Bytes → Reader ℕ
read_u64_le msg = do bs ← take_bytes msg 8; pure (from_le bs)

unfoldable pub read_len_bytes : Bytes → Reader Bytes
read_len_bytes msg = do len ← read_u32_le msg; take_bytes msg len

-- `data[off]` with `off += 1`
unfoldable pub next_byte : Bytes → Reader ℕ
next_byte msg c = elim (get_elem? msg c.off) [
  | none ↦ (panic, c)
  | some b ↦ (ok b, record c { off = c.off + 1 })
]

-- `data.get(off).copied().ok_or(msg)?` with `off += 1`
unfoldable pub next_byte_or : Bytes → Bytes → Reader ℕ
next_byte_or text msg c = elim (get_elem? msg c.off) [
  | none ↦ (err text, c)
  | some b ↦ (ok b, record c { off = c.off + 1 })
]

-- `slice.to_vec()`, forgotten
unfoldable pub copy : Bytes → Reader GluSlice
copy bs c = (ok (to_vec bs c.mem).0, record c { mem = (to_vec bs c.mem).1 })
