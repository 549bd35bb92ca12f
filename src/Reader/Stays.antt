-- ===== src/Reader/Stays.antt =====
-- Invariants of readers, with one rule for each way to build one: the position stays within the
-- message, and what stood in memory stays there.
use glu_core.Prelude.{
  ℕ, ◌+◌, ◌≤◌, ◌≡◌, some, inl, inr, Bytes, Bool, true, false, length, arith, if◌then◌else◌,
  Option-cases, get_elem?_range, get_elem?, drop?, length-drop?, length-take?,
}
use glu_core.Outcome.{Outcome, ok, err, panic}
use glu_core.Memory.{Memory, IsSound}
use glu_core.Memory.Alloc.{Keeps, to_vec-IsSound, from_raw_parts-to_vec_old}
use glu_core.Reader.{
  Cursor, Reader, pure, lift, ◌>>=◌, continue, slice, take_bytes, read_u32_le, read_u64_le,
  read_len_bytes, next_byte, next_byte_or, copy,
}

-- The position lies in `msg`, and the memory extends `m`.
pub record Within (msg : Bytes) (m : Memory) (c : Cursor) : Type 0 where
  pub in_range : c.off ≤ length msg
  pub sound : IsSound c.mem
  pub kept : Keeps m c.mem

-- `r` stays within, whether it returns, answers an error or panics.
pub record Stays {ℓ} {A : Type ℓ} (msg : Bytes) (m : Memory) (r : Reader A) : Type ℓ where
  pub stays : (c : Cursor) → Within msg m c → Within msg m (r c).1

module _ {ℓ} {A : Type ℓ} {msg : Bytes} {m : Memory} where
  pub Stays-pure : (a : A) → Stays msg m (pure a)
  Stays-pure a = record { stays = λ c w. w }

  pub Stays-lift : (r : Outcome A) → Stays msg m (lift r)
  Stays-lift r = record { stays = λ c w. w }

  pub Stays-if :
      (b : Bool) (r s : Reader A) → Stays msg m r → Stays msg m s → Stays msg m (if b then r else s)
  Stays-if true r s hr hs = hr
  Stays-if false r s hr hs = hs

module _ {ℓ} {A B : Type ℓ} {msg : Bytes} {m : Memory} where
  Within-continue :
      (r : Outcome A) (f : A → Reader B) (c : Cursor)
      → ((a : A) → Stays msg m (f a))
      → Within msg m c
      → Within msg m (continue r f c).1
  Within-continue (ok a) f c hf w = (hf a).stays c w
  Within-continue (err e) f c hf w = w
  Within-continue panic f c hf w = w

  pub Stays-bind :
      (r : Reader A) (f : A → Reader B)
      → Stays msg m r
      → ((a : A) → Stays msg m (f a))
      → Stays msg m (r >>= f)
  Stays-bind r f hr hf = record {
    stays = λ c w. Within-continue (r c).0 f (r c).1 hf (hr.stays c w);
  }

  pub Stays-bind_lift :
      (r : Outcome A) (f : A → Reader B)
      → ((a : A) → Stays msg m (f a))
      → Stays msg m (lift r >>= f)
  Stays-bind_lift r f hf = record { stays = λ c w. Within-continue r f c hf w }

slice_range :
    (msg : Bytes) (off n : ℕ) {bs : Bytes} → slice msg off n ≡ some bs → off + n ≤ length msg
unfolding slice
slice_range msg off n {bs} h = elim (Option-cases (drop? off msg)) [
  | inl e ↦ ground (arith, e, h)
  | inr (rest, e) ↦ ground (arith, e, h, length-drop? off msg e, length-take? n rest {ys = bs})
]

module _ (msg : Bytes) (m : Memory) where
  pub take_bytes-Stays : (n : ℕ) → Stays msg m (take_bytes msg n)
  unfolding take_bytes
  take_bytes-Stays n = record {
    stays = λ c w. elim (Option-cases (slice msg c.off n)) [
      | inl e ↦ rw (e, take_bytes) w
      | inr (bs, e) ↦
          rw (e, take_bytes)
            (record { in_range = slice_range msg c.off n e; sound = w.sound; kept = w.kept })
    ];
  }

  pub next_byte-Stays : Stays msg m (next_byte msg)
  unfolding next_byte
  next_byte-Stays = record {
    stays = λ c w. elim (Option-cases (get_elem? msg c.off)) [
      | inl e ↦ rw (e, next_byte) w
      | inr (b, e) ↦
          rw (e, next_byte)
            (record {
              in_range = omega (arith, get_elem?_range msg c.off e);
              sound = w.sound;
              kept = w.kept;
            })
    ];
  }

  pub next_byte_or-Stays : (text : Bytes) → Stays msg m (next_byte_or text msg)
  unfolding next_byte_or
  next_byte_or-Stays text = record {
    stays = λ c w. elim (Option-cases (get_elem? msg c.off)) [
      | inl e ↦ rw (e, next_byte_or) w
      | inr (b, e) ↦
          rw (e, next_byte_or)
            (record {
              in_range = omega (arith, get_elem?_range msg c.off e);
              sound = w.sound;
              kept = w.kept;
            })
    ];
  }

  pub copy-Stays : (bs : Bytes) → Stays msg m (copy bs)
  unfolding copy
  copy-Stays bs = record {
    stays = λ c w. record {
      in_range = w.in_range;
      sound = to_vec-IsSound bs c.mem w.sound;
      kept = λ s old h. from_raw_parts-to_vec_old bs c.mem s w.sound (w.kept s old h);
    };
  }

  pub read_u32_le-Stays : Stays msg m (read_u32_le msg)
  unfolding read_u32_le
  read_u32_le-Stays = search (take_bytes-Stays, Stays-bind, Stays-pure)

  pub read_u64_le-Stays : Stays msg m (read_u64_le msg)
  unfolding read_u64_le
  read_u64_le-Stays = search (take_bytes-Stays, Stays-bind, Stays-pure)

  pub read_len_bytes-Stays : Stays msg m (read_len_bytes msg)
  unfolding read_len_bytes
  read_len_bytes-Stays = search (take_bytes-Stays, read_u32_le-Stays, Stays-bind)

pub ruleset stays_rules = (
  Stays-pure, Stays-lift, Stays-if, Stays-bind, Stays-bind_lift, next_byte-Stays,
  next_byte_or-Stays, copy-Stays, read_u32_le-Stays, read_u64_le-Stays, read_len_bytes-Stays,
)
