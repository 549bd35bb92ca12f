-- ===== src/Memory/Alloc.antt =====
-- Allocation, reading and release of buffers.
use glu_core.Prelude.{
  ℕ, ◌≡◌, refl, none, some, [], ◌∷◌, Bytes, length, take?, arith, Option, inl, inr, eqb, Bool-cases,
  eqb_iff, take?-append, append-nil, nat_eq,
}
use mathlib.Core.Path.{subst}
use glu_core.Prelude.Map.{lookup, remove, lookup-insert, lookup-remove}
use glu_core.Types.{GluSlice}
use glu_core.Memory.{Memory, to_vec, from_raw_parts, glucore_free_buffer, release, IsSound}

-- What could be read in `m` can be read in `m'`.
abbrev pub Keeps : Memory → Memory → Type 0
Keeps m m' =
    (s : GluSlice) (old : Bytes) → from_raw_parts m s ≡ some old → from_raw_parts m' s ≡ some old

take?-length : (bs : Bytes) → take? (length bs) bs ≡ some bs
take?-length bs = rw append-nil at (take?-append bs [])

-- A copied buffer reads back as the bytes that were copied.
pub from_raw_parts-to_vec :
    (bs : Bytes) (m : Memory) → from_raw_parts (to_vec bs m).1 (to_vec bs m).0 ≡ some bs
unfolding to_vec from_raw_parts
from_raw_parts-to_vec [] m = refl
from_raw_parts-to_vec (b ∷ bs) m =
    rw lookup-insert (ground (arith, eqb_iff m.next m.next, take?-length (b ∷ bs)))

pub to_vec-IsSound : (bs : Bytes) (m : Memory) → IsSound m → IsSound (to_vec bs m).1
unfolding to_vec
to_vec-IsSound [] m s = s
to_vec-IsSound (b ∷ bs) m s = record {
  next_positive = omega (arith, s.next_positive);
  unused = λ p h. rw lookup-insert (ground (arith, s.unused p, eqb_iff m.next p));
}

-- An allocation leaves what could be read before.
pub from_raw_parts-to_vec_old :
    (bs : Bytes) (m : Memory) (s : GluSlice) {old : Bytes}
    → IsSound m
    → from_raw_parts m s ≡ some old
    → from_raw_parts (to_vec bs m).1 s ≡ some old
unfolding to_vec from_raw_parts
from_raw_parts-to_vec_old [] m s sound h = h
from_raw_parts-to_vec_old (b ∷ bs) m s sound h =
    rw lookup-insert (ground (arith, sound.unused s.ptr, eqb_iff m.next s.ptr, h))

release-IsSound :
    (m : Memory) (ptr len : ℕ) (o : Option Bytes) {m' : Memory}
    → IsSound m
    → release m ptr len o ≡ some m'
    → IsSound m'
release-IsSound m ptr len none s h = absurd (cc)
release-IsSound m ptr len (some bs) {m'} s h = elim (Bool-cases (eqb (length bs) len)) [
  | inl e ↦
      let same : record m { blocks = remove ptr m.blocks } ≡ m' = ground (arith, e, h) in
      subst IsSound same (record {
        next_positive = s.next_positive;
        unused = λ p q. rw lookup-remove (ground (arith, s.unused p q));
      })
  | inr e ↦ absurd (ground (arith, e, h))
]

pub glucore_free_buffer-IsSound :
    (ptr len : ℕ) (m : Memory) {m' : Memory}
    → IsSound m
    → glucore_free_buffer ptr len m ≡ some m'
    → IsSound m'
unfolding glucore_free_buffer
glucore_free_buffer-IsSound ptr len m {m'} s h = elim (Bool-cases (eqb ptr 0)) [
  | inl e ↦ subst IsSound (ground (arith, e, h)) s
  | inr e ↦ elim (Bool-cases (eqb len 0)) [
    | inl e' ↦ subst IsSound (ground (arith, e, e', h)) s
    | inr e' ↦
        release-IsSound m ptr len (lookup ptr m.blocks) {m' = m'} s (ground (arith, e, e', h))
  ]
]
