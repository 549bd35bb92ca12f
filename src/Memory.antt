-- ===== src/Memory.antt =====
-- The memory behind a pointer and a length: the blocks that Rust's allocator has handed out, with
-- the allocations of `slice.to_vec()` and the release in core/src/errors.rs. An address is that
-- of a block's start: the program takes no pointer into a block. An allocation has a new address,
-- and one of no bytes is Rust's dangling non-null pointer.
pub mod Alloc
use glu_core.Prelude.{
  ℕ, ◌+◌, ◌≡◌, ◌<◌, ◌≤◌, Option, none, some, [], ◌∷◌, Bytes, length, take?, eqb, if◌then◌else◌,
  nat_eq,
}
use glu_core.Prelude.Map.{Map, lookup, insert, remove}
use glu_core.Types.{GluSlice, GluValue}

pub record Memory : Type 0 where
  pub next : ℕ
  pub blocks : Map ℕ Bytes

-- `slice.to_vec()`, forgotten so that it lives on
unfoldable pub to_vec : Bytes → Memory → GluSlice × Memory
to_vec [] m = (record { ptr = 1; len = 0 }, m)
to_vec (b ∷ bs) m = (
  record { ptr = m.next; len = length (b ∷ bs) },
  record { next = m.next + length (b ∷ bs); blocks = insert m.next (b ∷ bs) m.blocks },
)

abbrev pub prefix_of : Option Bytes → ℕ → Option Bytes
prefix_of none n = none
prefix_of (some bs) n = take? n bs

-- `from_raw_parts(s.ptr, s.len)`; `none` is undefined behaviour.
unfoldable pub from_raw_parts : Memory → GluSlice → Option Bytes
from_raw_parts m s =
    if eqb s.len 0
    then (if eqb s.ptr 0 then none else some [])
    else prefix_of (lookup s.ptr m.blocks) s.len

-- `unsafe { v.string }` and `unsafe { v.buffer }`
unfoldable pub slice_of : GluValue → Option GluSlice
slice_of v = elim v.second [ none ↦ none | some n ↦ some (record { ptr = v.first; len = n }) ]

abbrev pub release : Memory → ℕ → ℕ → Option Bytes → Option Memory
release m ptr len none = none
release m ptr len (some bs) =
    if eqb (length bs) len then some (record m { blocks = remove ptr m.blocks }) else none

-- `glucore_free_buffer(ptr, len)`; `none` is undefined behaviour (a double free, a wrong length).
unfoldable pub glucore_free_buffer : ℕ → ℕ → Memory → Option Memory
glucore_free_buffer ptr len m =
    if eqb ptr 0
    then some m
    else if eqb len 0
    then some m
    else release m ptr len (lookup ptr m.blocks)

-- No block stands where the next one goes.
pub record IsSound (m : Memory) : Type 0 where
  pub next_positive : 1 < m.next
  pub unused : (p : ℕ) → m.next ≤ p → lookup p m.blocks ≡ none
