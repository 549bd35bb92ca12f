-- ===== src/Export/Wrapper.antt =====
-- The wrapper that `#[export]` writes around a function, by what it does: unpack the arguments, call
-- the function, pack its result, and turn a panic of any of these into an error.
use glu_core.Prelude.{
  true, false, ℕ, ◌+◌, Option, none, some, List, [], ◌∷◌, ◌++◌, Bytes, codes, get_elem?,
}
use glu_core.Types.{GluValue, GluResult, of_word, of_slice, runtime}
use glu_core.Errors.{glu_ok, glu_err}
use glu_core.Utf8.{from_utf8_lossy, is_utf8}
use glu_core.Memory.{slice_of}
use glu_core.Program.{Program, done, wild, read, alloc}
use glu_core.Export.{
  Tag, int_value, float_value, string_owned, string_borrowed, buffer_owned, buffer_borrowed,
  nothing,
}
use glu_core.Export.Native.{Value, Values, Native, catch_unwind}

-- The bytes behind `args[i].string` or `args[i].buffer`.
unfoldable pub read_slice : GluValue → (Bytes → Program) → Program
read_slice v next = elim (slice_of v) [ none ↦ wild | some s ↦ read s next ]

-- `generate_unpacker`, where the argument is there. `from_utf8_unchecked` of bytes that are not UTF-8
-- is undefined behaviour.
unfoldable pub unpack_value : (t : Tag) → GluValue → (Value t → Program) → Program
unpack_value float_value v next = next v.first
unpack_value int_value v next = next v.first
unpack_value string_owned v next = read_slice v (λ bytes. next (from_utf8_lossy bytes))
unpack_value string_borrowed v next =
    read_slice v (λ bytes. elim (is_utf8 bytes) [ true ↦ next bytes | false ↦ wild ])
unpack_value buffer_owned v next = read_slice v next
unpack_value buffer_borrowed v next = read_slice v next
unpack_value nothing v next = next tt

-- Indexing `args` past its end panics; a parameter of type `()` does not index it.
unfoldable pub unpack : (t : Tag) → Option GluValue → (Option (Value t) → Program) → Program
unpack t (some v) next = unpack_value t v (λ x. next (some x))
unpack nothing none next = next (some tt)
unpack _ none next = next none

-- The unpackers one after the other, from parameter `i` on.
unfoldable pub unpack_all :
    (params : List Tag) → ℕ → List GluValue → (Option (Values params) → Program) → Program
unpack_all [] i args next = next (some tt)
unpack_all (t ∷ params) i args next = unpack t (get_elem? args i) (λ o. elim o [
  | none ↦ next none
  | some x ↦
      unpack_all params (i + 1) args
        (λ rest. elim rest [ none ↦ next none | some xs ↦ next (some (x, xs)) ])
])

-- `generate_packer`: a text or buffer moves to an allocation of its own.
unfoldable pub pack : (t : Tag) → Value t → (GluValue → Program) → Program
pack float_value x next = next (of_word x)
pack int_value x next = next (of_word x)
pack string_owned x next = alloc x (λ s. next (of_slice s))
pack string_borrowed x next = alloc x (λ s. next (of_slice s))
pack buffer_owned x next = alloc x (λ s. next (of_slice s))
pack buffer_borrowed x next = alloc x (λ s. next (of_slice s))
pack nothing x next = next (of_word 0)

unfoldable pub panicked : Bytes → GluResult
panicked name = glu_err runtime (codes "panic in " ++ name)

-- `match outcome`, behind the packer.
abbrev pub answer : Bytes → (result : Tag) → Option (Value result) → Program
answer name result none = done (panicked name)
answer name result (some x) = pack result x (λ v. done (glu_ok v))

unfoldable pub wrapper :
    (name : Bytes) (params : List Tag) (result : Tag)
    → (Values params → Native (Value result))
    → List GluValue
    → Program
wrapper name params result function args = unpack_all params 0 args (λ o. elim o [
  | none ↦ done (panicked name)
  | some values ↦ catch_unwind (function values) (answer name result)
])
