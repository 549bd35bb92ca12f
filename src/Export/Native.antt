-- ===== src/Export/Native.antt =====
-- The Rust functions behind `#[export]`, and the values that their parameters and results have.
use glu_core.Prelude.{ℕ, Option, none, some, List, [], ◌∷◌, Bytes}
use glu_core.Types.{GluValue, GluResult}
use glu_core.Program.{Program, set_identity, call}
use glu_core.Export.{
  Tag, int_value, float_value, string_owned, string_borrowed, buffer_owned, buffer_borrowed,
  nothing,
}

-- An `f64` is its bits and an `i64` its two's complement; a text is its UTF-8 bytes.
abbrev pub Value : Tag → Type 0
Value int_value = ℕ
Value float_value = ℕ
Value string_owned = Bytes
Value string_borrowed = Bytes
Value buffer_owned = Bytes
Value buffer_borrowed = Bytes
Value nothing = Unit {0}

abbrev pub Values : List Tag → Type 0
Values [] = Unit {0}
Values (t ∷ ts) = Value t × Values ts

-- A Rust function's run: it returns, panics, or first calls other modules through the core.
pub data Native (R : Type 0) : Type 0 where
  returns : R → Native R
  panics : Native R
  sets_identity : Option Bytes → Native R → Native R
  calls : Option Bytes → Option Bytes → List GluValue → (GluResult → Native R) → Native R

-- `catch_unwind`: what comes after it is told the value, or that there was a panic.
unfoldable pub catch_unwind : {R : Type 0} → Native R → (Option R → Program) → Program
catch_unwind (returns r) next = next (some r)
catch_unwind panics next = next none
catch_unwind (sets_identity name n) next = set_identity name (catch_unwind n next)
catch_unwind (calls m function args k) next = call m function args (λ r. catch_unwind (k r) next)
