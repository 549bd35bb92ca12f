-- ===== src/Physics.antt =====
-- examples/physics/src/lib.rs: a module of exported Rust functions, one of which calls a module in
-- C++ through the core. Floating-point arithmetic and Unicode's upper case are parameters.
pub mod Registered
pub mod Called
pub mod Boost
pub mod Caller
pub mod Maps
pub mod Abi
use glu_core.Prelude.{
  ℕ, ◌+◌, ◌%◌, ◌^◌, Bool, true, false, ◌||◌, Option, none, some, List, [], ◌∷◌, ◌++◌, map, Bytes,
  codes, has_nul, if◌then◌else◌,
}
use glu_core.Outcome.{Outcome, ok, err, panic}
use glu_core.Types.{GluValue, GluResult, GluSignature, GluExportEntry, GluModule, exported, of_word}
use glu_core.Fctp.Encode.{is_ok}
use glu_core.Export.{
  Tag, int_value, float_value, string_owned, string_borrowed, buffer_owned, buffer_borrowed,
  nothing, tag_to_core_variant,
}
use glu_core.Export.Inputs.{Exported, signature_of}
use glu_core.Export.Native.{Value, Values, Native, returns, panics, sets_identity, calls}

-- Operations on the bits of an `f64`, and `str::to_uppercase`.
pub record Arithmetic : Type 0 where
  pub f64_mul : ℕ → ℕ → ℕ
  pub f64_add : ℕ → ℕ → ℕ
  pub to_uppercase : Bytes → Bytes

-- The bits of 2.0.
abbrev pub two : ℕ
two = 0x4000000000000000

module _ (std : Arithmetic) where
  unfoldable pub calculate_force :
      Values (float_value ∷ float_value ∷ []) → Native (Value float_value)
  calculate_force (mass, (accel, _)) = returns (std.f64_mul mass accel)

  unfoldable pub double : Values (float_value ∷ []) → Native (Value float_value)
  double (x, _) = returns (std.f64_mul x two)

  unfoldable pub shout : Values (string_borrowed ∷ []) → Native (Value string_owned)
  shout (name, _) = returns (std.to_uppercase name)

-- The release profile wraps on overflow.
unfoldable pub add_ints : Values (int_value ∷ int_value ∷ []) → Native (Value int_value)
add_ints (a, (b, _)) = returns ((a + b) % 2 ^ 64)

unfoldable pub boom : Values [] → Native (Value int_value)
boom _ = panics

unfoldable pub greet : Values (string_owned ∷ []) → Native (Value string_owned)
greet (name, _) = returns (codes "Hello, " ++ (name ++ codes "!"))

unfoldable pub echo_bytes : Values (buffer_owned ∷ []) → Native (Value buffer_owned)
echo_bytes (bytes, _) = returns bytes

-- `data.first().copied().unwrap_or(0)`
abbrev first_or_zero : Bytes → ℕ
first_or_zero [] = 0
first_or_zero (b ∷ bs) = b

unfoldable pub first_byte : Values (buffer_borrowed ∷ []) → Native (Value int_value)
first_byte (bytes, _) = returns (first_or_zero bytes)

abbrev pub python : Bytes
python = codes "python"

-- `coreffi::call_as`; `resolved` is whether `abi()` has found the core, without which it panics.
unfoldable pub call_as :
    {R : Type 0} → Bool → Bytes → Bytes → Bytes → List GluValue → (GluResult → Native R) → Native R
call_as resolved caller m function args next =
    if resolved
    then if has_nul caller || has_nul m || has_nul function
      then panics
      else sets_identity (some caller)
          (calls (some m) (some function) args (λ r. sets_identity (some python) (next r)))
    else panics

unfoldable pub boost_with_cpp :
    Arithmetic → Bool → Values (float_value ∷ float_value ∷ []) → Native (Value float_value)
boost_with_cpp std resolved (v, (dt, _)) =
    call_as resolved (codes "physics") (codes "cpp_engine") (codes "accelerate")
      (of_word v ∷ of_word dt ∷ [])
      (λ res.
        if is_ok res.status
        then returns (std.f64_add (std.f64_mul v two) res.value.first)
        else panics)

-- What `#[export]` submits to the inventory, with the function behind the wrapper's address.
pub record GluExport : Type 0 where
  pub name : Bytes
  pub params : List Tag
  pub result : Tag
  pub function : Values params → Native (Value result)
  pub wrapper : ℕ

abbrev pub entry_of : GluExport → GluExportEntry
entry_of e = record {
  name = e.name;
  wrapper = exported e.wrapper;
  signature = signature_of (record { params = e.params; result = e.result });
}

abbrev any_nul : List GluExport → Bool
any_nul [] = false
any_nul (e ∷ es) = has_nul e.name || any_nul es

-- The inventory is a list in an order that the linker chooses. `expect` panics on a zero byte.
unfoldable pub glucore_module_info : List GluExport → Outcome GluModule
glucore_module_info inventory =
    if any_nul inventory
    then panic
    else ok (record { name = codes "physics"; entries = map entry_of inventory })
