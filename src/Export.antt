-- ===== src/Export.antt =====
-- adapters/rust/src/lib.rs: the attribute `#[export]`. It reads the types of a function's signature
-- and writes a wrapper around the function. Here the syntax of types is data, with the constructors
-- of `syn` that the source tells apart; printing it is `syn`'s and `quote`'s.
pub mod Whitelist
pub mod Inputs
pub mod Native
pub mod Wrapper
pub mod Unpack
pub mod Pack
pub mod Returns
pub mod Released
pub mod Dispatched
pub mod CalledBack
use glu_core.Prelude.{
  ℕ, Bool, true, false, ◌&&◌, Option, none, some, List, [], ◌∷◌, ◌++◌, map, Bytes, codes, bytes_beq,
  eqb, if◌then◌else◌,
}
use glu_core.Outcome.{Outcome, ok, err, panic}
use glu_core.Types.{GluTypeTag, int, float, string, buffer, void}

-- `other_…` is whatever the source does not name, numbered.
mutual
  pub data SynType : Type 0 where
    path : Segments → SynType
    reference : SynType → SynType
    slice : SynType → SynType
    tuple : SynTypes → SynType
    other_type : ℕ → SynType

  pub data SynTypes : Type 0 where
    no_types : SynTypes
    and_type : SynType → SynTypes → SynTypes

  pub data Segments : Type 0 where
    no_segments : Segments
    segment : Bytes → PathArguments → Segments → Segments

  pub data PathArguments : Type 0 where
    no_arguments : PathArguments
    angle_bracketed : GenericArguments → PathArguments
    parenthesized : ℕ → PathArguments

  pub data GenericArguments : Type 0 where
    no_generics : GenericArguments
    type_argument : SynType → GenericArguments → GenericArguments
    other_argument : ℕ → GenericArguments → GenericArguments

-- `ToTokens::to_token_stream(…).to_string()`
pub record Printer : Type 0 where
  pub print_type : SynType → Bytes
  pub print_argument : ℕ → Bytes

pub data Tag : Type 0 where
  int_value float_value string_owned string_borrowed buffer_owned buffer_borrowed nothing : Tag

-- `segments.last()`
abbrev pub last_segment : Segments → Option (Bytes × PathArguments)
last_segment no_segments = none
last_segment (segment ident generics no_segments) = some (ident, generics)
last_segment (segment ident generics (segment i a rest)) = last_segment (segment i a rest)

abbrev pub is_named : Bytes → Option (Bytes × PathArguments) → Bool
is_named name (some (ident, no_arguments)) = bytes_beq ident name
is_named name _ = false

unfoldable pub is_u8_type : SynType → Bool
is_u8_type (path p) = is_named (codes "u8") (last_segment p)
is_u8_type _ = false

-- `.replace(" ", "")`
abbrev pub without_spaces : Bytes → Bytes
without_spaces [] = []
without_spaces (b ∷ bs) = if eqb b 32 then without_spaces bs else b ∷ without_spaces bs

abbrev pub expected_types : Bytes
expected_types = codes "', expected one of: f64, i64, String, &str, Vec<u8>, &[u8]"

module _ (printer : Printer) where
  abbrev pub type_to_string : SynType → Bytes
  type_to_string ty = without_spaces (printer.print_type ty)

  unfoldable pub unsupported : SynType → Outcome Tag
  unsupported ty = err (
      codes "glucore::export: unsupported parameter/return type '"
      ++ (type_to_string ty ++ expected_types))

  abbrev pub not_vec_u8 : Bytes → Outcome Tag
  not_vec_u8 inner = err (
      codes "glucore::export: unsupported Vec<T> type, only Vec<u8> is supported (got Vec<"
      ++ (inner ++ codes ">)"))

  -- The arm of `Vec<…>`: only the first argument is looked at.
  unfoldable pub match_vec : GenericArguments → Outcome Tag
  match_vec no_generics = err (codes "Vec<> without type arg")
  match_vec (type_argument inner rest) =
      if is_u8_type inner then ok buffer_owned else not_vec_u8 (type_to_string inner)
  match_vec (other_argument n rest) = not_vec_u8 (without_spaces (printer.print_argument n))

  -- `match (ident.as_str(), &seg.arguments)`
  unfoldable pub match_segment : SynType → Bytes → PathArguments → Outcome Tag
  match_segment ty ident no_arguments =
      if bytes_beq ident (codes "f64")
      then ok float_value
      else if bytes_beq ident (codes "i64")
      then ok int_value
      else if bytes_beq ident (codes "String")
      then ok string_owned
      else unsupported ty
  match_segment ty ident (angle_bracketed args) =
      if bytes_beq ident (codes "Vec") then match_vec args else unsupported ty
  match_segment ty ident (parenthesized n) = unsupported ty

  abbrev pub match_path : SynType → Option (Bytes × PathArguments) → Outcome Tag
  match_path ty none = err (codes "empty type path")
  match_path ty (some (ident, generics)) = match_segment ty ident generics

  abbrev pub match_str : Option (Bytes × PathArguments) → Outcome Tag
  match_str none = err (codes "empty type path")
  match_str (some (ident, generics)) =
      if bytes_beq ident (codes "str")
      then ok string_borrowed
      else err (
          codes "glucore::export: unsupported reference type '&"
          ++ (ident ++ codes "', expected &str or &[u8]"))

  -- The arm of `Type::Reference`, by what is referred to.
  unfoldable pub match_reference : SynType → SynType → Outcome Tag
  match_reference ty (path p) = match_str (last_segment p)
  match_reference ty (slice elem) =
      if is_u8_type elem
      then ok buffer_borrowed
      else err (
          codes "glucore::export: unsupported slice type '&["
          ++ (type_to_string elem ++ codes "]', expected &[u8]"))
  match_reference ty _ = err (
      codes "glucore::export: unsupported reference type '"
      ++ (type_to_string ty ++ codes "', expected &str or &[u8]"))

  unfoldable pub match_type : SynType → Outcome Tag
  match_type (path p) = match_path (path p) (last_segment p)
  match_type (reference elem) = match_reference (reference elem) elem
  match_type (tuple no_types) = ok nothing
  match_type ty = unsupported ty

unfoldable pub tag_to_core_variant : Tag → GluTypeTag
tag_to_core_variant int_value = int
tag_to_core_variant float_value = float
tag_to_core_variant string_owned = string
tag_to_core_variant string_borrowed = string
tag_to_core_variant buffer_owned = buffer
tag_to_core_variant buffer_borrowed = buffer
tag_to_core_variant nothing = void
