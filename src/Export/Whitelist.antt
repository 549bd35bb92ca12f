-- ===== src/Export/Whitelist.antt =====
-- Which types the attribute accepts.
use glu_core.Prelude.{
  ◌≡◌, ◌↔◌, refl, true, Option, none, some, Bytes, codes, bytes_beq, bytes_beq_iff, arith,
}
use glu_core.Outcome.{ok}
use glu_core.Export.{
  SynType, path, reference, slice, tuple, no_types, PathArguments, no_arguments, angle_bracketed,
  parenthesized, GenericArguments, no_generics, type_argument, other_argument, Printer, Tag,
  int_value, float_value, string_owned, string_borrowed, buffer_owned, buffer_borrowed, nothing,
  last_segment, is_named, is_u8_type, unsupported, match_vec, match_segment, match_reference,
  match_type, match_path, match_str,
}

abbrev Last : Type 0
Last = Option (Bytes × PathArguments)

-- The last segment is `name`, without generic arguments.
abbrev IsNamed : Bytes → Last → Type 0
IsNamed name s = s ≡ some (name, no_arguments)

-- `u8`, or a path that ends in it.
abbrev pub IsU8 : SynType → Type 0
IsU8 (path p) = IsNamed (codes "u8") (last_segment p)
IsU8 _ = ⊥

abbrev pub SpellsPath : Last → Tag → Type 0
SpellsPath s float_value = IsNamed (codes "f64") s
SpellsPath s int_value = IsNamed (codes "i64") s
SpellsPath s string_owned = IsNamed (codes "String") s
SpellsPath s buffer_owned =
    (inner : SynType) × (rest : GenericArguments) × (s
      ≡ some (codes "Vec", angle_bracketed (type_argument inner rest)))
    × IsU8 inner
SpellsPath s _ = ⊥

-- The spellings of the types with a tag. A path is read by its last segment alone, a reference
-- whatever its lifetime and mutability.
abbrev pub Spells : SynType → Tag → Type 0
Spells (path p) t = SpellsPath (last_segment p) t
Spells (reference (path p)) string_borrowed =
    (generics : PathArguments) × (last_segment p ≡ some (codes "str", generics))
Spells (reference (slice elem)) buffer_borrowed = IsU8 elem
Spells (tuple no_types) nothing = Unit
Spells _ _ = ⊥

is_named_iff :
    (name : Bytes) (s : Option (Bytes × PathArguments))
    → (is_named name s ≡ true) ↔ (s ≡ some (name, no_arguments))
is_named_iff name none = ground arith
is_named_iff name (some (ident, no_arguments)) = ground (arith, bytes_beq_iff ident name)
is_named_iff name (some (ident, angle_bracketed g)) = ground arith
is_named_iff name (some (ident, parenthesized n)) = ground arith

is_u8_type_iff : (ty : SynType) → (is_u8_type ty ≡ true) ↔ IsU8 ty
unfolding is_u8_type
is_u8_type_iff (path p) = is_named_iff (codes "u8") (last_segment p)
is_u8_type_iff (reference t) = ground arith
is_u8_type_iff _ = ground arith

plain_tests :
    (ident : Bytes)
    → ((bytes_beq ident (codes "f64") ≡ true) ↔ (ident ≡ codes "f64"))
      × ((bytes_beq ident (codes "i64") ≡ true) ↔ (ident ≡ codes "i64"))
      × ((bytes_beq ident (codes "String") ≡ true) ↔ (ident ≡ codes "String"))
plain_tests ident = (
  bytes_beq_iff ident (codes "f64"),
  bytes_beq_iff ident (codes "i64"),
  bytes_beq_iff ident (codes "String"),
)

module _ (printer : Printer) where
  match_plain_iff :
      (ty : SynType) (ident : Bytes) (t : Tag)
      → (match_segment printer ty ident no_arguments ≡ ok t)
        ↔ SpellsPath (some (ident, no_arguments)) t
  unfolding match_segment unsupported
  match_plain_iff ty ident buffer_owned =
      (λ h. absurd (ground (arith, plain_tests ident)), λ h. absurd (cc (h.2)))
  match_plain_iff ty ident int_value = ground (arith, plain_tests ident)
  match_plain_iff ty ident _ = ground (arith, plain_tests ident)

  match_vec_iff :
      (ty : SynType) (ident : Bytes) (g : GenericArguments) (t : Tag)
      → (match_segment printer ty ident (angle_bracketed g) ≡ ok t)
        ↔ SpellsPath (some (ident, angle_bracketed g)) t
  unfolding match_segment match_vec unsupported
  match_vec_iff ty ident no_generics buffer_owned =
      (λ h. absurd (ground arith), λ h. absurd (cc (h.2)))
  match_vec_iff ty ident (other_argument n g) buffer_owned =
      (λ h. absurd (ground arith), λ h. absurd (cc (h.2)))
  match_vec_iff ty ident (type_argument inner g) buffer_owned = (
    λ h.
        let u8 : is_u8_type inner ≡ true = ground arith in
        let vec : ident ≡ codes "Vec" = ground (arith, bytes_beq_iff ident (codes "Vec")) in
        (inner, g, ground (arith, vec), (is_u8_type_iff inner).0 u8),
    λ h.
        let same : inner ≡ h.0 = cc (h.2) in
        let u8 : is_u8_type inner ≡ true = rw same ((is_u8_type_iff h.0).1 h.3) in
        ground (arith, h.2, u8, bytes_beq_iff ident (codes "Vec")),
  )
  match_vec_iff ty ident no_generics int_value = ground arith
  match_vec_iff ty ident no_generics _ = ground arith
  match_vec_iff ty ident (other_argument n g) int_value = ground arith
  match_vec_iff ty ident (other_argument n g) _ = ground arith
  match_vec_iff ty ident (type_argument inner g) int_value = ground arith
  match_vec_iff ty ident (type_argument inner g) _ = ground arith

  match_path_iff :
      (ty : SynType) (s : Last) (t : Tag) → (match_path printer ty s ≡ ok t) ↔ SpellsPath s t
  unfolding match_segment unsupported
  match_path_iff ty none buffer_owned = (λ h. absurd (cc), λ h. absurd (cc (h.2)))
  match_path_iff ty none t = ground arith
  match_path_iff ty (some (ident, no_arguments)) t = match_plain_iff ty ident t
  match_path_iff ty (some (ident, angle_bracketed g)) t = match_vec_iff ty ident g t
  match_path_iff ty (some (ident, parenthesized n)) buffer_owned =
      (λ h. absurd (cc), λ h. absurd (cc (h.2)))
  match_path_iff ty (some (ident, parenthesized n)) t = ground arith

  match_str_iff :
      (s : Last) (t : Tag)
      → (match_str printer s ≡ ok t)
        ↔ ((t ≡ string_borrowed) × (generics : PathArguments) × (s ≡ some (codes "str", generics)))
  match_str_iff none t = (λ h. absurd (cc), λ h. absurd (cc (h.2)))
  match_str_iff (some (ident, generics)) t = (
    λ h.
        let str : ident ≡ codes "str" = ground (arith, bytes_beq_iff ident (codes "str")) in
        (ground arith, generics, ground (arith, str)),
    λ h. ground (arith, h.0, h.2, bytes_beq_iff ident (codes "str")),
  )

  -- A type is accepted exactly in the following cases, and with the tag of the case: a path whose
  -- last segment is `f64`, `i64` or `String` without generic arguments, whatever comes before it;
  -- a path whose last segment is `Vec` and has as its first generic argument a path that ends in a
  -- plain `u8`, whatever arguments follow; a reference, with any lifetime and mutability, to a
  -- path whose last segment is `str`, whatever its generic arguments, or to a slice of a path that
  -- ends in a plain `u8`; and `()`.
  pub match_type_iff : (ty : SynType) (t : Tag) → (match_type printer ty ≡ ok t) ↔ Spells ty t
  unfolding match_type match_reference unsupported
  match_type_iff (path p) t = match_path_iff (path p) (last_segment p) t
  match_type_iff (reference (path p)) string_borrowed =
      let same = match_str_iff (last_segment p) string_borrowed in
      (λ h. ((same.0 h).1, (same.0 h).2), λ h. same.1 (refl, h.0, h.1))
  match_type_iff (reference (path p)) int_value =
      (λ h. absurd (cc ((match_str_iff (last_segment p) int_value).0 h).0), λ h. absurd h)
  match_type_iff (reference (path p)) t =
      (λ h. absurd (cc ((match_str_iff (last_segment p) t).0 h).0), λ h. absurd h)
  match_type_iff (reference (slice e)) buffer_borrowed = ground (arith, is_u8_type_iff e)
  match_type_iff (reference (slice e)) _ = ground arith
  match_type_iff (reference (tuple e)) t = ground arith
  match_type_iff (reference _) t = ground arith
  match_type_iff (tuple no_types) nothing = ground arith
  match_type_iff (tuple no_types) _ = ground arith
  match_type_iff (slice e) t = ground arith
  match_type_iff _ t = ground arith
