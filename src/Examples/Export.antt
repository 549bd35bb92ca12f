-- ===== src/Examples/Export.antt =====
-- The attribute on functions of the physics module, and calls of the wrappers that it writes.
use glu_core.Prelude.{◌≡◌, ◌↔◌, refl, List, [], ◌∷◌, Bytes, codes, some, bytes_eq, arith, map}
use glu_core.Prelude.Map.{lookup}
use glu_core.Outcome.{ok}
use glu_core.Types.{GluValue, of_slice}
use glu_core.Errors.{glu_ok}
use glu_core.Utf8.{from_utf8_lossy, lossy_from, first_byte, utf8_step}
use glu_core.Memory.{Memory, IsSound, slice_of, from_raw_parts}
use glu_core.Fctp.Content.{Content, text, content, Describes}
use glu_core.Fctp.Encode.{argument_bytes}
use glu_core.World.{World, returned}
use glu_core.Program.{Dispatch, run_program}
use glu_core.Dispatch.{dispatch}
use glu_core.Export.{
  SynType, path, no_segments, segment, no_arguments, angle_bracketed, type_argument, no_generics,
  Printer, string_owned, buffer_owned, tag_to_core_variant, match_type,
}
use glu_core.Export.Whitelist.{Spells, match_type_iff}
use glu_core.Export.Inputs.{typed, arrow, export, export_iff, SpellInputs, SpellsOutput}
use glu_core.Export.Native.{returns}
use glu_core.Export.Wrapper.{wrapper}
use glu_core.Export.Unpack.{value_of, values_of}
use glu_core.Export.Pack.{said, packed}
use glu_core.Export.Returns.{wrapper_returns}
use glu_core.Physics.{greet}
use glu_core.Examples.Data.{world, code, hi}

abbrev printer : Printer
printer = record { print_type = λ t. codes "T"; print_argument = λ n. codes "A" }

abbrev named : Bytes → SynType
named name = path (segment name no_arguments no_segments)

-- `std::vec::Vec<u8>`
abbrev bytes_type : SynType
bytes_type = path (
    segment (codes "std") no_arguments (
      segment (codes "vec") no_arguments (
        segment (codes "Vec") (angle_bracketed (type_argument (named (codes "u8")) no_generics))
          no_segments)))

match_type_iff_example :
    (match_type printer bytes_type ≡ ok buffer_owned) ↔ Spells bytes_type buffer_owned
match_type_iff_example = match_type_iff printer bytes_type buffer_owned

export_iff_example :
    (export printer (typed (named (codes "String")) ∷ []) (arrow (named (codes "String")))
      ≡ ok (record { params = string_owned ∷ []; result = string_owned }))
    ↔ (SpellInputs (typed (named (codes "String")) ∷ []) (string_owned ∷ [])
        × SpellsOutput (arrow (named (codes "String"))) string_owned)
export_iff_example =
    export_iff printer (typed (named (codes "String")) ∷ []) (arrow (named (codes "String")))
      (string_owned ∷ []) string_owned

abbrev core : Dispatch
core = dispatch code 1

abbrev one_text : List Content
one_text = text (104 ∷ 105 ∷ []) ∷ []

hi-described :
    Describes world.mem (of_slice hi ∷ []) (map tag_to_core_variant (string_owned ∷ [])) one_text
unfolding content tag_to_core_variant argument_bytes from_raw_parts slice_of lookup
hi-described = (refl, omega arith, tt)

hi-passed : values_of (string_owned ∷ []) one_text ≡ some (104 ∷ 105 ∷ [], tt)
unfolding value_of from_utf8_lossy lossy_from first_byte utf8_step
hi-passed = refl

abbrev hello : Bytes
hello = codes "Hello, hi!"

greets : greet (104 ∷ 105 ∷ [], tt) ≡ returns hello
unfolding greet
greets = refl

wrapper_returns_example :
    (v : GluValue) × (mem : Memory) × (run_program core
        (wrapper (codes "greet") (string_owned ∷ []) string_owned greet (of_slice hi ∷ []))
        world
      ≡ returned (glu_ok v) (record world { mem = mem }))
    × (content mem (tag_to_core_variant string_owned) v ≡ some (said string_owned hello))
    × (IsSound world.mem → IsSound mem)
wrapper_returns_example =
    wrapper_returns core (codes "greet") (string_owned ∷ []) string_owned greet world
      (of_slice hi ∷ []) [] one_text (104 ∷ 105 ∷ [], tt) hi-described hi-passed hello greets

abbrev greeted : World
greeted = record world { mem = (packed string_owned hello world.mem).1 }
