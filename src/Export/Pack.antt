-- ===== src/Export/Pack.antt =====
-- What the result of an exported function is, once it is packed.
use glu_core.Prelude.{◌≡◌, refl, some}
use glu_core.Types.{GluValue, of_word, of_slice}
use glu_core.Memory.{Memory, IsSound, to_vec, slice_of}
use glu_core.Memory.Alloc.{from_raw_parts-to_vec, to_vec-IsSound}
use glu_core.Fctp.Encode.{argument_bytes}
use glu_core.Fctp.Content.{Content, word, text, empty, content}
use glu_core.World.{World}
use glu_core.Program.{Dispatch, Program, run_program}
use glu_core.Export.{
  Tag, int_value, float_value, string_owned, string_borrowed, buffer_owned, buffer_borrowed,
  nothing, tag_to_core_variant,
}
use glu_core.Export.Native.{Value}
use glu_core.Export.Wrapper.{pack}

-- What a result says.
unfoldable pub said : (t : Tag) → Value t → Content
said int_value x = word x
said float_value x = word x
said string_owned x = text x
said string_borrowed x = text x
said buffer_owned x = text x
said buffer_borrowed x = text x
said nothing x = empty

-- The packed result in memory.
unfoldable pub packed : (t : Tag) → Value t → Memory → GluValue × Memory
packed int_value x m = (of_word x, m)
packed float_value x m = (of_word x, m)
packed string_owned x m = (of_slice (to_vec x m).0, (to_vec x m).1)
packed string_borrowed x m = (of_slice (to_vec x m).0, (to_vec x m).1)
packed buffer_owned x m = (of_slice (to_vec x m).0, (to_vec x m).1)
packed buffer_borrowed x m = (of_slice (to_vec x m).0, (to_vec x m).1)
packed nothing x m = (of_word 0, m)

pub content-packed :
    (t : Tag) (x : Value t) (m : Memory)
    → content (packed t x m).1 (tag_to_core_variant t) (packed t x m).0 ≡ some (said t x)
unfolding packed said content tag_to_core_variant argument_bytes slice_of
content-packed int_value x m = refl
content-packed float_value x m = refl
content-packed nothing x m = refl
content-packed string_owned x m = rw (from_raw_parts-to_vec x m)
content-packed string_borrowed x m = rw (from_raw_parts-to_vec x m)
content-packed buffer_owned x m = rw (from_raw_parts-to_vec x m)
content-packed buffer_borrowed x m = rw (from_raw_parts-to_vec x m)

pub packed-IsSound : (t : Tag) (x : Value t) (m : Memory) → IsSound m → IsSound (packed t x m).1
unfolding packed
packed-IsSound int_value x m s = s
packed-IsSound float_value x m s = s
packed-IsSound nothing x m s = s
packed-IsSound string_owned x m s = to_vec-IsSound x m s
packed-IsSound string_borrowed x m s = to_vec-IsSound x m s
packed-IsSound buffer_owned x m s = to_vec-IsSound x m s
packed-IsSound buffer_borrowed x m s = to_vec-IsSound x m s

module _ (dispatch : Dispatch) (w : World) where
  pub pack_lem :
      (t : Tag) (x : Value t) (next : GluValue → Program)
      → run_program dispatch (pack t x next) w
        ≡ run_program dispatch (next (packed t x w.mem).0) (record w { mem = (packed t x w.mem).1 })
  unfolding pack packed run_program
  pack_lem int_value x next = refl
  pack_lem float_value x next = refl
  pack_lem nothing x next = refl
  pack_lem string_owned x next = refl
  pack_lem string_borrowed x next = refl
  pack_lem buffer_owned x next = refl
  pack_lem buffer_borrowed x next = refl
