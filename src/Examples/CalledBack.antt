-- ===== src/Examples/CalledBack.antt =====
-- The renderer, in a process of its own, calls a function of physics.
use glu_core.Prelude.{
  to_le, from_le, ◌++◌, ◌≡◌, refl, true, [], ◌∷◌, Bytes, codes, some, bytes_eq, arith, map,
}
use glu_core.Prelude.Map.{lookup, insert, contains}
use glu_core.Outcome.{ok}
use glu_core.Types.{GluValue, of_word, of_slice, exported, string, from_u8}
use glu_core.Errors.{glu_ok, c_string}
use glu_core.Utf8.{from_utf8_lossy, lossy_from, first_byte, utf8_step}
use glu_core.Memory.{slice_of, from_raw_parts, to_vec}
use glu_core.Fctp.Encode.{argument_bytes, encode_callback_result}
use glu_core.Fctp.Content.{text, content, Describes}
use glu_core.Fctp.{msg_callback_call}
use glu_core.Fctp.Decode.{
  CallbackCall, decode_callback_call, callback_body, check_payload, payload_fits, read_args,
  read_value,
}
use glu_core.Reader.{
  copy, read_u32_le, read_u64_le, read_len_bytes, take_bytes, slice, next_byte_or,
}
use glu_core.Reader.At.{at}
use glu_core.Ipc.{on_message}
use glu_core.Ipc.Callbacks.{Said, called_back}
use glu_core.Export.CalledBack.{callback_exported}
use glu_core.Handles.{find_export, find_entry, glucore_register_module, index_entries}
use glu_core.Handles.Index.{register_all}
use glu_core.Router.{enter, current_caller_bytes, is_link_allowed_bytes}
use glu_core.World.{World, returned}
use glu_core.Dispatch.{dispatch}
use glu_core.Dispatch.Links.{may_call}
use glu_core.Export.{string_owned, tag_to_core_variant}
use glu_core.Export.Pack.{said}
use glu_core.Physics.{greet}
use glu_core.Examples.Physics.{physics_code, loaded, hello, greets, hi-passed, no_socket}

-- The renderer asks for greet("hi") while it handles a call.
abbrev asked : Bytes
asked =
    to_le 4 32
    ++ (to_le 4 7
        ++ (codes "physics"
            ++ (to_le 4 5
                ++ (codes "greet" ++ (to_le 4 0 ++ (1 ∷ 2 ∷ (to_le 4 2 ++ (104 ∷ 105 ∷ []))))))))

abbrev request : CallbackCall
request = record {
  module_name = codes "physics";
  function = codes "greet";
  args = of_slice (record { ptr = 64; len = 2 }) ∷ [];
  arg_tags = string ∷ [];
}

abbrev open_to_java : World
open_to_java = record loaded { links = (codes "java_renderer", codes "physics" ∷ []) ∷ [] }

asked_for :
    decode_callback_call (msg_callback_call ∷ asked) open_to_java.mem
    ≡ (ok request, at 37 (to_vec (104 ∷ 105 ∷ []) open_to_java.mem).1)
unfolding decode_callback_call callback_body check_payload payload_fits read_u32_le read_u64_le
    read_len_bytes read_args read_value take_bytes slice next_byte_or from_le from_u8 to_le
    from_utf8_lossy lossy_from first_byte utf8_step copy to_vec
asked_for = refl

may_call_back :
    may_call
      (called_back (at 37 (to_vec (104 ∷ 105 ∷ []) open_to_java.mem).1) open_to_java)
      (codes "physics")
    ≡ true
unfolding enter c_string current_caller_bytes is_link_allowed_bytes lookup contains
may_call_back = refl

greet_found :
    find_export open_to_java.registry (codes "physics") (codes "greet") ≡ some (1, exported 20)
unfolding find_export find_entry register_all glucore_register_module lookup insert index_entries
greet_found = refl

asked-described :
    Describes
      (to_vec (104 ∷ 105 ∷ []) open_to_java.mem).1
      request.args
      (map tag_to_core_variant (string_owned ∷ []))
      (text (104 ∷ 105 ∷ []) ∷ [])
unfolding content tag_to_core_variant argument_bytes from_raw_parts slice_of lookup insert to_vec
asked-described = (refl, omega arith, tt)

callback_exported_example :
    (v : GluValue) × (w' : World) × (on_message
        (dispatch physics_code 1)
        (λ w. returned (glu_ok (of_word 0)) w)
        3
        (msg_callback_call ∷ asked)
        open_to_java
      ≡ returned (glu_ok (of_word 0)) w')
    × Said 3 (encode_callback_result (glu_ok v)) open_to_java w'
    × (content w'.mem (tag_to_core_variant string_owned) v ≡ some (said string_owned hello))
    × (w'.callers ≡ open_to_java.callers)
callback_exported_example =
    callback_exported physics_code 0 (λ w. returned (glu_ok (of_word 0)) w) 3 asked open_to_java
      request (at 37 (to_vec (104 ∷ 105 ∷ []) open_to_java.mem).1) (codes "greet")
      (string_owned ∷ []) string_owned greet (text (104 ∷ 105 ∷ []) ∷ []) (104 ∷ 105 ∷ [], tt) hello
      1 20 asked_for refl may_call_back no_socket greet_found refl asked-described hi-passed greets
      (omega arith) (omega arith)
