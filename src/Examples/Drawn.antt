-- ===== src/Examples/Drawn.antt =====
-- A call of the renderer, which answers 3.
use glu_core.Prelude.{◌≡◌, refl, some, [], ◌∷◌, bytes_eq, to_le, from_le}
use glu_core.Prelude.Map.{lookup, insert, contains}
use glu_core.Types.{ipc_wrapper, of_word, tag_byte, from_u8}
use glu_core.Errors.{glu_ok}
use glu_core.Utf8.{is_utf8, valid_from, first_byte, utf8_step}
use glu_core.Fctp.Encode.{
  encode_call, encode_args, encode_arg, call_header, frame, write_len_str, write_len_bytes,
}
use glu_core.Fctp.Decode.{
  decode_result, decode_body, check_payload, decode_ok, read_value, payload_fits,
}
use glu_core.Reader.{read_u32_le, read_u64_le, next_byte, slice, take_bytes}
use glu_core.Handles.{find_export, find_entry, glucore_register_module, index_entries}
use glu_core.Handles.Index.{register_all}
use glu_core.Router.{current_caller_bytes, is_link_allowed_bytes}
use glu_core.World.{World, Run, returned}
use glu_core.World.Sockets.{write_all, read_exact}
use glu_core.Ipc.{
  ipc_dispatch_wrapper, ipc_call, caller_text, ipc_roundtrip, send, ipc_loop, on_length, on_body,
  on_message, on_result,
}
use glu_core.Dispatch.{dispatch, dispatch_with, call_export, call_wrapper, invoke}
use glu_core.Dispatch.Ends.{dispatch_process-ipc}
use glu_core.Examples.Data.{world, code, renderer, draw}

abbrev world_of : Run → World
world_of (returned r w) = w
world_of other = world

abbrev after_draw : World
after_draw = world_of (dispatch code 1 renderer draw (of_word 7 ∷ []) world)

draw_returns :
    dispatch code 1 renderer draw (of_word 7 ∷ []) world ≡ returned (glu_ok (of_word 3)) after_draw
unfolding dispatch dispatch_with current_caller_bytes is_link_allowed_bytes lookup contains
    call_export find_export find_entry register_all glucore_register_module insert index_entries
    call_wrapper invoke ipc_dispatch_wrapper ipc_call encode_call encode_args encode_arg call_header
    frame write_len_str write_len_bytes caller_text is_utf8 valid_from first_byte utf8_step tag_byte
    to_le from_le ipc_roundtrip send write_all ipc_loop on_length read_exact on_body on_message
    decode_result decode_body check_payload decode_ok read_value on_result read_u32_le read_u64_le
    next_byte payload_fits take_bytes slice from_u8
draw_returns = refl

draw_found : find_export world.registry renderer draw ≡ some (0, ipc_wrapper)
unfolding find_export find_entry register_all glucore_register_module lookup insert index_entries
draw_found = refl

dispatch_process-ipc_example : after_draw.ipc ≡ world.ipc
dispatch_process-ipc_example =
    dispatch_process-ipc code 0 renderer draw (of_word 7 ∷ []) world after_draw 0 _ draw_found
      draw_returns
