-- ===== src/Examples/Blocked.antt =====
-- The renderer calls back a function of physics that registers a module in a process of its own.
use glu_core.Prelude.{
  ◌≤◌, ◌≡◌, refl, none, Option, eqb, if◌then◌else◌, true, some, [], ◌∷◌, ◌++◌, Bytes, codes, length,
  to_le, from_le, bytes_eq, arith,
}
use glu_core.Prelude.Map.{lookup, insert, contains}
use glu_core.Outcome.{ok}
use glu_core.Types.{int, of_word, exported, from_u8, tag_byte}
use glu_core.Errors.{glu_ok, c_string}
use glu_core.Utf8.{is_utf8, valid_from, from_utf8_lossy, lossy_from, first_byte, utf8_step}
use glu_core.Fctp.{msg_callback_call}
use glu_core.Fctp.Decode.{
  CallbackCall, decode_callback_call, callback_body, check_payload, payload_fits, read_args,
}
use glu_core.Reader.{read_u32_le, read_len_bytes, take_bytes, slice, next_byte, next_byte_or}
use glu_core.Reader.At.{at}
use glu_core.Ipc.{caller_text, send, max_response}
use glu_core.Fctp.Encode.{
  encode_call, encode_args, encode_arg, argument_bytes, call_header, frame, write_len_bytes,
  write_len_str,
}
use glu_core.World.Sockets
use glu_core.World.Routes.{meta_of, route}
use glu_core.Ipc.Callbacks.{called_back}
use glu_core.Handles.{find_export, find_entry, glucore_register_module, index_entries}
use glu_core.Handles.Index.{register_all}
use glu_core.Router.{enter, current_caller_bytes, is_link_allowed_bytes}
use glu_core.World.{World, blocked}
use glu_core.World.Sockets.{read_exact}
use glu_core.Program.{Code, register_process, done}
use glu_core.Connect.{connected, connect_with_retry, attempt_from}
use glu_core.Dispatch.{dispatch}
use glu_core.Dispatch.Links.{may_call}
use glu_core.Process.{
  entry_of, parse_registration, exports_after, read_exports, read_export, read_tags, read_tag,
  max_registration,
}
use glu_core.Process.Blocks.{Arrives, Asks, dispatch-blocked}
use glu_core.Examples.Data.{world, memory, renderer, draw, draws, physics, script, step}
use glu_core.Examples.Connect.{third_attempt}
use glu_core.Examples.Process.{greeting}

-- A step that starts a module.
abbrev starting : Code
starting address args =
    register_process true third_attempt (some renderer) (some (codes "/tmp/r")) (some (codes "run"))
      (λ c. done (glu_ok (of_word c)))

abbrev asked : Bytes
asked =
    to_le 4 24
    ++ (to_le 4 7 ++ (codes "physics" ++ (to_le 4 4 ++ (codes "step" ++ (to_le 4 0 ++ (0 ∷ []))))))

abbrev request : CallbackCall
request = record { module_name = physics; function = step; args = []; arg_tags = [] }

-- The renderer is connected by 2, and another module comes by the other descriptors.
abbrev calling_world : World
calling_world = record world {
  links = (script, renderer ∷ []) ∷ (codes "java_renderer", physics ∷ []) ∷ [];
  ipc = record {
    exports = meta_of 2 renderer draws ∷ [];
    module_sockets = (renderer, 2) ∷ [];
    module_base_idx = (renderer, 0) ∷ [];
  };
  socket = λ fd.
      if eqb fd 2
      then record {
        inbox = to_le 4 (length (msg_callback_call ∷ asked)) ++ (msg_callback_call ∷ asked);
        outbox = [];
        room = 100;
      }
      else record { inbox = to_le 4 (length greeting) ++ greeting; outbox = []; room = 100 };
}

abbrev of_some : Option Bytes → Bytes
of_some none = []
of_some (some bytes) = bytes

abbrev msg : Bytes
msg = of_some (encode_call memory renderer draw script (of_word 1 ∷ []) (int ∷ []))

abbrev during : World
during = record calling_world { readers = 1; ctx = some (0, 2) }

abbrev sent : World
sent = (send 2 msg during).1

abbrev after_header : World
after_header = (read_exact 2 4 sent).1

abbrev message_there : World
message_there = (read_exact 2 (length (msg_callback_call ∷ asked)) after_header).1

abbrev called : World
called = called_back (at 29 memory) message_there

sends : send 2 msg during ≡ (true, sent)
unfolding send Sockets.write_all encode_call encode_args encode_arg argument_bytes call_header frame
    write_len_bytes write_len_str to_le
sends = refl

encoded :
    encode_call memory renderer draw
      (caller_text (current_caller_bytes calling_world.callers))
      (of_word 1 ∷ [])
      (int ∷ [])
    ≡ some msg
unfolding caller_text current_caller_bytes is_utf8 valid_from first_byte utf8_step encode_call
    encode_args encode_arg argument_bytes call_header frame write_len_bytes write_len_str
encoded = refl

length_read :
    read_exact 2 4 sent ≡ (some (to_le 4 (length (msg_callback_call ∷ asked))), after_header)
unfolding send Sockets.write_all read_exact encode_call encode_args encode_arg argument_bytes
    call_header frame write_len_bytes write_len_str to_le
length_read = refl

short : from_le (to_le 4 (length (msg_callback_call ∷ asked))) ≤ max_response
unfolding from_le to_le
short = omega arith

body_read :
    read_exact 2 (from_le (to_le 4 (length (msg_callback_call ∷ asked)))) after_header
    ≡ (some (msg_callback_call ∷ asked), message_there)
unfolding send Sockets.write_all read_exact encode_call encode_args encode_arg argument_bytes
    call_header frame write_len_bytes write_len_str to_le from_le
body_read = refl

abbrev asks : Asks 2 msg during
asks = record {
  len_arr = to_le 4 (length (msg_callback_call ∷ asked));
  body = asked;
  sent = sent;
  after_length = after_header;
  asked = message_there;
  sends = sends;
  length_read = length_read;
  fits = short;
  body_read = body_read;
}

asked_for :
    decode_callback_call (msg_callback_call ∷ asked) message_there.mem ≡ (ok request, at 29 memory)
unfolding send Sockets.write_all read_exact decode_callback_call callback_body check_payload
    payload_fits read_u32_le read_len_bytes read_args take_bytes slice next_byte_or from_le to_le
    from_utf8_lossy lossy_from first_byte utf8_step encode_call encode_args encode_arg
    argument_bytes call_header frame write_len_bytes write_len_str
asked_for = refl

may_call-renderer : may_call calling_world renderer ≡ true
unfolding current_caller_bytes is_link_allowed_bytes lookup contains
may_call-renderer = refl

may_call_back : may_call called physics ≡ true
unfolding send Sockets.write_all read_exact enter c_string current_caller_bytes
    is_link_allowed_bytes lookup contains encode_call encode_args encode_arg argument_bytes
    call_header frame write_len_bytes write_len_str to_le
may_call_back = refl

draw_found : find_entry calling_world.registry renderer draw ≡ some (0, entry_of draws)
unfolding find_entry register_all glucore_register_module lookup insert index_entries
draw_found = refl

its_socket : lookup renderer calling_world.ipc.module_sockets ≡ some 2
unfolding lookup
its_socket = refl

its_route : route calling_world.ipc renderer 0 ≡ some (meta_of 2 renderer draws)
unfolding lookup
its_route = refl

step_found : find_export message_there.registry physics step ≡ some (0, exported 5)
unfolding send Sockets.write_all read_exact find_export find_entry register_all
    glucore_register_module lookup insert index_entries encode_call encode_args encode_arg
    argument_bytes call_header frame write_len_bytes write_len_str to_le
step_found = refl

no_socket : lookup physics message_there.ipc.module_sockets ≡ none
unfolding send Sockets.write_all read_exact lookup encode_call encode_args encode_arg argument_bytes
    call_header frame write_len_bytes write_len_str to_le
no_socket = refl

connects : connect_with_retry third_attempt 5000 50 ≡ connected 3
unfolding connect_with_retry attempt_from
connects = refl

header_read : read_exact 3 4 called ≡ (some (to_le 4 (length greeting)), (read_exact 3 4 called).1)
unfolding send Sockets.write_all read_exact to_le encode_call encode_args encode_arg argument_bytes
    call_header frame write_len_bytes write_len_str
header_read = refl

fits : from_le (to_le 4 (length greeting)) ≤ max_registration
unfolding from_le to_le
fits = omega arith

greeting_read :
    read_exact 3 (from_le (to_le 4 (length greeting))) (read_exact 3 4 called).1
    ≡ (some greeting, (read_exact 3 (length greeting) (read_exact 3 4 called).1).1)
unfolding send Sockets.write_all read_exact from_le to_le encode_call encode_args encode_arg
    argument_bytes call_header frame write_len_bytes write_len_str
greeting_read = refl

parsed :
    (parse_registration greeting (record {
      off = 0;
      mem = (read_exact 3 (length greeting) (read_exact 3 4 called).1).1.mem;
    })).0
    ≡ ok (record { module_name = renderer; exports = draws ∷ [] })
unfolding parse_registration exports_after read_exports read_export read_tags read_tag
    read_len_bytes read_u32_le take_bytes slice next_byte to_le from_le from_u8 from_utf8_lossy
    lossy_from first_byte utf8_step read_exact tag_byte
parsed = refl

arrives : Arrives third_attempt called
arrives = record {
  fd = 3;
  len_arr = to_le 4 (length greeting);
  reg_data = greeting;
  reg = record { module_name = renderer; exports = draws ∷ [] };
  after_length = (read_exact 3 4 called).1;
  after_body = (read_exact 3 (length greeting) (read_exact 3 4 called).1).1;
  connects = connects;
  length_read = header_read;
  fits = fits;
  body_read = greeting_read;
  parsed = parsed;
}

dispatch-blocked_example :
    dispatch starting 2 renderer draw (of_word 1 ∷ []) calling_world ≡ blocked
unfolding lookup to_le read_exact
dispatch-blocked_example =
    dispatch-blocked starting 0 renderer draw (of_word 1 ∷ []) calling_world 2 0 (entry_of draws)
      msg asks request (at 29 memory) 0 5 third_attempt renderer (codes "/tmp/r") (codes "run")
      (λ c. done (glu_ok (of_word c))) may_call-renderer draw_found refl its_socket its_route
      encoded asked_for refl may_call_back no_socket step_found refl arrives
