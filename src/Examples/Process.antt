-- ===== src/Examples/Process.antt =====
-- The registration of the renderer over a socket, and a call that is routed to it.
use glu_core.Prelude.{
  ◌-◌, ℕ, ◌≢◌, ◌+◌, ◌≡◌, refl, true, bytes_eq, some, [], ◌∷◌, ◌++◌, Bytes, codes, length, to_le,
  from_le, arith,
}
use glu_core.Prelude.Map.{lookup, insert}
use glu_core.Outcome.{ok}
use glu_core.Types.{from_u8, tag_byte}
use glu_core.Utf8.{is_utf8, valid_from, from_utf8_lossy, lossy_from, first_byte, utf8_step}
use glu_core.Reader.{take_bytes, slice, read_u32_le, read_len_bytes, next_byte}
use glu_core.Reader.At.{at}
use glu_core.Handles.{empty_registry}
use glu_core.Handles.Index.{IsIndexed-empty}
use glu_core.World.{World}
use glu_core.World.Sockets.{read_exact}
use glu_core.Fctp.{msg_result}
use glu_core.Fctp.Decode.{decode_result}
use glu_core.Ipc.Answers.{ipc_roundtrip_answered}
use glu_core.Ipc.{on_result, ipc_roundtrip}
use glu_core.World.Routes.{IsRouted, Routes-empty}
use glu_core.Dispatch.{dispatch}
use glu_core.Process.{
  ended, read_tag, read_tags, read_export, read_exports, exports_after, parse_registration, any_nul,
  install, on_registration, on_registration_body, on_registration_length, register_named,
  glucore_register_process_module,
}
use glu_core.Connect.{attempt_from, connect_with_retry}
use glu_core.Examples.Connect.{third_attempt}
use glu_core.Process.Failed.{ConnectedOrNothing, register_process-AllOrNothing}
use glu_core.Process.Installs.{install-IsRouted}
use glu_core.Process.Message.{registration_bytes, parse_registration_lem}
use glu_core.Session.{no_exports}
use glu_core.Examples.Data.{world, memory, code, renderer, draws}

parse_registration_lem_example :
    parse_registration (registration_bytes renderer (draws ∷ [])) (at 0 memory) ≡ (
      ok (record { module_name = renderer; exports = draws ∷ [] }),
      at (length (registration_bytes renderer (draws ∷ []))) memory,
    )
unfolding is_utf8 valid_from first_byte utf8_step
parse_registration_lem_example =
    parse_registration_lem renderer (draws ∷ []) memory (omega arith) refl (omega arith)
      ((refl, omega arith, omega arith), tt)

abbrev pub greeting : Bytes
greeting = registration_bytes renderer (draws ∷ [])

abbrev pub bare : World
bare = record world {
  registry = empty_registry;
  ipc = no_exports;
  socket = λ fd. record { inbox = to_le 4 (length greeting) ++ greeting; outbox = []; room = 1000 };
}

abbrev pub registered : World
registered =
    install 3 renderer (draws ∷ []) (read_exact 3 (length greeting) (read_exact 3 4 bare).1).1

pub registers :
    glucore_register_process_module true third_attempt
      (some renderer)
      (some (codes "/tmp/r"))
      (some (codes "run"))
      bare
    ≡ ended 0 registered
unfolding glucore_register_process_module connect_with_retry attempt_from register_named
    on_registration_length on_registration_body on_registration any_nul parse_registration
    exports_after read_exports read_export read_tags read_tag read_len_bytes read_u32_le take_bytes
    slice next_byte to_le from_le from_u8 from_utf8_lossy lossy_from first_byte utf8_step read_exact
    tag_byte
registers = refl

register_process-AllOrNothing_example :
    ConnectedOrNothing
      (connect_with_retry third_attempt 5000 50)
      (from_utf8_lossy renderer)
      bare
      0
      registered
register_process-AllOrNothing_example =
    register_process-AllOrNothing true third_attempt renderer (codes "/tmp/r") (codes "run") bare
      registered 0 registers

bare-IsRouted : IsRouted bare
bare-IsRouted = Routes-empty no_exports

abbrev pub served : World
served = install 3 renderer (draws ∷ []) bare

pub served-IsRouted : IsRouted served
served-IsRouted = install-IsRouted 3 renderer (draws ∷ []) bare IsIndexed-empty bare-IsRouted

pub its_socket : lookup renderer served.ipc.module_sockets ≡ some 3
unfolding lookup insert install
its_socket = refl

abbrev call_payload : Bytes
call_payload =
    (6 ∷ 0 ∷ 0 ∷ 0 ∷ codes "render")
    ++ (4 ∷ 0 ∷ 0 ∷ 0 ∷ codes "draw")
    ++ (6 ∷ 0 ∷ 0 ∷ 0 ∷ codes "script")
    ++ (1 ∷ 0 ∷ 7 ∷ 0 ∷ 0 ∷ 0 ∷ 0 ∷ 0 ∷ 0 ∷ 0 ∷ [])

abbrev pub call_message : Bytes
call_message = 0 ∷ 38 ∷ 0 ∷ 0 ∷ 0 ∷ call_payload

-- The renderer's answer, a RESULT with an integer; a byte of the next message is there already.
abbrev answer_body : Bytes
answer_body = 10 ∷ 0 ∷ 0 ∷ 0 ∷ 0 ∷ 0 ∷ 3 ∷ 0 ∷ 0 ∷ 0 ∷ 0 ∷ 0 ∷ 0 ∷ 0 ∷ 0 ∷ []

abbrev answering : World
answering = record world {
  socket = λ fd. record {
    inbox = to_le 4 (length (msg_result ∷ answer_body)) ++ ((msg_result ∷ answer_body) ++ (9 ∷ []));
    outbox = [];
    room = 100;
  };
}

ipc_roundtrip_answered_example :
    (w' : World) × (ipc_roundtrip (dispatch code 0) 3 call_message answering
      ≡ on_result (decode_result (msg_result ∷ answer_body) answering.mem).0 w')
    × (w'.socket 3 ≡ record {
      inbox = 9 ∷ [];
      outbox = (answering.socket 3).outbox ++ (to_le 4 (length call_message) ++ call_message);
      room = (answering.socket 3).room - (length call_message + 4);
    })
    × ((i : ℕ) → i ≢ 3 → w'.socket i ≡ answering.socket i)
    × (w'.mem ≡ (decode_result (msg_result ∷ answer_body) answering.mem).1.mem)
ipc_roundtrip_answered_example =
    ipc_roundtrip_answered (dispatch code 0) 3 call_message answer_body (9 ∷ []) answering
      (omega arith) (omega arith) (omega arith) (omega arith) refl
