-- ===== src/Ipc.antt =====
-- core/src/runtime.rs: a call over a socket, with the callbacks that the process module makes
-- while it handles the call. `dispatch` is passed in, and ties the knot in Dispatch.antt.
pub mod Ends
pub mod Rounds
pub mod Answers
pub mod Callbacks
pub mod Restores
use glu_core.Prelude.{
  ℕ, zero, suc, ◌+◌, ◌-◌, ◌*◌, ◌%◌, ◌^◌, Bool, true, false, Option, none, some, List, [], ◌∷◌, ◌++◌,
  Bytes, length, get_elem?, codes, show_hex, to_le, from_le, ltb, eqb, bytes_beq, if◌then◌else◌,
}
use glu_core.Outcome.{Outcome, ok, err, panic}
use glu_core.Types.{GluValue, GluResult, runtime}
use glu_core.Errors.{glu_err}
use glu_core.Utf8.{is_utf8}
use glu_core.Fctp.{msg_result, msg_callback_call}
use glu_core.Fctp.Encode.{encode_call, encode_callback_result, encode_callback_result_error}
use glu_core.Fctp.Decode.{CallbackCall, decode_result, decode_callback_call}
use glu_core.Router.{CallerGuard, current_caller_bytes, enter, drop_guard}
use glu_core.World.{World, IpcExportMeta, Run, returned, aborted, undefined, blocked, out_of_fuel}
use glu_core.Transport.Unix.{from_raw_fd, forget}
use glu_core.World.Sockets.{write_all, read_exact, waits_for}
use glu_core.Program.{Dispatch, and_then}

abbrev pub ipc_error : Bytes → World → Run
ipc_error text w = returned (glu_err runtime text) w

-- `stream.forget(); return GluResult::err(GluStatus::Runtime, …)`
abbrev pub ipc_fail : ℕ → Bytes → World → Run
ipc_fail fd text w = ipc_error text (forget (from_raw_fd fd) w)

-- The identity under which a callback is dispatched.
abbrev pub java_renderer : Bytes
java_renderer = codes "java_renderer"

-- The length of a message as a u32, and the message: `a.is_err() || b.is_err()` stops at a failure.
unfoldable pub send : ℕ → Bytes → World → Bool × World
send fd msg w =
    let first = write_all fd (to_le 4 (length msg % 2 ^ 32)) w in
    elim first.0 [ true ↦ write_all fd msg first.1 | false ↦ (false, first.1) ]

-- Both writes are tried, and their results are dropped.
unfoldable pub send_unchecked : ℕ → Bytes → World → World
send_unchecked fd msg w = (write_all fd msg (write_all fd (to_le 4 (length msg % 2 ^ 32)) w).1).1

-- The arm of `MSG_RESULT`.
unfoldable pub on_result : Outcome GluResult → World → Run
on_result (ok r) w = returned r w
on_result (err e) w = ipc_error (codes "ipc_decode_result_failed:" ++ e) w
on_result panic w = aborted

-- The nested call has returned: its result is sent, and the guard is dropped on either way out.
unfoldable pub answer : (World → Run) → ℕ → CallerGuard → GluResult → World → Run
answer again fd guard r w =
    let sent = send fd (encode_callback_result r) w in
    let w' = record (sent.1) { callers = drop_guard guard sent.1.callers } in
    elim sent.0 [
      | true ↦ again w'
      | false ↦ ipc_fail fd (codes "ipc_write_callback_result_failed") w'
    ]

unfoldable pub nested_call : Dispatch → (World → Run) → ℕ → CallbackCall → World → Run
nested_call dispatch again fd request w =
    let entered = enter java_renderer w.callers in
    and_then
      (dispatch request.module_name request.function request.args
        (record w { callers = entered.1 }))
      (answer again fd entered.0)

-- The arm of `MSG_CALLBACK_CALL`; `again w` is `continue`.
unfoldable pub on_callback : Dispatch → (World → Run) → ℕ → Outcome CallbackCall → World → Run
on_callback dispatch again fd (ok request) w = elim (bytes_beq request.module_name java_renderer) [
  | true ↦
      again
        (send_unchecked fd (encode_callback_result_error (codes "callback_self_reentry_denied")) w)
  | false ↦ nested_call dispatch again fd request w
]
on_callback dispatch again fd (err e) w =
    again (send_unchecked fd (encode_callback_result_error (codes "callback_decode_error:" ++ e)) w)
on_callback dispatch again fd panic w = aborted

-- `match resp[0]`
unfoldable pub on_message : Dispatch → (World → Run) → ℕ → Bytes → World → Run
on_message dispatch again fd [] w = ipc_fail fd (codes "ipc_empty_response") w
on_message dispatch again fd (b ∷ rest) w = elim (eqb b msg_result) [
  | true ↦
      let w' = forget (from_raw_fd fd) w in
      let decoded = decode_result (b ∷ rest) w'.mem in
      on_result decoded.0 (record w' { mem = decoded.1.mem })
  | false ↦ elim (eqb b msg_callback_call) [
    | true ↦
        let decoded = decode_callback_call (b ∷ rest) w.mem in
        on_callback dispatch again fd decoded.0 (record w { mem = decoded.1.mem })
    | false ↦ ipc_fail fd (codes "ipc_unexpected_msg_type:" ++ show_hex b) w
  ]
]

abbrev pub max_response : ℕ
max_response = 16 * 1024 * 1024

-- A read that has failed.
unfoldable pub unread : ℕ → Bytes → World → Run
unread fd text w = elim (waits_for fd w) [ true ↦ blocked | false ↦ ipc_fail fd text w ]

unfoldable pub on_body : Dispatch → (World → Run) → ℕ → Option Bytes × World → Run
on_body dispatch again fd (none, w) = unread fd (codes "ipc_read_body_failed") w
on_body dispatch again fd (some resp, w) = on_message dispatch again fd resp w

unfoldable pub on_length : Dispatch → (World → Run) → ℕ → Option Bytes × World → Run
on_length dispatch again fd (none, w) = unread fd (codes "ipc_read_len_failed") w
on_length dispatch again fd (some len_arr, w) = elim (ltb max_response (from_le len_arr)) [
  | true ↦ ipc_fail fd (codes "ipc_response_too_large") w
  | false ↦ on_body dispatch again fd (read_exact fd (from_le len_arr) w)
]

-- `loop { … }`; the fuel bounds the rounds.
unfoldable pub ipc_loop : Dispatch → ℕ → ℕ → World → Run
ipc_loop dispatch zero fd w = out_of_fuel
ipc_loop dispatch (suc rounds) fd w =
    on_length dispatch (ipc_loop dispatch rounds fd) fd (read_exact fd 4 w)

-- A round takes four bytes at least, so there are fewer rounds than bytes to come.
unfoldable pub ipc_roundtrip : Dispatch → ℕ → Bytes → World → Run
ipc_roundtrip dispatch fd msg w =
    let sent = send fd msg w in
    elim sent.0 [
      | true ↦ ipc_loop dispatch (suc (length (sent.1.socket fd).inbox)) fd sent.1
      | false ↦ ipc_fail fd (codes "ipc_write_failed") sent.1
    ]

-- `current_caller_bytes()`, or "unknown" where there is none or it is no UTF-8.
unfoldable pub caller_text : Option Bytes → Bytes
caller_text none = codes "unknown"
caller_text (some c) = if is_utf8 c then c else codes "unknown"

unfoldable pub ipc_call : Dispatch → List GluValue → ℕ → Option IpcExportMeta → World → Run
ipc_call dispatch args fd none w = ipc_error (codes "IPC export index out of range") w
ipc_call dispatch args fd (some meta) w =
    elim (encode_call w.mem meta.module_name meta.function_name
      (caller_text (current_caller_bytes w.callers)) args meta.sig.params) [
        | none ↦ undefined
        | some msg ↦ ipc_roundtrip dispatch fd msg w
      ]

-- The guard of the IPC tables lives until the call has returned.
abbrev pub holding : (World → Run) → World → Run
holding run w =
    and_then (run (record w { readers = suc w.readers }))
      (λ r w'. returned r (record w' { readers = w'.readers - 1 }))

abbrev pub ipc_in_context : Dispatch → List GluValue → Option (ℕ × ℕ) → World → Run
ipc_in_context dispatch args none w = ipc_error (codes "IPC wrapper called without context") w
ipc_in_context dispatch args (some (export_idx, sock_fd)) w =
    holding (ipc_call dispatch args sock_fd (get_elem? w.ipc.exports export_idx)) w

-- The context is an index of the IPC exports and a socket.
unfoldable pub ipc_dispatch_wrapper : Dispatch → List GluValue → World → Run
ipc_dispatch_wrapper dispatch args w = ipc_in_context dispatch args w.ctx w
