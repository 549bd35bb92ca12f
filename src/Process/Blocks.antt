-- ===== src/Process/Blocks.antt =====
-- A registration by a thread that holds a guard of the IPC tables: `ipc_dispatch_wrapper` of
-- core/src/runtime.rs holds one for the whole of a call over a socket, and the registration waits for
-- the write lock.
use glu_core.Prelude.{
  ℕ, suc, ◌+◌, ◌≤◌, ◌<◌, ◌≡◌, refl, List, length, ap, ◌∙◌, Bool, codes, true, false, none, some,
  ◌∷◌, Bytes, from_le, ltb, arith, bytes_beq, bytes_eq,
}
use glu_core.Prelude.Map.{lookup}
use glu_core.Outcome.{ok}
use glu_core.Types.{GluValue, GluExportEntry, exported, ipc_wrapper}
use glu_core.Fctp.{msg_callback_call}
use glu_core.Fctp.Decode.{CallbackCall, decode_callback_call}
use glu_core.Handles.{find_entry, find_export}
use glu_core.Router.{current_caller_bytes}
use glu_core.Fctp.Encode.{encode_call}
use glu_core.World.Routes.{base_or_zero, meta_of, route}
use glu_core.Process.Routed.{dispatch-over_socket}
use glu_core.Ipc.Ends.{Later-send}
use glu_core.Reader.{Cursor}
use glu_core.World.{World, Run, blocked}
use glu_core.World.Later.{Anywhere, Later-read_exact}
use glu_core.World.Sockets.{read_exact}
use glu_core.Program.{Dispatch, Program, Code, register_process, run_program}
use glu_core.Connect.{Attempts, connected, connect_with_retry}
use glu_core.Dispatch.{dispatch}
use glu_core.Dispatch.Compiled.{dispatch_compiled}
use glu_core.Dispatch.Links.{may_call}
use glu_core.Ipc.{
  java_renderer, on_message, on_callback, nested_call, send, ipc_roundtrip, ipc_loop, on_length,
  on_body, ipc_fail, max_response, caller_text,
}
use glu_core.Ipc.Callbacks.{called_back}
use glu_core.Process.{
  IpcRegistration, stuck, parse_registration, max_registration, on_registration,
  on_registration_body, on_registration_length, register_named, glucore_register_process_module,
}

-- The message of a process module that was started and connected to, from its length to what it says.
pub record Arrives (os : Attempts) (w : World) : Type 0 where
  pub fd : ℕ
  pub len_arr : Bytes
  pub reg_data : Bytes
  pub reg : IpcRegistration
  pub after_length : World
  pub after_body : World
  pub connects : connect_with_retry os 5000 50 ≡ connected fd
  pub length_read : read_exact fd 4 w ≡ (some len_arr, after_length)
  pub fits : from_le len_arr ≤ max_registration
  pub body_read : read_exact fd (from_le len_arr) after_length ≡ (some reg_data, after_body)
  pub parsed : (parse_registration reg_data (record { off = 0; mem = after_body.mem })).0 ≡ ok reg

module _ (os : Attempts) (w : World) (a : Arrives os w) (held : 0 < w.readers) where
  still_held : ltb 0 a.after_body.readers ≡ true
  still_held =
      let first = (Later-read_exact {P = Anywhere} a.fd 4 w).readers in
      let second =
        (Later-read_exact {P = Anywhere} a.fd (from_le a.len_arr) a.after_length).readers in
      let same₁ : a.after_length.readers ≡ w.readers = rw a.length_read at first in
      let same₂ : a.after_body.readers ≡ a.after_length.readers = rw a.body_read at second in
      ground (arith, same₁, same₂, held)

  pub register_process-stuck :
      (name path command : Bytes)
      → glucore_register_process_module true os (some name) (some path) (some command) w ≡ stuck
  unfolding glucore_register_process_module register_named on_registration_length
      on_registration_body on_registration
  register_process-stuck name path command =
      let short : ltb max_registration (from_le a.len_arr) ≡ false = ground (arith, a.fits) in
      rw (
        a.connects, register_named, a.length_read, on_registration_length, short, a.body_read,
        on_registration_body, a.parsed, on_registration, still_held,
      )

-- The callback, where a guard is held.
on_message-blocked :
    (code : Code) (depth : ℕ) (again : World → Run) (fd : ℕ) (body : Bytes) (w : World)
    (request : CallbackCall) (c : Cursor) (i address : ℕ) (os : Attempts)
    (name path command : Bytes) (next : ℕ → Program)
    → 0 < w.readers
    → decode_callback_call (msg_callback_call ∷ body) w.mem ≡ (ok request, c)
    → bytes_beq request.module_name java_renderer ≡ false
    → may_call (called_back c w) request.module_name ≡ true
    → lookup request.module_name w.ipc.module_sockets ≡ none
    → find_export w.registry request.module_name request.function ≡ some (i, exported address)
    → code address request.args
      ≡ register_process true os (some name) (some path) (some command) next
    → Arrives os (called_back c w)
    → on_message (dispatch code (suc depth)) again fd (msg_callback_call ∷ body) w ≡ blocked
unfolding on_message on_callback nested_call run_program
on_message-blocked code depth again fd body w request c i address os name path command next held
      decoded other allowed no_socket found compiled a =
    let blocks : dispatch code (suc depth) request.module_name request.function request.args
          (called_back c w)
        ≡ blocked =
      dispatch_compiled code depth request.module_name request.function request.args
        (called_back c w) i address allowed no_socket found
      ∙ rw compiled (
          rw (run_program, register_process-stuck os (called_back c w) a held name path command)) in
    let world : record w { mem = (decode_callback_call (msg_callback_call ∷ body) w.mem).1.mem }
        ≡ record w { mem = c.mem } =
      ap (λ p. record w { mem = p.1.mem }) decoded in
    rw (world, decoded, on_callback, other, nested_call, blocks)

-- What comes over the socket behind the message of a call: a length, and a callback of that length.
pub record Asks (fd : ℕ) (msg : Bytes) (during : World) : Type 0 where
  pub len_arr : Bytes
  pub body : Bytes
  pub sent : World
  pub after_length : World
  pub asked : World
  pub sends : send fd msg during ≡ (true, sent)
  pub length_read : read_exact fd 4 sent ≡ (some len_arr, after_length)
  pub fits : from_le len_arr ≤ max_response
  pub body_read :
      read_exact fd (from_le len_arr) after_length ≡ (some (msg_callback_call ∷ body), asked)

module _ (fd : ℕ) (msg : Bytes) (during : World) (q : Asks fd msg during) where
  asked-readers : q.asked.readers ≡ during.readers
  asked-readers =
      let first = (Later-send {P = Anywhere} fd msg during).readers in
      let second = (Later-read_exact {P = Anywhere} fd 4 q.sent).readers in
      let third = (Later-read_exact {P = Anywhere} fd (from_le q.len_arr) q.after_length).readers in
      let same₁ : q.sent.readers ≡ during.readers = rw q.sends at first in
      let same₂ : q.after_length.readers ≡ q.sent.readers = rw q.length_read at second in
      let same₃ : q.asked.readers ≡ q.after_length.readers = rw q.body_read at third in
      same₃ ∙ (same₂ ∙ same₁)

  ipc_roundtrip-sent :
      (call : Dispatch)
      → ipc_roundtrip call fd msg during
        ≡ ipc_loop call (suc (length (q.sent.socket fd).inbox)) fd q.sent
  unfolding ipc_roundtrip
  ipc_roundtrip-sent call =
      ap
        (λ (p : Bool × World). elim p.0 as (λ _. Run) [
          | true ↦ ipc_loop call (suc (length (p.1.socket fd).inbox)) fd p.1
          | false ↦ ipc_fail fd (codes "ipc_write_failed") p.1
        ])
        q.sends

  -- The round trip comes to the callback.
  ipc_roundtrip-asked :
      (call : Dispatch)
      → ipc_roundtrip call fd msg during
        ≡ on_message call
            (ipc_loop call (length (q.sent.socket fd).inbox) fd)
            fd
            (msg_callback_call ∷ q.body)
            q.asked
  unfolding ipc_loop on_length on_body
  ipc_roundtrip-asked call =
      let short : ltb max_response (from_le q.len_arr) ≡ false = ground (arith, q.fits) in
      ipc_roundtrip-sent call
      ∙ rw (q.length_read, ipc_loop, on_length, short, q.body_read, on_body) refl

-- A call of a function of a process module, which answers with a callback before its result: the
-- callback is of a compiled function of another module, which java_renderer may call, and which
-- begins with the registration of another process module. Once that module's message has arrived
-- and is a good one, the thread waits for the guard that its own call holds, and the call never
-- returns.
pub dispatch-blocked :
    (code : Code) (depth : ℕ) (m f : Bytes) (args : List GluValue) (w : World) (fd i : ℕ)
    (e : GluExportEntry) (msg : Bytes)
    (q : Asks fd msg (record w {
      readers = suc w.readers;
      ctx = some (base_or_zero (lookup m w.ipc.module_base_idx) + i, fd);
    }))
    (request : CallbackCall) (c : Cursor) (j address : ℕ) (os : Attempts)
    (name path command : Bytes) (next : ℕ → Program)
    → may_call w m ≡ true
    → find_entry w.registry m f ≡ some (i, e)
    → e.wrapper ≡ ipc_wrapper
    → lookup m w.ipc.module_sockets ≡ some fd
    → route w.ipc m i ≡ some (meta_of fd m (f, e.signature))
    → encode_call w.mem m f (caller_text (current_caller_bytes w.callers)) args e.signature.params
      ≡ some msg
    → decode_callback_call (msg_callback_call ∷ q.body) q.asked.mem ≡ (ok request, c)
    → bytes_beq request.module_name java_renderer ≡ false
    → may_call (called_back c q.asked) request.module_name ≡ true
    → lookup request.module_name q.asked.ipc.module_sockets ≡ none
    → find_export q.asked.registry request.module_name request.function ≡ some (j, exported address)
    → code address request.args
      ≡ register_process true os (some name) (some path) (some command) next
    → Arrives os (called_back c q.asked)
    → dispatch code (suc (suc depth)) m f args w ≡ blocked
dispatch-blocked code depth m f args w fd i e msg q request c j address os name path command next
      may found wrapper socket routed encoded decoded other allowed no_socket compiled registers a =
    let during = record w {
      readers = suc w.readers;
      ctx = some (base_or_zero (lookup m w.ipc.module_base_idx) + i, fd);
    } in
    let held : 0 < q.asked.readers = omega (arith, asked-readers fd msg during q) in
    let trip : ipc_roundtrip (dispatch code (suc depth)) fd msg during ≡ blocked =
      ipc_roundtrip-asked fd msg during q (dispatch code (suc depth))
      ∙ on_message-blocked code depth _ fd q.body q.asked request c j address os name path command
          next held decoded other allowed no_socket compiled registers a in
    dispatch-over_socket code (suc depth) m f args w fd i e msg may found wrapper socket routed
      encoded
    ∙ rw trip refl
