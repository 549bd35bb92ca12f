-- ===== src/Export/CalledBack.antt =====
-- A callback of a process module that calls an exported Rust function, over the wire and back.
use glu_core.Prelude.{
  ℕ, suc, ◌≤◌, ◌<◌, ◌≡◌, refl, true, false, none, some, List, ◌∷◌, map, Bytes, length, arith,
  bytes_beq, bytes_eq, length-to_le, length-append, ap,
}
use glu_core.Prelude.Map.{lookup}
use glu_core.Outcome.{ok}
use glu_core.Types.{GluValue, exported}
use glu_core.Errors.{glu_ok}
use glu_core.Fctp.{msg_callback_call}
use glu_core.Fctp.Encode.{encode_callback_result, frame}
use glu_core.Fctp.Decode.{CallbackCall, decode_callback_call}
use glu_core.Fctp.Content.{Content, content, Describes}
use glu_core.Handles.{find_export}
use glu_core.Reader.{Cursor}
use glu_core.Router.{enter}
use glu_core.World.{World, Run}
use glu_core.Program.{Code}
use glu_core.Dispatch.{dispatch}
use glu_core.Dispatch.Links.{may_call}
use glu_core.Ipc.{java_renderer, on_message}
use glu_core.Ipc.Callbacks.{Said, Said-sockets, called_back, callback_answered}
use glu_core.Export.{Tag, tag_to_core_variant}
use glu_core.Export.Native.{Value, Values, Native, returns}
use glu_core.Export.Wrapper.{wrapper}
use glu_core.Export.Unpack.{values_of}
use glu_core.Export.Pack.{said}
use glu_core.Export.Dispatched.{dispatch_exported}

-- The type, the length of the payload, its status, a tag, and eight bytes.
length-encode_ok : (v : GluValue) → length (encode_callback_result (glu_ok v)) ≡ 15
unfolding encode_callback_result glu_ok frame
length-encode_ok v = simp (length-append, length-to_le) refl

-- A callback that can be decoded, of an exported function that makes no call of the core and
-- returns, in a module of this process that java_renderer may call, with arguments that match the
-- function's parameters, over an open socket with room for the answer: the loop goes on in a world
-- where the answer has been said on the socket, and nothing else on any; the result stands in
-- memory; and the callers are as before.
pub callback_exported :
    (code : Code) (depth : ℕ) (again : World → Run) (fd : ℕ) (body : Bytes) (w : World)
    (request : CallbackCall) (c : Cursor) (name : Bytes) (params : List Tag) (result : Tag)
    (function : Values params → Native (Value result)) (contents : List Content)
    (vs : Values params) (x : Value result) (i a : ℕ)
    → decode_callback_call (msg_callback_call ∷ body) w.mem ≡ (ok request, c)
    → bytes_beq request.module_name java_renderer ≡ false
    → may_call (called_back c w) request.module_name ≡ true
    → lookup request.module_name w.ipc.module_sockets ≡ none
    → find_export w.registry request.module_name request.function ≡ some (i, exported a)
    → code a request.args ≡ wrapper name params result function request.args
    → Describes c.mem request.args (map tag_to_core_variant params) contents
    → values_of params contents ≡ some vs
    → function vs ≡ returns x
    → fd < w.fd_limit
    → 19 ≤ (w.socket fd).room
    → (v : GluValue) × (w' : World) × (on_message
          (dispatch code (suc depth))
          again
          fd
          (msg_callback_call ∷ body)
          w
        ≡ again w')
      × Said fd (encode_callback_result (glu_ok v)) w w'
      × (content w'.mem (tag_to_core_variant result) v ≡ some (said result x))
      × (w'.callers ≡ w.callers)
callback_exported code depth again fd body w request c name params result function contents vs x i a
      decoded other allowed no_socket found compiled described passed r is_open room =
    let (v, w₁, ran, says, same, _) =
      dispatch_exported code depth request.module_name request.function name params result function
        request.args contents vs (called_back c w) i a allowed no_socket found compiled described
        passed x r in
    let size = length-encode_ok v in
    let limit : w₁.fd_limit ≡ w.fd_limit = ap (λ (u : World). u.fd_limit) same in
    let sockets : w₁.socket ≡ w.socket = ap (λ (u : World). u.socket) same in
    let callers : w₁.callers ≡ (enter java_renderer w.callers).1 =
      ap (λ (u : World). u.callers) same in
    let (w₂, on, answer, restored, mem) =
      callback_answered (dispatch code (suc depth)) again fd body w w₁ request c (glu_ok v) decoded
        other ran callers (rw limit (ground (arith, is_open))) (omega (arith, size))
        (rw (size, sockets) room) in
    (v, w₂, on, Said-sockets fd _ w w₁ w₂ sockets answer, rw mem says, restored)
