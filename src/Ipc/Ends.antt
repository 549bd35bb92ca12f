-- ===== src/Ipc/Ends.antt =====
-- Every step of an IPC call ends in a later world, if nested calls do.
use glu_core.Prelude.{
  ℕ, zero, suc, ◌-◌, ◌≡◌, refl, ◌∙◌, arith, ◌%◌, ◌^◌, Option, none, some, List, [], ◌∷◌, Bytes,
  length, to_le, from_le, ltb, eqb, bytes_beq, Bool-cases, Option-cases, inl, inr, get_elem?,
}
use glu_core.Outcome.{Outcome, ok, err, panic}
use glu_core.Types.{GluValue, GluResult}
use glu_core.Fctp.{msg_result, msg_callback_call}
use glu_core.Fctp.Encode.{encode_call, encode_callback_result}
use glu_core.Fctp.Decode.{CallbackCall, decode_result, decode_callback_call}
use glu_core.Fctp.Robust.{decode_result-Within, decode_callback_call-Within}
use glu_core.Router.{CallerGuard, current_caller_bytes, enter}
use glu_core.World.Sockets.{waits_for}
use glu_core.World.{World, IpcExportMeta, Run, returned, aborted, undefined, blocked, out_of_fuel}
use glu_core.World.Sockets.{write_all}
use glu_core.World.Later.{
  Anywhere, Later-callers, Later-mem, Later-held, Later, Later-refl, Later-trans, Later-write_all,
  Later-read_exact,
}
use glu_core.Program.{Dispatch, and_then}
use glu_core.Program.Ends.{
  EndsLater, ends_at, EndsLater-aborted, EndsLater-undefined, EndsLater-blocked,
  EndsLater-out_of_fuel, EndsLater-from, EndsLater-and_then, DispatchLater,
}
use glu_core.Ipc.{
  unread, send, send_unchecked, on_result, answer, nested_call, on_callback, on_message, on_body,
  on_length, ipc_loop, ipc_roundtrip, ipc_call, ipc_dispatch_wrapper, ipc_in_context, java_renderer,
  caller_text, max_response,
}

module _ {P : Bytes → Bytes → Type 0} where
  pub Later-send : (fd : ℕ) (msg : Bytes) (w : World) → Later P w (send fd msg w).1
  unfolding send
  Later-send fd msg w =
      let first = write_all fd (to_le 4 (length msg % 2 ^ 32)) w in
      elim (Bool-cases first.0) [
        | inl e ↦
            rw (e, send) (Later-trans (Later-write_all fd _ w) (Later-write_all fd msg first.1))
        | inr e ↦ rw (e, send) (Later-write_all fd _ w)
      ]

  pub Later-send_unchecked :
      (fd : ℕ) (msg : Bytes) (w : World) → Later P w (send_unchecked fd msg w)
  unfolding send_unchecked
  Later-send_unchecked fd msg w = Later-trans (Later-write_all fd _ w) (Later-write_all fd msg _)

  pub Later-decode_result :
      (msg : Bytes) (w : World) → Later P w (record w { mem = (decode_result msg w.mem).1.mem })
  Later-decode_result msg w = Later-mem _ w (λ s. (decode_result-Within msg w.mem s).sound)

  pub Later-decode_callback_call :
      (msg : Bytes) (w : World)
      → Later P w (record w { mem = (decode_callback_call msg w.mem).1.mem })
  Later-decode_callback_call msg w =
      Later-mem _ w (λ s. (decode_callback_call-Within msg w.mem s).sound)

  on_result-EndsLater : (r : Outcome GluResult) (w : World) → EndsLater P w (on_result r w)
  unfolding on_result
  on_result-EndsLater (ok r) w = ends_at r (Later-refl w)
  on_result-EndsLater (err e) w = ends_at _ (Later-refl w)
  on_result-EndsLater panic w = EndsLater-aborted

  module _ (dispatch : Dispatch) (d : DispatchLater P dispatch) (again : World → Run)
      (a : (w : World) → EndsLater P w (again w)) (fd : ℕ) where
    answer-EndsLater :
        (guard : CallerGuard) (r : GluResult) (w : World)
        → EndsLater P w (answer again fd guard r w)
    unfolding answer
    answer-EndsLater guard r w =
        let sent = send fd (encode_callback_result r) w in
        let l = Later-trans (Later-send fd (encode_callback_result r) w) (Later-callers _ sent.1) in
        elim (Bool-cases sent.0) [
          | inl e ↦ rw (e, answer) (EndsLater-from _ l (a _))
          | inr e ↦ rw (e, answer) (ends_at _ l)
        ]

    nested_call-EndsLater :
        (request : CallbackCall) (w : World)
        → EndsLater P w (nested_call dispatch again fd request w)
    unfolding nested_call
    nested_call-EndsLater request w =
        EndsLater-and_then _ _
          (EndsLater-from _ (Later-callers (enter java_renderer w.callers).1 w)
            (d request.module_name request.function request.args _))
          (answer-EndsLater (enter java_renderer w.callers).0)

    on_callback-EndsLater :
        (r : Outcome CallbackCall) (w : World) → EndsLater P w (on_callback dispatch again fd r w)
    unfolding on_callback
    on_callback-EndsLater (ok request) w =
        elim (Bool-cases (bytes_beq request.module_name java_renderer)) [
          | inl e ↦ rw (e, on_callback) (EndsLater-from _ (Later-send_unchecked fd _ w) (a _))
          | inr e ↦ rw (e, on_callback) (nested_call-EndsLater request w)
        ]
    on_callback-EndsLater (err e) w = EndsLater-from _ (Later-send_unchecked fd _ w) (a _)
    on_callback-EndsLater panic w = EndsLater-aborted

    pub on_message-EndsLater :
        (msg : Bytes) (w : World) → EndsLater P w (on_message dispatch again fd msg w)
    unfolding on_message
    on_message-EndsLater [] w = ends_at _ (Later-refl w)
    on_message-EndsLater (b ∷ rest) w = elim (Bool-cases (eqb b msg_result)) [
      | inl e ↦
          rw (e, on_message)
            (EndsLater-from _ (Later-decode_result (b ∷ rest) w) (on_result-EndsLater _ _))
      | inr e ↦ elim (Bool-cases (eqb b msg_callback_call)) [
        | inl e' ↦
            rw (e, e', on_message)
              (EndsLater-from _ (Later-decode_callback_call (b ∷ rest) w)
                (on_callback-EndsLater _ _))
        | inr e' ↦ rw (e, e', on_message) (ends_at _ (Later-refl w))
      ]
    ]

    unread-EndsLater : (text : Bytes) (w : World) → EndsLater P w (unread fd text w)
    unfolding unread
    unread-EndsLater text w = elim (Bool-cases (waits_for fd w)) [
      | inl e ↦ rw (e, unread) EndsLater-blocked
      | inr e ↦ rw (e, unread) (ends_at _ (Later-refl w))
    ]

    on_body-EndsLater : (r : Option Bytes × World) → EndsLater P r.1 (on_body dispatch again fd r)
    unfolding on_body
    on_body-EndsLater (none, w) = unread-EndsLater _ w
    on_body-EndsLater (some resp, w) = on_message-EndsLater resp w

    on_length-EndsLater :
        (r : Option Bytes × World) → EndsLater P r.1 (on_length dispatch again fd r)
    unfolding on_length
    on_length-EndsLater (none, w) = unread-EndsLater _ w
    on_length-EndsLater (some len_arr, w) = elim (Bool-cases (ltb max_response (from_le len_arr))) [
      | inl e ↦ rw (e, on_length) (ends_at _ (Later-refl w))
      | inr e ↦
          rw (e, on_length)
            (EndsLater-from _ (Later-read_exact fd (from_le len_arr) w) (on_body-EndsLater _))
    ]

  held-EndsLater :
      (w : World) (r : Run)
      → EndsLater P (record w { readers = suc w.readers }) r
      → EndsLater P w (and_then r (λ res w'. returned res (record w' { readers = w'.readers - 1 })))
  held-EndsLater w (returned res w') h = ends_at res (Later-held w w' (h.ends res w' refl))
  held-EndsLater w aborted h = EndsLater-aborted
  held-EndsLater w undefined h = EndsLater-undefined
  held-EndsLater w blocked h = EndsLater-blocked
  held-EndsLater w out_of_fuel h = EndsLater-out_of_fuel

  module _ (dispatch : Dispatch) (d : DispatchLater P dispatch) where
    ipc_loop-EndsLater : (rounds fd : ℕ) (w : World) → EndsLater P w (ipc_loop dispatch rounds fd w)
    unfolding ipc_loop
    ipc_loop-EndsLater zero fd w = EndsLater-out_of_fuel
    ipc_loop-EndsLater (suc rounds) fd w = EndsLater-from _ (Later-read_exact fd 4 w) (
        on_length-EndsLater dispatch d (ipc_loop dispatch rounds fd) (ipc_loop-EndsLater rounds fd)
          fd _)

    ipc_roundtrip-EndsLater :
        (fd : ℕ) (msg : Bytes) (w : World) → EndsLater P w (ipc_roundtrip dispatch fd msg w)
    unfolding ipc_roundtrip
    ipc_roundtrip-EndsLater fd msg w = elim (Bool-cases (send fd msg w).0) [
      | inl e ↦
          rw (e, ipc_roundtrip) (EndsLater-from _ (Later-send fd msg w) (ipc_loop-EndsLater _ fd _))
      | inr e ↦ rw (e, ipc_roundtrip) (ends_at _ (Later-send fd msg w))
    ]

    ipc_call-EndsLater :
        (args : List GluValue) (fd : ℕ) (meta : Option IpcExportMeta) (w : World)
        → EndsLater P w (ipc_call dispatch args fd meta w)
    unfolding ipc_call
    ipc_call-EndsLater args fd none w = ends_at _ (Later-refl w)
    ipc_call-EndsLater args fd (some meta) w =
        elim (Option-cases (
          encode_call w.mem meta.module_name meta.function_name
            (caller_text (current_caller_bytes w.callers)) args meta.sig.params)) [
              | inl e ↦ rw (e, ipc_call) EndsLater-undefined
              | inr (msg, e) ↦ rw (e, ipc_call) (ipc_roundtrip-EndsLater fd msg w)
            ]

    ipc_in_context-EndsLater :
        (args : List GluValue) (ctx : Option (ℕ × ℕ)) (w : World)
        → EndsLater P w (ipc_in_context dispatch args ctx w)
    ipc_in_context-EndsLater args none w = ends_at _ (Later-refl w)
    ipc_in_context-EndsLater args (some (i, fd)) w =
        held-EndsLater w _ (ipc_call-EndsLater args fd (get_elem? w.ipc.exports i) _)

    pub ipc_dispatch_wrapper-EndsLater :
        (args : List GluValue) (w : World) → EndsLater P w (ipc_dispatch_wrapper dispatch args w)
    unfolding ipc_dispatch_wrapper
    ipc_dispatch_wrapper-EndsLater args w = ipc_in_context-EndsLater args w.ctx w

held-ipc :
    (w w'' : World) (r : Run) (res : GluResult)
    → EndsLater Anywhere (record w { readers = suc w.readers }) r
    → and_then r (λ res w'. returned res (record w' { readers = w'.readers - 1 }))
      ≡ returned res w''
    → w''.ipc ≡ w.ipc
held-ipc w w'' (returned res' w') res l h =
    let same : w''.ipc ≡ w'.ipc = ground (arith, h) in
    same ∙ (l.ends res' w' refl).ipc (omega arith)
held-ipc w w'' aborted res l h = absurd (cc)
held-ipc w w'' undefined res l h = absurd (cc)
held-ipc w w'' blocked res l h = absurd (cc)
held-ipc w w'' out_of_fuel res l h = absurd (cc)

ipc_in_context-ipc :
    (dispatch : Dispatch) (args : List GluValue) (ctx : Option (ℕ × ℕ)) (w w' : World)
    (r : GluResult)
    → DispatchLater Anywhere dispatch
    → ipc_in_context dispatch args ctx w ≡ returned r w'
    → w'.ipc ≡ w.ipc
ipc_in_context-ipc dispatch args none w w' r d h = ground (arith, h)
ipc_in_context-ipc dispatch args (some (i, fd)) w w' r d h =
    held-ipc w w' _ r (ipc_call-EndsLater dispatch d args fd (get_elem? w.ipc.exports i) _) h

-- The IPC tables are the same after a call over a socket, whatever was called back.
pub ipc_dispatch_wrapper-ipc :
    (dispatch : Dispatch) (args : List GluValue) (w w' : World) (r : GluResult)
    → DispatchLater Anywhere dispatch
    → ipc_dispatch_wrapper dispatch args w ≡ returned r w'
    → w'.ipc ≡ w.ipc
unfolding ipc_dispatch_wrapper
ipc_dispatch_wrapper-ipc dispatch args w w' r d h =
    ipc_in_context-ipc dispatch args w.ctx w w' r d h
