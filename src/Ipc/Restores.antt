-- ===== src/Ipc/Restores.antt =====
-- The stack of callers over an IPC call: the guard of each callback undoes what it did.
use glu_core.Prelude.{
  ℕ, zero, suc, ◌%◌, ◌^◌, ◌≡◌, refl, Option, none, some, List, [], ◌∷◌, Bytes, length, to_le,
  from_le, arith, ltb, leb, eqb, bytes_beq, Bool-cases, Option-cases, inl, inr, get_elem?, ◌∙◌, ap,
}
use glu_core.Outcome.{Outcome, ok, err, panic}
use glu_core.Types.{GluValue, GluResult}
use glu_core.Fctp.{msg_result, msg_callback_call}
use glu_core.Fctp.Encode.{encode_call, encode_callback_result}
use glu_core.Fctp.Decode.{CallbackCall}
use glu_core.Router.{CallerStack, current_caller_bytes, enter, drop_guard}
use glu_core.Router.Callers.{drop_guard-enter}
use glu_core.World.Sockets.{waits_for}
use glu_core.World.{World, IpcExportMeta, Run, returned, aborted, undefined, blocked, out_of_fuel}
use glu_core.World.Sockets.{write_all, read_exact}
use glu_core.Program.{Dispatch, and_then}
use glu_core.Ipc.{
  unread, send, send_unchecked, on_result, answer, nested_call, on_callback, on_message, on_body,
  on_length, ipc_loop, ipc_roundtrip, ipc_call, ipc_dispatch_wrapper, ipc_in_context, java_renderer,
  caller_text, max_response,
}

-- Where the run returns, the stack of callers is `s`.
pub record Restores (s : CallerStack) (r : Run) : Type 0 where
  pub ends : (res : GluResult) (w' : World) → r ≡ returned res w' → w'.callers ≡ s

pub restored :
    (s : CallerStack) (res : GluResult) (w : World) → w.callers ≡ s → Restores s (returned res w)
restored s res w h = record { ends = λ res' w' e. ground (arith, e, h) }

pub Restores-aborted : (s : CallerStack) → Restores s aborted
Restores-aborted s = record { ends = λ res w' e. absurd (cc) }

pub Restores-undefined : (s : CallerStack) → Restores s undefined
Restores-undefined s = record { ends = λ res w' e. absurd (cc) }

pub Restores-blocked : (s : CallerStack) → Restores s blocked
Restores-blocked s = record { ends = λ res w' e. absurd (cc) }

pub Restores-out_of_fuel : (s : CallerStack) → Restores s out_of_fuel
Restores-out_of_fuel s = record { ends = λ res w' e. absurd (cc) }

pub Restores-and_then :
    (s t : CallerStack) (r : Run) (k : GluResult → World → Run)
    → Restores t r
    → ((res : GluResult) (w' : World) → w'.callers ≡ t → Restores s (k res w'))
    → Restores s (and_then r k)
Restores-and_then s t (returned res w') k h hk = hk res w' (h.ends res w' refl)
Restores-and_then s t aborted k h hk = Restores-aborted s
Restores-and_then s t undefined k h hk = Restores-undefined s
Restores-and_then s t blocked k h hk = Restores-blocked s
Restores-and_then s t out_of_fuel k h hk = Restores-out_of_fuel s

-- A dispatch that restores the stack, from any world.
abbrev pub DispatchRestores : Dispatch → Type 0
DispatchRestores dispatch =
    (m function : Bytes) (args : List GluValue) (w : World)
    → Restores w.callers (dispatch m function args w)

callers-write_all :
    (fd : ℕ) (bytes : Bytes) (w : World) → (write_all fd bytes w).1.callers ≡ w.callers
unfolding write_all
callers-write_all fd bytes w = elim (Bool-cases (ltb fd w.fd_limit)) [
  | inl o ↦ elim (Bool-cases (leb (length bytes) (w.socket fd).room)) [
    | inl e ↦ rw (o, e, write_all)
    | inr e ↦ rw (o, e, write_all)
  ]
  | inr o ↦ rw (o, write_all)
]

callers-read_exact : (fd n : ℕ) (w : World) → (read_exact fd n w).1.callers ≡ w.callers
unfolding read_exact
callers-read_exact fd n w = elim (Bool-cases (ltb fd w.fd_limit)) [
  | inl o ↦ rw (o, read_exact)
  | inr o ↦ rw (o, read_exact)
]

callers-send : (fd : ℕ) (msg : Bytes) (w : World) → (send fd msg w).1.callers ≡ w.callers
unfolding send
callers-send fd msg w =
    let first = write_all fd (to_le 4 (length msg % 2 ^ 32)) w in
    elim (Bool-cases first.0) [
      | inl e ↦ rw (e, send) (callers-write_all fd msg first.1 ∙ callers-write_all fd _ w)
      | inr e ↦ rw (e, send) (callers-write_all fd _ w)
    ]

callers-send_unchecked :
    (fd : ℕ) (msg : Bytes) (w : World) → (send_unchecked fd msg w).callers ≡ w.callers
unfolding send_unchecked
callers-send_unchecked fd msg w = callers-write_all fd msg _ ∙ callers-write_all fd _ w

on_result-Restores :
    (s : CallerStack) (r : Outcome GluResult) (w : World)
    → w.callers ≡ s
    → Restores s (on_result r w)
unfolding on_result
on_result-Restores s (ok r) w h = restored s r w h
on_result-Restores s (err e) w h = restored s _ w h
on_result-Restores s panic w h = Restores-aborted s

module _ (dispatch : Dispatch) (d : DispatchRestores dispatch) (s : CallerStack) (fd : ℕ)
    (again : World → Run) (a : (w : World) → w.callers ≡ s → Restores s (again w)) where
  answer-Restores :
      (r : GluResult) (w : World)
      → w.callers ≡ (enter java_renderer s).1
      → Restores s (answer again fd (enter java_renderer s).0 r w)
  unfolding answer
  answer-Restores r w h =
      let guard = (enter java_renderer s).0 in
      let sent = send fd (encode_callback_result r) w in
      let back : drop_guard guard sent.1.callers ≡ s =
        ap (drop_guard guard) (callers-send fd (encode_callback_result r) w ∙ h)
        ∙ drop_guard-enter java_renderer s in
      elim (Bool-cases sent.0) [
        | inl e ↦ rw (e, answer) (a _ back)
        | inr e ↦ rw (e, answer) (restored s _ _ back)
      ]

  nested_call-Restores :
      (request : CallbackCall) (w : World)
      → w.callers ≡ s
      → Restores s (nested_call dispatch again fd request w)
  unfolding nested_call
  nested_call-Restores request w h =
      let entered : (enter java_renderer w.callers) ≡ (enter java_renderer s) =
        ap (enter java_renderer) h in
      rw (h, nested_call)
        (Restores-and_then s (enter java_renderer s).1 _ _
          (d request.module_name request.function request.args _) answer-Restores)

  on_callback-Restores :
      (r : Outcome CallbackCall) (w : World)
      → w.callers ≡ s
      → Restores s (on_callback dispatch again fd r w)
  unfolding on_callback
  on_callback-Restores (ok request) w h =
      elim (Bool-cases (bytes_beq request.module_name java_renderer)) [
        | inl e ↦ rw (e, on_callback) (a _ (callers-send_unchecked fd _ w ∙ h))
        | inr e ↦ rw (e, on_callback) (nested_call-Restores request w h)
      ]
  on_callback-Restores (err e) w h = a _ (callers-send_unchecked fd _ w ∙ h)
  on_callback-Restores panic w h = Restores-aborted s

  on_message-Restores :
      (msg : Bytes) (w : World) → w.callers ≡ s → Restores s (on_message dispatch again fd msg w)
  unfolding on_message
  on_message-Restores [] w h = restored s _ w h
  on_message-Restores (b ∷ rest) w h = elim (Bool-cases (eqb b msg_result)) [
    | inl e ↦ rw (e, on_message) (on_result-Restores s _ _ h)
    | inr e ↦ elim (Bool-cases (eqb b msg_callback_call)) [
      | inl e' ↦ rw (e, e', on_message) (on_callback-Restores _ _ h)
      | inr e' ↦ rw (e, e', on_message) (restored s _ w h)
    ]
  ]

  unread-Restores : (text : Bytes) (w : World) → w.callers ≡ s → Restores s (unread fd text w)
  unfolding unread
  unread-Restores text w h = elim (Bool-cases (waits_for fd w)) [
    | inl e ↦ rw (e, unread) (Restores-blocked s)
    | inr e ↦ rw (e, unread) (restored s _ w h)
  ]

  on_body-Restores :
      (r : Option Bytes × World) → r.1.callers ≡ s → Restores s (on_body dispatch again fd r)
  unfolding on_body
  on_body-Restores (none, w) h = unread-Restores _ w h
  on_body-Restores (some resp, w) h = on_message-Restores resp w h

  on_length-Restores :
      (r : Option Bytes × World) → r.1.callers ≡ s → Restores s (on_length dispatch again fd r)
  unfolding on_length
  on_length-Restores (none, w) h = unread-Restores _ w h
  on_length-Restores (some len_arr, w) h = elim (Bool-cases (ltb max_response (from_le len_arr))) [
    | inl e ↦ rw (e, on_length) (restored s _ w h)
    | inr e ↦ rw (e, on_length) (on_body-Restores _ (callers-read_exact fd (from_le len_arr) w ∙ h))
  ]

module _ (dispatch : Dispatch) (d : DispatchRestores dispatch) (s : CallerStack) where
  ipc_loop-Restores :
      (rounds fd : ℕ) (w : World) → w.callers ≡ s → Restores s (ipc_loop dispatch rounds fd w)
  unfolding ipc_loop
  ipc_loop-Restores zero fd w h = Restores-out_of_fuel s
  ipc_loop-Restores (suc rounds) fd w h =
      on_length-Restores dispatch d s fd (ipc_loop dispatch rounds fd) (ipc_loop-Restores rounds fd)
        _ (callers-read_exact fd 4 w ∙ h)

  ipc_roundtrip-Restores :
      (fd : ℕ) (msg : Bytes) (w : World)
      → w.callers ≡ s
      → Restores s (ipc_roundtrip dispatch fd msg w)
  unfolding ipc_roundtrip
  ipc_roundtrip-Restores fd msg w h = elim (Bool-cases (send fd msg w).0) [
    | inl e ↦ rw (e, ipc_roundtrip) (ipc_loop-Restores _ fd _ (callers-send fd msg w ∙ h))
    | inr e ↦ rw (e, ipc_roundtrip) (restored s _ _ (callers-send fd msg w ∙ h))
  ]

  ipc_call-Restores :
      (args : List GluValue) (fd : ℕ) (meta : Option IpcExportMeta) (w : World)
      → w.callers ≡ s
      → Restores s (ipc_call dispatch args fd meta w)
  unfolding ipc_call
  ipc_call-Restores args fd none w h = restored s _ w h
  ipc_call-Restores args fd (some meta) w h =
      elim (Option-cases (
        encode_call w.mem meta.module_name meta.function_name
          (caller_text (current_caller_bytes w.callers)) args meta.sig.params)) [
            | inl e ↦ rw (e, ipc_call) (Restores-undefined s)
            | inr (msg, e) ↦ rw (e, ipc_call) (ipc_roundtrip-Restores fd msg w h)
          ]

  ipc_in_context-Restores :
      (args : List GluValue) (ctx : Option (ℕ × ℕ)) (w : World)
      → w.callers ≡ s
      → Restores s (ipc_in_context dispatch args ctx w)
  ipc_in_context-Restores args none w h = restored s _ w h
  ipc_in_context-Restores args (some (i, fd)) w h =
      Restores-and_then s s _ _ (ipc_call-Restores args fd (get_elem? w.ipc.exports i) _ h)
        (λ r w' h'. restored s r _ h')

  pub ipc_dispatch_wrapper-Restores :
      (args : List GluValue) (w : World)
      → w.callers ≡ s
      → Restores s (ipc_dispatch_wrapper dispatch args w)
  unfolding ipc_dispatch_wrapper
  ipc_dispatch_wrapper-Restores args w h = ipc_in_context-Restores args w.ctx w h
