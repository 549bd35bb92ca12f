-- ===== src/Ipc/Rounds.antt =====
-- The loop of an IPC call ends: each round reads four bytes at least, and the bytes to come bound
-- both the rounds and, where nested calls are answered on smaller worlds, the nesting.
use glu_core.Prelude.{
  ℕ, zero, suc, ◌≤◌, ◌<◌, ◌≡◌, true, sym, refl, Option, none, some, List, [], ◌∷◌, Bytes, length,
  from_le, ltb, eqb, bytes_beq, Bool-cases, Option-cases, inl, inr, get_elem?, arith,
}
use mathlib.Core.Path.{subst}
use glu_core.Outcome.{Outcome, ok, err, panic}
use glu_core.Types.{GluValue, GluResult}
use glu_core.Fctp.{msg_result, msg_callback_call}
use glu_core.Fctp.Encode.{encode_call, encode_callback_result}
use glu_core.Fctp.Decode.{CallbackCall}
use glu_core.Router.{CallerGuard, current_caller_bytes, enter}
use glu_core.World.{
  World, IpcExportMeta, Run, returned, aborted, undefined, blocked, out_of_fuel, has_ended,
}
use glu_core.World.Sockets.{read_exact}
use glu_core.World.Later.{
  Later-callers, Anywhere, Later, Later-trans, Later-read_exact, inbox-read_exact,
}
use glu_core.Program.{Dispatch, and_then}
use glu_core.Program.Ends.{DispatchLater}
use glu_core.World.Peers.{open_peers, open_peers-Later, waits_for-none}
use glu_core.Ipc.{
  unread, send, on_result, answer, nested_call, on_callback, on_message, on_body, on_length,
  ipc_loop, ipc_roundtrip, ipc_call, ipc_dispatch_wrapper, ipc_in_context, java_renderer,
  caller_text, max_response,
}
use glu_core.Ipc.Ends.{Later-send, Later-send_unchecked, Later-decode_callback_call}

pub and_then-finite :
    (r : Run) (k : GluResult → World → Run)
    → has_ended r ≡ true
    → ((res : GluResult) (w : World) → r ≡ returned res w → has_ended (k res w) ≡ true)
    → has_ended (and_then r k) ≡ true
and_then-finite (returned res w) k h hk = hk res w refl
and_then-finite aborted k h hk = h
and_then-finite undefined k h hk = h
and_then-finite blocked k h hk = h
and_then-finite out_of_fuel k h hk = h

on_result-finite : (r : Outcome GluResult) (w : World) → has_ended (on_result r w) ≡ true
unfolding on_result
on_result-finite (ok r) w = refl
on_result-finite (err x) w = refl
on_result-finite panic w = refl

-- What bounds the nesting: a measure that calls and guards do not raise and that reads of a length
-- lower.
pub record IsMeasure (measure : World → ℕ) : Type 0 where
  pub mono : (w w' : World) → Later Anywhere w w' → measure w' ≤ measure w
  pub guards : (n : ℕ) (w : World) → measure (record w { readers = n }) ≤ measure w
  pub strict :
      (fd : ℕ) (w : World) (bs : Bytes)
      → (read_exact fd 4 w).0 ≡ some bs
      → measure (read_exact fd 4 w).1 < measure w

-- What is to come is bounded, and no peer keeps its connection open.
abbrev pub Below : (World → ℕ) → ℕ → World → Type 0
Below measure depth w = (measure w < depth) × (open_peers w ≡ 0)

module _ (dispatch : Dispatch) (later : DispatchLater Anywhere dispatch) (measure : World → ℕ)
    (is_measure : IsMeasure measure) (depth : ℕ)
    (finite : (m f : Bytes) (args : List GluValue) (w : World)
      → Below measure depth w
      → has_ended (dispatch m f args w) ≡ true) where
  -- What a later world has to come, and its peers.
  kept :
      (w w' : World)
      → Later Anywhere w w'
      → (measure w' ≤ measure w) × (open_peers w' ≡ open_peers w)
  kept w w' l = (is_measure.mono w w' l, open_peers-Later w w' l)

  unread-finite :
      (fd : ℕ) (text : Bytes) (w : World) → open_peers w ≡ 0 → has_ended (unread fd text w) ≡ true
  unfolding unread
  unread-finite fd text w h = rw (waits_for-none fd w h, unread) refl

  module _ (fd n : ℕ) (again : World → Run)
      (a : (w : World)
        → length (w.socket fd).inbox < n
        → Below measure depth w
        → has_ended (again w) ≡ true) where
    again-Later :
        (w w' : World)
        → Later Anywhere w w'
        → length (w.socket fd).inbox < n
        → Below measure depth w
        → has_ended (again w') ≡ true
    again-Later w w' l h k = a w' (omega (arith, l.inbox fd)) (omega (arith, kept w w' l))

    answer-finite :
        (guard : CallerGuard) (r : GluResult) (w : World)
        → length (w.socket fd).inbox < n
        → Below measure depth w
        → has_ended (answer again fd guard r w) ≡ true
    unfolding answer
    answer-finite guard r w h k =
        let sent = send fd (encode_callback_result r) w in
        let l = Later-trans (Later-send fd (encode_callback_result r) w) (Later-callers _ sent.1) in
        elim (Bool-cases sent.0) [
          | inl e ↦ rw (e, answer) (again-Later w _ l h k)
          | inr e ↦ rw (e, answer) refl
        ]

    nested_call-finite :
        (request : CallbackCall) (w : World)
        → length (w.socket fd).inbox < n
        → Below measure depth w
        → has_ended (nested_call dispatch again fd request w) ≡ true
    unfolding nested_call
    nested_call-finite request w h k =
        let entered = enter java_renderer w.callers in
        let w₁ = record w { callers = entered.1 } in
        let l = Later-callers {P = Anywhere} entered.1 w in
        and_then-finite (dispatch request.module_name request.function request.args w₁) _
          (finite request.module_name request.function request.args w₁ (omega (arith, kept w w₁ l)))
          λ r w' e.
            let l' = (later request.module_name request.function request.args w₁).ends r w' e in
            answer-finite entered.0 r w' (omega (arith, l.inbox fd, l'.inbox fd))
              (omega (arith, kept w w₁ l, kept w₁ w' l'))

    on_callback-finite :
        (r : Outcome CallbackCall) (w : World)
        → length (w.socket fd).inbox < n
        → Below measure depth w
        → has_ended (on_callback dispatch again fd r w) ≡ true
    unfolding on_callback
    on_callback-finite (ok request) w h k =
        elim (Bool-cases (bytes_beq request.module_name java_renderer)) [
          | inl e ↦ rw (e, on_callback) (again-Later w _ (Later-send_unchecked fd _ w) h k)
          | inr e ↦ rw (e, on_callback) (nested_call-finite request w h k)
        ]
    on_callback-finite (err x) w h k = again-Later w _ (Later-send_unchecked fd _ w) h k
    on_callback-finite panic w h k = refl

    on_message-finite :
        (msg : Bytes) (w : World)
        → length (w.socket fd).inbox < n
        → Below measure depth w
        → has_ended (on_message dispatch again fd msg w) ≡ true
    unfolding on_message
    on_message-finite [] w h k = refl
    on_message-finite (b ∷ rest) w h k = elim (Bool-cases (eqb b msg_result)) [
      | inl e ↦ rw (e, on_message) (on_result-finite _ _)
      | inr e ↦ elim (Bool-cases (eqb b msg_callback_call)) [
        | inl e' ↦
            let l = Later-decode_callback_call {P = Anywhere} (b ∷ rest) w in
            rw (e, e', on_message)
              (on_callback-finite _ _ (omega (arith, l.inbox fd)) (omega (arith, kept w _ l)))
        | inr e' ↦ rw (e, e', on_message) refl
      ]
    ]

    on_body-finite :
        (r : Option Bytes × World)
        → length (r.1.socket fd).inbox < n
        → Below measure depth r.1
        → has_ended (on_body dispatch again fd r) ≡ true
    unfolding on_body
    on_body-finite (none, w) h k = unread-finite fd _ w k.1
    on_body-finite (some resp, w) h k = on_message-finite resp w h k

    on_length-finite :
        (len_arr : Bytes) (w : World)
        → length (w.socket fd).inbox < n
        → Below measure depth w
        → has_ended (on_length dispatch again fd (some len_arr, w)) ≡ true
    unfolding on_length
    on_length-finite len_arr w h k = elim (Bool-cases (ltb max_response (from_le len_arr))) [
      | inl e ↦ rw (e, on_length) refl
      | inr e ↦
          let l = Later-read_exact {P = Anywhere} fd (from_le len_arr) w in
          rw (e, on_length)
            (on_body-finite (read_exact fd (from_le len_arr) w) (omega (arith, l.inbox fd))
              (omega (arith, kept w _ l)))
    ]

  on_length-read :
      (again : World → Run) (fd : ℕ) (r : Option Bytes × World) (o : Option Bytes)
      → r.0 ≡ o
      → has_ended (on_length dispatch again fd (o, r.1)) ≡ true
      → has_ended (on_length dispatch again fd r) ≡ true
  on_length-read again fd r o e h =
      subst (λ (o : Option Bytes). has_ended (on_length dispatch again fd (o, r.1)) ≡ true) (sym e)
        h

  pub ipc_loop-finite :
      (rounds fd : ℕ) (w : World)
      → length (w.socket fd).inbox < rounds
      → Below measure (suc depth) w
      → has_ended (ipc_loop dispatch rounds fd w) ≡ true
  unfolding ipc_loop
  ipc_loop-finite zero fd w h k = absurd (omega arith)
  ipc_loop-finite (suc rounds) fd w h k = elim (Option-cases (read_exact fd 4 w).0) [
    | inl e ↦ on_length-read _ fd (read_exact fd 4 w) none e (
        unfold on_length in
        unread-finite fd _ (read_exact fd 4 w).1
          (omega (arith, kept w _ (Later-read_exact {P = Anywhere} fd 4 w))))
    | inr (bs, e) ↦ on_length-read _ fd (read_exact fd 4 w) (some bs) e (
        on_length-finite fd rounds (ipc_loop dispatch rounds fd)
          (λ w' h' k'. ipc_loop-finite rounds fd w' h' (omega arith)) bs (read_exact fd 4 w).1
          (omega (arith, inbox-read_exact fd 4 w e))
          (omega (
            arith,
            is_measure.strict fd w bs e,
            kept w _ (Later-read_exact {P = Anywhere} fd 4 w),
          )))
  ]

  ipc_roundtrip-finite :
      (fd : ℕ) (msg : Bytes) (w : World)
      → Below measure (suc depth) w
      → has_ended (ipc_roundtrip dispatch fd msg w) ≡ true
  unfolding ipc_roundtrip
  ipc_roundtrip-finite fd msg w k = elim (Bool-cases (send fd msg w).0) [
    | inl e ↦
        rw (e, ipc_roundtrip)
          (ipc_loop-finite _ fd _ (omega arith) (omega (arith, kept w _ (Later-send fd msg w))))
    | inr e ↦ rw (e, ipc_roundtrip) refl
  ]

  ipc_call-finite :
      (args : List GluValue) (fd : ℕ) (meta : Option IpcExportMeta) (w : World)
      → Below measure (suc depth) w
      → has_ended (ipc_call dispatch args fd meta w) ≡ true
  unfolding ipc_call
  ipc_call-finite args fd none w k = refl
  ipc_call-finite args fd (some meta) w k =
      elim (Option-cases (
        encode_call w.mem meta.module_name meta.function_name
          (caller_text (current_caller_bytes w.callers)) args meta.sig.params)) [
            | inl e ↦ rw (e, ipc_call) refl
            | inr (msg, e) ↦ rw (e, ipc_call) (ipc_roundtrip-finite fd msg w k)
          ]

  ipc_in_context-finite :
      (args : List GluValue) (ctx : Option (ℕ × ℕ)) (w : World)
      → Below measure (suc depth) w
      → has_ended (ipc_in_context dispatch args ctx w) ≡ true
  ipc_in_context-finite args none w k = refl
  ipc_in_context-finite args (some (i, fd)) w k =
      and_then-finite _ _
        (ipc_call-finite args fd (get_elem? w.ipc.exports i) _
          (omega (arith, is_measure.guards (suc w.readers) w)))
        (λ r w' x. refl)

  pub ipc_dispatch_wrapper-finite :
      (args : List GluValue) (w : World)
      → Below measure (suc depth) w
      → has_ended (ipc_dispatch_wrapper dispatch args w) ≡ true
  unfolding ipc_dispatch_wrapper
  ipc_dispatch_wrapper-finite args w k = ipc_in_context-finite args w.ctx w k
