-- ===== src/Ipc/Callbacks.antt =====
-- One callback of a process module, from its request to the answer on the socket.
use glu_core.Prelude.{
  ℕ, ◌+◌, ◌^◌, ◌≤◌, ◌<◌, ◌≡◌, ◌≢◌, refl, true, false, ◌∷◌, ◌++◌, Bytes, length, to_le, arith, ltb,
  bytes_beq, append_assoc, ◌∙◌, ap, eqb, eqb_iff,
}
use glu_core.Outcome.{ok}
use glu_core.Types.{GluResult}
use glu_core.Fctp.{msg_callback_call}
use glu_core.Fctp.Encode.{encode_callback_result}
use glu_core.Fctp.Decode.{CallbackCall, decode_callback_call}
use glu_core.Reader.{Cursor}
use glu_core.Router.{enter, drop_guard}
use glu_core.Router.Callers.{drop_guard-enter}
use glu_core.World.{World, Run, returned}
use glu_core.Program.{Dispatch}
use glu_core.Ipc.{java_renderer, answer, nested_call, on_callback, on_message}
use glu_core.Ipc.Answers.{socket-set_socket, with_message, after_length, after_message, send_lem}

-- What has been said on the socket `fd` between `w` and `w'` is `msg`, and nothing on another.
pub record Said (fd : ℕ) (msg : Bytes) (w w' : World) : Type 0 where
  pub outbox : (w'.socket fd).outbox ≡ (w.socket fd).outbox ++ (to_le 4 (length msg) ++ msg)
  pub inbox : (w'.socket fd).inbox ≡ (w.socket fd).inbox
  pub others : (i : ℕ) → i ≢ fd → w'.socket i ≡ w.socket i

-- What was said does not depend on the rest of the world.
pub Said-sockets :
    (fd : ℕ) (msg : Bytes) (w w₁ w₂ : World)
    → w₁.socket ≡ w.socket
    → Said fd msg w₁ w₂
    → Said fd msg w w₂
Said-sockets fd msg w w₁ w₂ same s =
    let here : w₁.socket fd ≡ w.socket fd = ap (λ f. f fd) same in
    record {
      outbox = s.outbox ∙ ap (λ t. t.outbox ++ (to_le 4 (length msg) ++ msg)) here;
      inbox = s.inbox ∙ ap (λ t. t.inbox) here;
      others = λ i ne. s.others i ne ∙ ap (λ f. f i) same;
    }

-- The world in which a callback's request is dispatched.
abbrev pub called_back : Cursor → World → World
called_back c w = record w { mem = c.mem; callers = (enter java_renderer w.callers).1 }

module _ (dispatch : Dispatch) (again : World → Run) (fd : ℕ) (body : Bytes) (w w₁ : World)
    (request : CallbackCall) (c : Cursor) (r : GluResult)
    (decoded : decode_callback_call (msg_callback_call ∷ body) w.mem ≡ (ok request, c))
    (other : bytes_beq request.module_name java_renderer ≡ false)
    (ran : dispatch request.module_name request.function request.args (called_back c w)
      ≡ returned r w₁)
    (callers : w₁.callers ≡ (enter java_renderer w.callers).1) (is_open : ltb fd w₁.fd_limit ≡ true)
    (short : length (encode_callback_result r) < 2 ^ 32)
    (room : length (encode_callback_result r) + 4 ≤ (w₁.socket fd).room) where
  abbrev sent : World
  sent = after_message fd w₁ is_open (encode_callback_result r) short room

  abbrev left : World
  left = record sent { callers = drop_guard (enter java_renderer w.callers).0 w₁.callers }

  on_message-again : on_message dispatch again fd (msg_callback_call ∷ body) w ≡ again left
  unfolding on_message on_callback nested_call answer
  on_message-again =
      let said = send_lem fd w₁ is_open (encode_callback_result r) short room in
      let world : record w { mem = (decode_callback_call (msg_callback_call ∷ body) w.mem).1.mem }
          ≡ record w { mem = c.mem } =
        ap (λ p. record w { mem = p.1.mem }) decoded in
      rw (world, decoded, on_callback, other, nested_call, ran, answer, said)
        (ap
          (λ p.
            again
              (record (p.1) { callers = drop_guard (enter java_renderer w.callers).0 p.1.callers }))
          said)

  left-Said : Said fd (encode_callback_result r) w₁ left
  left-Said =
      let here =
        socket-set_socket fd
          (with_message fd w₁ (w₁.socket fd) refl is_open (encode_callback_result r))
          (after_length fd w₁ is_open (encode_callback_result r) short room) in
      record {
        outbox =
            ap (λ t. t.outbox) here
            ∙ append_assoc (w₁.socket fd).outbox (to_le 4 (length (encode_callback_result r)))
                (encode_callback_result r);
        inbox = ap (λ t. t.inbox) here;
        others = λ i ne. let e : eqb fd i ≡ false = ground (arith, ne, eqb_iff fd i) in rw e;
      }

  -- A callback that can be decoded and is not for the caller itself, and whose nested call returns
  -- and leaves the caller set, over an open socket with room for the answer: the loop goes on, with
  -- the answer said on the socket, and the callers as before the callback.
  pub callback_answered :
      (w₂ : World) × (on_message dispatch again fd (msg_callback_call ∷ body) w ≡ again w₂)
      × Said fd (encode_callback_result r) w₁ w₂
      × (w₂.callers ≡ w.callers)
      × (w₂.mem ≡ w₁.mem)
  callback_answered = (
    left,
    on_message-again,
    left-Said,
    ap (λ s. drop_guard (enter java_renderer w.callers).0 s) callers
        ∙ drop_guard-enter java_renderer w.callers,
    refl,
  )
