-- ===== src/Ipc/Answers.antt =====
-- What an IPC call puts on its socket and takes from it, where the peer answers at once.
use glu_core.Prelude.{
  ℕ, ◌+◌, ◌-◌, ◌%◌, ◌^◌, ◌≤◌, ◌<◌, ◌≡◌, ◌≢◌, refl, true, false, some, ◌∷◌, ◌++◌, Bytes, length,
  to_le, from_le, arith, leb, ltb, eqb, eqb_iff, take?, drop?, append_assoc, take?-append,
  drop?-append, length-to_le, from_le-to_le, ◌∙◌,
}
use glu_core.Fctp.{msg_result}
use glu_core.Fctp.Decode.{decode_result}
use glu_core.World.{World, Socket}
use glu_core.World.Sockets.{write_all, read_exact, set_socket}
use glu_core.Program.{Dispatch}
use glu_core.Ipc.{
  send, on_result, on_message, on_body, on_length, ipc_loop, ipc_roundtrip, max_response,
}

pub socket-set_socket : (fd : ℕ) (s : Socket) (w : World) → (set_socket fd s w).socket fd ≡ s
socket-set_socket fd s w = let e : eqb fd fd ≡ true = ground arith in rw e

module _ (fd : ℕ) (w : World) (s : Socket) (here : w.socket fd ≡ s)
    (is_open : ltb fd w.fd_limit ≡ true) where
  write_all_lem :
      (bytes : Bytes)
      → length bytes ≤ s.room
      → write_all fd bytes w ≡ (
        true,
        set_socket fd (record s { outbox = s.outbox ++ bytes; room = s.room - length bytes }) w,
      )
  unfolding write_all
  write_all_lem bytes h =
      let fits : leb (length bytes) s.room ≡ true = ground (arith, h) in rw (is_open, here, fits)

  read_exact_lem :
      (n : ℕ) (xs ys : Bytes)
      → length xs ≡ n
      → s.inbox ≡ xs ++ ys
      → read_exact fd n w ≡ (some xs, set_socket fd (record s { inbox = ys }) w)
  unfolding read_exact
  read_exact_lem n xs ys l h =
      let t : take? n (xs ++ ys) ≡ some xs = rw l at (take?-append xs ys) in
      let d : drop? n (xs ++ ys) ≡ some ys = rw l at (drop?-append xs ys) in
      rw (is_open, here, h, t, d)

  -- The socket after the length of a message, and after the message.
  abbrev pub with_length : Bytes → Socket
  with_length msg = record s {
    outbox = s.outbox ++ to_le 4 (length msg);
    room = s.room - length (to_le 4 (length msg));
  }

  abbrev pub with_message : Bytes → Socket
  with_message msg = record (with_length msg) {
    outbox = (with_length msg).outbox ++ msg;
    room = (with_length msg).room - length msg;
  }

module _ (fd : ℕ) (w : World) (is_open : ltb fd w.fd_limit ≡ true) (msg : Bytes)
    (short : length msg < 2 ^ 32) (room : length msg + 4 ≤ (w.socket fd).room) where
  abbrev pub after_length : World
  after_length = set_socket fd (with_length fd w (w.socket fd) refl is_open msg) w

  abbrev pub after_message : World
  after_message = set_socket fd (with_message fd w (w.socket fd) refl is_open msg) after_length

  pub send_lem : send fd msg w ≡ (true, after_message)
  unfolding send
  send_lem =
      let cut : length msg % 2 ^ 32 ≡ length msg = omega (arith, short) in
      let s₁ = with_length fd w (w.socket fd) refl is_open msg in
      let e₁ =
        write_all_lem fd w (w.socket fd) refl is_open (to_le 4 (length msg))
          (omega (arith, length-to_le 4 (length msg), room)) in
      let e₂ =
        write_all_lem fd after_length s₁ (socket-set_socket fd s₁ w) is_open msg
          (omega (arith, length-to_le 4 (length msg), room)) in
      rw (cut, e₁, cut, e₁, e₂, send)

-- A call to a peer that answers with a RESULT of at most 16 MB, over an open socket with room for the
-- message, which is below 2^32 bytes: what is put on the socket is the message behind its length, and
-- nothing else; what is taken from it is the answer and its length, and nothing behind it; no other
-- socket is touched; and the call comes to what the answer decodes to.
pub ipc_roundtrip_answered :
    (dispatch : Dispatch) (fd : ℕ) (msg body rest : Bytes) (w : World)
    → fd < w.fd_limit
    → length msg + 4 ≤ (w.socket fd).room
    → length msg < 2 ^ 32
    → length (msg_result ∷ body) ≤ max_response
    → (w.socket fd).inbox ≡ to_le 4 (length (msg_result ∷ body)) ++ ((msg_result ∷ body) ++ rest)
    → (w' : World) × (ipc_roundtrip dispatch fd msg w
        ≡ on_result (decode_result (msg_result ∷ body) w.mem).0 w')
      × (w'.socket fd ≡ record {
        inbox = rest;
        outbox = (w.socket fd).outbox ++ (to_le 4 (length msg) ++ msg);
        room = (w.socket fd).room - (length msg + 4);
      })
      × ((i : ℕ) → i ≢ fd → w'.socket i ≡ w.socket i)
      × (w'.mem ≡ (decode_result (msg_result ∷ body) w.mem).1.mem)
unfolding ipc_roundtrip send ipc_loop on_length on_body on_message
ipc_roundtrip_answered dispatch fd msg body rest w o room short small inbox =
    let is_open : ltb fd w.fd_limit ≡ true = ground (arith, o) in
    let resp = msg_result ∷ body in
    let s₂ = with_message fd w (w.socket fd) refl is_open msg in
    let w₂ = after_message fd w is_open msg short room in
    let s₃ = record s₂ { inbox = resp ++ rest } in
    let w₃ = set_socket fd s₃ w₂ in
    let e₃ =
      read_exact_lem fd w₂ s₂ (socket-set_socket fd s₂ (after_length fd w is_open msg short room))
        is_open 4 (to_le 4 (length resp)) (resp ++ rest) (length-to_le 4 (length resp)) inbox in
    let s₄ = record s₃ { inbox = rest } in
    let w₄ = set_socket fd s₄ w₃ in
    let e₄ =
      read_exact_lem fd w₃ s₃ (socket-set_socket fd s₃ w₂) is_open (length resp) resp rest refl
        refl in
    let sent : send fd msg w ≡ (true, w₂) = send_lem fd w is_open msg short room in
    let left : (w.socket fd).room - length (to_le 4 (length msg)) - length msg
        ≡ (w.socket fd).room - (length msg + 4) =
      omega (arith, length-to_le 4 (length msg), room) in
    let n : from_le (to_le 4 (length resp)) ≡ length resp =
      from_le-to_le 4 (length resp) (omega (arith, small)) in
    let fits : ltb max_response (length resp) ≡ false = ground (arith, small) in
    (
      record w₄ { mem = (decode_result resp w.mem).1.mem },
      rw (sent, sent, e₃, n, fits, n, e₄, ipc_roundtrip, ipc_loop, on_length, on_body, on_message),
      socket-set_socket fd s₄ w₃ ∙ rw (append_assoc, left),
      (λ i ne. let e : eqb fd i ≡ false = ground (arith, ne, eqb_iff fd i) in rw e),
      refl,
    )
