-- ===== src/Fctp/Replies.antt =====
-- RESULT and CALLBACK_RESULT: what the core answers, and what it reads of an answer.
use glu_core.Prelude.{
  ℕ, ◌+◌, ◌%◌, ◌^◌, ◌<◌, ◌≡◌, ◌∙◌, refl, false, [], ◌∷◌, ◌++◌, Bytes, length, to_le, arith,
  length-append, length-to_le, codes, leb, append-nil, if◌then◌else◌, Bool-cases, inl, inr,
}
use glu_core.Outcome.{ok}
use glu_core.Types.{GluResult, runtime, float, tag_byte, of_word}
use glu_core.Types.Tags.{from_u8-tag_byte}
use glu_core.Memory.{Memory}
use glu_core.Errors.{glu_ok, glu_err}
use glu_core.Utf8.{from_utf8_lossy}
use glu_core.Reader.At.{
  at, At, At-cons, At-to_le, len_bytes, read_u32_le-At, read_u64_le-At, read_len_bytes-At,
  next_byte-At,
}
use glu_core.Fctp.{msg_result, msg_callback_result}
use glu_core.Fctp.Encode.{encode_callback_result, frame, write_len_bytes, is_ok, message_or, push}
use glu_core.Fctp.Decode.{
  decode_result, decode_body, decode_ok, decode_error, check_payload, read_value,
}
use glu_core.Fctp.Content.{write_len_bytes_lem}

-- An answer of the core is laid out as a RESULT: behind the first byte, `decode_result` reads the
-- first word of a value that was returned.
module _ (payload : Bytes) (short : length payload < 2 ^ 32) where
  abbrev pub reply : Bytes
  reply = msg_result ∷ (to_le 4 (length payload) ++ payload)

  length-reply : length reply ≡ length payload + 5
  length-reply =
      omega
        (arith, length-append (to_le 4 (length payload)) payload, length-to_le 4 (length payload))

  pub check_payload_lem :
      (text : Bytes) (m : Memory) → check_payload reply text (at 1 m) ≡ (ok tt, at 5 m)
  unfolding check_payload
  check_payload_lem text m =
      rw (read_u32_le-At reply 1 m (length payload) payload short refl)
        (ground (arith, length-reply))

  pub At-payload : At reply 5 payload
  At-payload = At-to_le reply 1 4 (length payload) payload refl

  pub frame_lem : (b : ℕ) → frame b payload ≡ b ∷ (to_le 4 (length payload) ++ payload)
  unfolding frame
  frame_lem b = let e : length payload % 2 ^ 32 ≡ length payload = omega arith in rw e

module _ (w : ℕ) (fits : w < 2 ^ 64) (m : Memory) where
  abbrev ok_payload : Bytes
  ok_payload = 0 ∷ tag_byte float ∷ to_le 8 w

  pub ok_short : length ok_payload < 2 ^ 32
  ok_short = omega (arith, length-to_le 8 w)

  abbrev msg : Bytes
  msg = reply ok_payload ok_short

  decode_ok_lem :
      decode_ok (reply ok_payload ok_short) (at 6 m) ≡ (ok (glu_ok (of_word w)), at 15 m)
  unfolding decode_ok read_value
  decode_ok_lem =
      let long : leb (length (reply ok_payload ok_short)) 6 ≡ false =
        ground (arith, length-reply ok_payload ok_short, length-to_le 8 w) in
      let h₁ = At-cons msg 5 0 (tag_byte float ∷ to_le 8 w) (At-payload ok_payload ok_short) in
      let h₂ : At msg 7 (to_le 8 w ++ []) =
        rw append-nil (At-cons msg 6 (tag_byte float) (to_le 8 w) h₁) in
      rw (
        long,
        next_byte-At msg 6 m (tag_byte float) (to_le 8 w) h₁,
        from_u8-tag_byte float,
        read_u64_le-At msg 7 m w [] fits h₂,
      )

  pub size_ok : length msg ≡ 15
  size_ok = omega (arith, length-reply ok_payload ok_short, length-to_le 8 w)

  pub decode_result-ok_payload :
      decode_result (reply ok_payload ok_short) m ≡ (ok (glu_ok (of_word w)), at 15 m)
  unfolding decode_result decode_body
  decode_result-ok_payload = rw (
    check_payload_lem ok_payload ok_short (codes "result payload truncated") m,
    next_byte-At msg 5 m 0 (tag_byte float ∷ to_le 8 w) (At-payload ok_payload ok_short),
    decode_ok_lem,
  )

module _ (text : Bytes) (fits : length text < 2 ^ 31) (m : Memory) where
  abbrev error_payload : Bytes
  error_payload = 1 ∷ len_bytes text []

  length-error_payload : length error_payload ≡ length text + 5
  length-error_payload = simp (length-append, length-to_le) (omega arith)

  pub error_short : length error_payload < 2 ^ 32
  error_short = omega (arith, length-error_payload)

  pub written_error : write_len_bytes (push [] 1) text ≡ error_payload
  written_error = rw (write_len_bytes_lem (push [] 1) text (omega arith), append-nil)

  pub size_error : length (reply error_payload error_short) ≡ 6 + 4 + length text
  size_error = omega (arith, length-reply error_payload error_short, length-error_payload)

  pub decode_result-error_payload :
      decode_result (reply error_payload error_short) m
      ≡ (ok (glu_err runtime (from_utf8_lossy text)), at (6 + 4 + length text) m)
  unfolding decode_result decode_body decode_error
  decode_result-error_payload =
      let msg = reply error_payload error_short in
      let h = At-payload error_payload error_short in
      rw (
        check_payload_lem error_payload error_short (codes "result payload truncated") m,
        next_byte-At msg 5 m 1 (len_bytes text []) h,
        read_len_bytes-At msg 6 m text [] (omega arith) (At-cons msg 5 1 (len_bytes text []) h),
      )

-- What a reader of an answer learns: the first word of a value, or the message as text.
abbrev pub as_received : GluResult → GluResult
as_received r =
    if is_ok r.status
    then glu_ok (of_word r.value.first)
    else glu_err runtime (from_utf8_lossy (message_or r.message))

-- A CALLBACK_RESULT read as a RESULT: behind the message type, `decode_result` accepts every
-- answer of the core, to its end, where the first word is one of 64 bits and the message is below 2^31
-- bytes; it gives the first word of a value, and for an error the message as a runtime error.
pub decode_result-encode_callback_result :
    (r : GluResult) (m : Memory)
    → r.value.first < 2 ^ 64
    → length (message_or r.message) < 2 ^ 31
    → (rest : Bytes) × (encode_callback_result r ≡ msg_callback_result ∷ rest)
      × (decode_result (msg_result ∷ rest) m
          ≡ (ok (as_received r), at (length (msg_result ∷ rest)) m))
unfolding encode_callback_result
decode_result-encode_callback_result r m hw hm = elim (Bool-cases (is_ok r.status)) [
  | inl e ↦ (
    to_le 4 (length (ok_payload r.value.first hw m)) ++ ok_payload r.value.first hw m,
    rw (
      e,
      encode_callback_result,
      frame_lem (ok_payload r.value.first hw m) (ok_short r.value.first hw m),
    ),
    decode_result-ok_payload r.value.first hw m ∙ rw (e, size_ok r.value.first hw m),
  )
  | inr e ↦ (
    to_le 4 (length (error_payload (message_or r.message) hm m))
        ++ error_payload (message_or r.message) hm m,
    rw (
      e,
      encode_callback_result,
      written_error (message_or r.message) hm m,
      frame_lem (error_payload (message_or r.message) hm m)
          (error_short (message_or r.message) hm m),
    ),
    decode_result-error_payload (message_or r.message) hm m
        ∙ rw (e, size_error (message_or r.message) hm m),
  )
]
