-- ===== src/Fctp/RoundTrip.antt =====
-- A CALL read by the decoder of CALLBACK_CALL, which has the same layout behind the first byte.
use glu_core.Prelude.{
  ℕ, ◌+◌, ◌%◌, ◌^◌, ◌<◌, ◌≡◌, refl, true, some, List, [], ◌∷◌, ◌++◌, Bytes, length, to_le, arith,
  append_assoc, append-nil, length-append, length-to_le, codes,
}
use glu_core.Outcome.{ok}
use glu_core.Types.{GluTypeTag, GluValue}
use glu_core.Memory.{Memory, IsSound}
use glu_core.Utf8.{is_utf8}
use glu_core.Utf8.Lossy.{from_utf8_lossy_valid}
use glu_core.Reader.At.{
  at, At, At-cons, At-to_le, At-len_bytes, len_bytes, read_u32_le-At, read_len_bytes-At,
  next_byte_or-At,
}
use glu_core.Fctp.{msg_call, msg_callback_call}
use glu_core.Fctp.Encode.{encode_call, call_header, frame, write_len_str}
use glu_core.Fctp.Decode.{CallbackCall, check_payload, callback_body, decode_callback_call}
use glu_core.Fctp.Content.{Content, Describes, args_bytes, encode_args_lem, write_len_bytes_lem}
use glu_core.Fctp.Place.{place_all, read_args_lem}
use glu_core.Fctp.Stored.{Describes-place_all}

-- The payload of a CALL, laid out field by field.
abbrev pub call_layout : Bytes → Bytes → Bytes → ℕ → Bytes → Bytes
call_layout module_name function caller argc args =
    len_bytes module_name (len_bytes function (len_bytes caller (argc ∷ args)))

-- A payload of a CALL is in the range of its length fields.
pub record FitsCall (module_name function caller : Bytes) (args : List GluValue) (encoded : Bytes)
    : Type 0 where
  pub argc : length args < 256
  pub size : length module_name + length function + length caller + length encoded + 13 < 2 ^ 32

module _ (module_name function caller : Bytes) (args : List GluValue) (tags : List GluTypeTag)
    (contents : List Content)
    (fits : FitsCall module_name function caller args (args_bytes tags contents)) where
  abbrev layout : Bytes
  layout = call_layout module_name function caller (length args) (args_bytes tags contents)

  length-layout :
      length layout
      ≡ length module_name
        + length function
        + length caller
        + length (args_bytes tags contents)
        + 13
  length-layout = simp (length-append, length-to_le) (omega arith)

  call_header_lem :
      call_header module_name function caller (length args) ++ args_bytes tags contents ≡ layout
  unfolding call_header write_len_str
  call_header_lem =
      let e : length args % 256 ≡ length args = omega (arith, fits.argc) in
      rw
        (
          e,
          write_len_bytes_lem [] module_name (omega (arith, fits.size)),
          write_len_bytes_lem _ function (omega (arith, fits.size)),
          write_len_bytes_lem _ caller (omega (arith, fits.size)),
        )
        (simp append_assoc)

  encode_call_lem :
      (m : Memory)
      → Describes m args tags contents
      → encode_call m module_name function caller args tags
        ≡ some (msg_call ∷ (to_le 4 (length layout) ++ layout))
  unfolding encode_call frame
  encode_call_lem m d =
      let e : length layout % 2 ^ 32 ≡ length layout = omega (arith, fits.size, length-layout) in
      rw (
        encode_args_lem m (call_header module_name function caller (length args)) args tags contents
            d,
        encode_call,
        call_header_lem,
        e,
      )

  abbrev message : Bytes
  message = msg_callback_call ∷ (to_le 4 (length layout) ++ layout)

  check_payload_lem :
      (text : Bytes) (m : Memory) → check_payload message text (at 1 m) ≡ (ok tt, at 5 m)
  unfolding check_payload
  check_payload_lem text m =
      let short : length layout < 2 ^ 32 = omega (arith, fits.size, length-layout) in
      let size : length message ≡ length layout + 5 =
        omega
          (arith, length-append (to_le 4 (length layout)) layout, length-to_le 4 (length layout)) in
      rw (read_u32_le-At message 1 m (length layout) layout short refl) (ground (arith, size))

  abbrev off₁ : ℕ
  off₁ = 5 + 4 + length module_name

  abbrev off₂ : ℕ
  off₂ = off₁ + 4 + length function

  abbrev off₃ : ℕ
  off₃ = off₂ + 4 + length caller

  args_end : off₃ + 1 + length (args_bytes tags contents) ≡ length message
  args_end = omega (
    arith,
    length-append (to_le 4 (length layout)) layout,
    length-to_le 4 (length layout),
    length-layout,
  )

  callback_body_lem :
      (m₀ m : Memory)
      → Describes m₀ args tags contents
      → is_utf8 module_name ≡ true
      → is_utf8 function ≡ true
      → callback_body message (at 1 m) ≡ (
        ok (record {
          module_name = module_name;
          function = function;
          args = (place_all contents m).0;
          arg_tags = tags;
        }),
        at (length message) (place_all contents m).1,
      )
  unfolding callback_body
  callback_body_lem m₀ m d valid_module valid_function =
      let rest₃ : Bytes = length args ∷ args_bytes tags contents in
      let rest₂ : Bytes = len_bytes caller rest₃ in
      let rest₁ : Bytes = len_bytes function rest₂ in
      let h₀ : At message 5 (len_bytes module_name rest₁) =
        At-to_le message 1 4 (length layout) layout refl in
      let h₁ = At-len_bytes message 5 module_name rest₁ h₀ in
      let h₂ = At-len_bytes message off₁ function rest₂ h₁ in
      let h₃ = At-len_bytes message off₂ caller rest₃ h₂ in
      let h₄ : At message (off₃ + 1) (args_bytes tags contents ++ []) =
        rw append-nil (At-cons message off₃ (length args) (args_bytes tags contents) h₃) in
      rw (
        check_payload_lem (codes "callback payload truncated") m,
        read_len_bytes-At message 5 m module_name rest₁ (omega (arith, fits.size)) h₀,
        read_len_bytes-At message off₁ m function rest₂ (omega (arith, fits.size)) h₁,
        read_len_bytes-At message off₂ m caller rest₃ (omega (arith, fits.size)) h₂,
        next_byte_or-At message off₃ m (codes "missing argc") (length args)
            (args_bytes tags contents) h₃,
        read_args_lem message tags (off₃ + 1) m m₀ args contents [] d h₄,
        from_utf8_lossy_valid module_name valid_module,
        from_utf8_lossy_valid function valid_function,
        args_end,
      )

-- Behind the message type, the decoder of CALLBACK_CALL reads back what `encode_call` wrote: for
-- valid UTF-8 names, at most 255 arguments that match their tags, and a payload that fits a u32,
-- the call is encoded, and decoding it into any memory gives the module, the function, the tags,
-- and arguments with the contents that were sent, and ends at the end of the message.
pub decode_callback_call-encode_call :
    (m₀ m : Memory) (module_name function caller : Bytes) (args : List GluValue)
    (tags : List GluTypeTag) (contents : List Content)
    → FitsCall module_name function caller args (args_bytes tags contents)
    → Describes m₀ args tags contents
    → is_utf8 module_name ≡ true
    → is_utf8 function ≡ true
    → IsSound m
    → (rest : Bytes) × (c : CallbackCall) × (m' : Memory) × (encode_call m₀ module_name function
          caller args tags
        ≡ some (msg_call ∷ rest))
      × (decode_callback_call (msg_callback_call ∷ rest) m
          ≡ (ok c, at (length (msg_callback_call ∷ rest)) m'))
      × (c.module_name ≡ module_name)
      × (c.function ≡ function)
      × (c.arg_tags ≡ tags)
      × Describes m' c.args tags contents
unfolding decode_callback_call
decode_callback_call-encode_call m₀ m module_name function caller args tags contents fits d um uf
      s =
    let whole = layout module_name function caller args tags contents fits in
    (
      to_le 4 (length whole) ++ whole,
      record {
        module_name = module_name;
        function = function;
        args = (place_all contents m).0;
        arg_tags = tags;
      },
      (place_all contents m).1,
      encode_call_lem module_name function caller args tags contents fits m₀ d,
      callback_body_lem module_name function caller args tags contents fits m₀ m d um uf,
      refl,
      refl,
      refl,
      Describes-place_all m₀ args tags contents m s d,
    )
