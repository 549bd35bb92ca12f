-- ===== src/Fctp/Encode.antt =====
-- core/src/fctp.rs: the encoders. A `Vec<u8>` is its list of bytes; a byte pushed is put at its
-- end. An encoder of arguments reads the memory behind slices: `none` is undefined behaviour.
use glu_core.Prelude.{
  ℕ, ◌%◌, ◌^◌, Option, none, some, List, [], ◌∷◌, ◌++◌, Bytes, length, to_le, codes, Bool, true,
  false,
}
use glu_core.Types.{
  GluTypeTag, GluValue, GluResult, GluStatus, ok_status, int, float, string, buffer, handle, void,
  tag_byte,
}
use glu_core.Memory.{Memory, from_raw_parts, slice_of}
use glu_core.Fctp.{msg_call, msg_callback_result}

abbrev pub write_u32_le : Bytes → ℕ → Bytes
write_u32_le buf v = buf ++ to_le 4 v

abbrev pub write_u64_le : Bytes → ℕ → Bytes
write_u64_le buf v = buf ++ to_le 8 v

abbrev pub push : Bytes → ℕ → Bytes
push buf b = buf ++ (b ∷ [])

-- `data.len() as u32` keeps the low 32 bits.
unfoldable pub write_len_bytes : Bytes → Bytes → Bytes
write_len_bytes buf bs = write_u32_le buf (length bs % 2 ^ 32) ++ bs

-- A text is its UTF-8 bytes.
unfoldable pub write_len_str : Bytes → Bytes → Bytes
write_len_str = write_len_bytes

-- The bytes of a string or buffer argument.
unfoldable pub argument_bytes : Memory → GluValue → Option Bytes
argument_bytes m arg = elim (slice_of arg) [ none ↦ none | some s ↦ from_raw_parts m s ]

-- One turn of the loop of `encode_call`.
unfoldable pub encode_arg : Memory → Bytes → GluValue → GluTypeTag → Option Bytes
encode_arg m payload arg float = some (write_u64_le (push payload (tag_byte float)) arg.first)
encode_arg m payload arg int = some (write_u64_le (push payload (tag_byte int)) arg.first)
encode_arg m payload arg string = elim (argument_bytes m arg) [
  | none ↦ none
  | some bs ↦ some (write_len_bytes (push payload (tag_byte string)) bs)
]
encode_arg m payload arg buffer = elim (argument_bytes m arg) [
  | none ↦ none
  | some bs ↦ some (write_len_bytes (push payload (tag_byte buffer)) bs)
]
encode_arg m payload arg handle = some (push payload (tag_byte handle))
encode_arg m payload arg void = some (push payload (tag_byte void))

-- `for (arg, tag) in args.iter().zip(arg_tags.iter())` stops at the end of the shorter list.
unfoldable pub encode_args : Memory → Bytes → List GluValue → List GluTypeTag → Option Bytes
encode_args m payload [] tags = some payload
encode_args m payload (a ∷ args) [] = some payload
encode_args m payload (a ∷ args) (t ∷ tags) = elim (encode_arg m payload a t) [
  | none ↦ none
  | some payload' ↦ encode_args m payload' args tags
]

-- The message type, the length of the payload as a u32, and the payload.
unfoldable pub frame : ℕ → Bytes → Bytes
frame msg_type payload = write_u32_le (push [] msg_type) (length payload % 2 ^ 32) ++ payload

-- The payload before the arguments; `args.len() as u8` keeps the low 8 bits.
unfoldable pub call_header : Bytes → Bytes → Bytes → ℕ → Bytes
call_header module_name function caller argc =
    push (write_len_str (write_len_str (write_len_str [] module_name) function) caller) (argc % 256)

unfoldable pub encode_call :
    Memory → Bytes → Bytes → Bytes → List GluValue → List GluTypeTag → Option Bytes
encode_call m module_name function caller args arg_tags =
    elim (encode_args m (call_header module_name function caller (length args)) args arg_tags) [
      | none ↦ none
      | some payload ↦ some (frame msg_call payload)
    ]

abbrev pub is_ok : GluStatus → Bool
is_ok ok_status = true
is_ok _ = false

abbrev pub message_or : Option Bytes → Bytes
message_or none = codes "(no message)"
message_or (some m) = m

abbrev pub result_payload : Bool → GluResult → Bytes
result_payload true r = write_u64_le (push (push [] 0) (tag_byte float)) r.value.first
result_payload false r = write_len_bytes (push [] 1) (message_or r.message)

unfoldable pub encode_callback_result : GluResult → Bytes
encode_callback_result result =
    frame msg_callback_result (result_payload (is_ok result.status) result)

unfoldable pub encode_callback_result_error : Bytes → Bytes
encode_callback_result_error msg = frame msg_callback_result (write_len_bytes (push [] 1) msg)
