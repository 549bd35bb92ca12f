-- ===== src/Examples/Wire.antt =====
-- The wire protocol on concrete messages.
use glu_core.Prelude.{
  ◌≡◌, refl, true, some, [], ◌∷◌, Bytes, codes, length, arith, to_le, from_le, inl,
}
use glu_core.Prelude.Map.{lookup}
use glu_core.Outcome.{ok, panic}
use glu_core.Types.{of_word, int, from_u8}
use glu_core.Memory.{Memory, from_raw_parts, slice_of}
use glu_core.Errors.{glu_ok}
use glu_core.Utf8.{is_utf8, valid_from, first_byte, utf8_step, from_utf8_lossy, lossy_from}
use glu_core.Reader.{slice, take_bytes, read_u32_le, read_u64_le, read_len_bytes, next_byte_or}
use glu_core.Reader.At.{at}
use glu_core.Fctp.{msg_call, msg_result, msg_callback_call, msg_callback_result}
use glu_core.Fctp.Encode.{argument_bytes, encode_call, encode_callback_result}
use glu_core.Fctp.Decode.{
  CallbackCall, decode_callback_call, decode_result, callback_body, check_payload, payload_fits,
  read_args, read_value,
}
use glu_core.Fctp.Content.{content, content_bytes, word, text, Describes, args_bytes}
use glu_core.Fctp.RoundTrip.{FitsCall, decode_callback_call-encode_call}
use glu_core.Fctp.Replies.{as_received, decode_result-encode_callback_result}
use glu_core.Fctp.Robust.{decode_result_panics}
use glu_core.Examples.Data.{memory, memory-IsSound, two_args, two_tags, physics, step, script}

valid_physics : is_utf8 physics ≡ true
unfolding is_utf8 valid_from first_byte utf8_step
valid_physics = refl

valid_step : is_utf8 step ≡ true
unfolding is_utf8 valid_from first_byte utf8_step
valid_step = refl

described : Describes memory two_args two_tags (word 7 ∷ text (codes "hi") ∷ [])
unfolding content argument_bytes slice_of from_raw_parts lookup
described = (refl, omega arith, (refl, omega arith, tt))

fits : FitsCall physics step script two_args (args_bytes two_tags (word 7 ∷ text (codes "hi") ∷ []))
unfolding to_le content_bytes
fits = record { argc = omega arith; size = omega arith }

decode_callback_call-encode_call_example :
    (rest : Bytes) × (c : CallbackCall) × (m' : Memory) × (encode_call memory physics step script
        two_args two_tags
      ≡ some (msg_call ∷ rest))
    × (decode_callback_call (msg_callback_call ∷ rest) memory
        ≡ (ok c, at (length (msg_callback_call ∷ rest)) m'))
    × (c.module_name ≡ physics)
    × (c.function ≡ step)
    × (c.arg_tags ≡ two_tags)
    × Describes m' c.args two_tags (word 7 ∷ text (codes "hi") ∷ [])
decode_callback_call-encode_call_example =
    decode_callback_call-encode_call memory memory physics step script two_args two_tags
      (word 7 ∷ text (codes "hi") ∷ []) fits described valid_physics valid_step memory-IsSound

decode_result-encode_callback_result_example :
    (rest : Bytes) × (encode_callback_result (glu_ok (of_word 7)) ≡ msg_callback_result ∷ rest)
    × (decode_result (msg_result ∷ rest) memory
        ≡ (ok (as_received (glu_ok (of_word 7))), at (length (msg_result ∷ rest)) memory))
unfolding glu_ok
decode_result-encode_callback_result_example =
    decode_result-encode_callback_result (glu_ok (of_word 7)) memory (omega arith) (omega arith)

-- A request of one argument, the byte 0 with 7 as an integer.
abbrev request : Bytes
request =
    msg_callback_call ∷ 24 ∷ 0 ∷ 0 ∷ 0 ∷ 1 ∷ 0 ∷ 0 ∷ 0 ∷ 109 ∷ 1 ∷ 0 ∷ 0 ∷ 0 ∷ 102 ∷ 0 ∷ 0 ∷ 0 ∷ 0
    ∷ 1 ∷ 0 ∷ 7 ∷ 0 ∷ 0 ∷ 0 ∷ 0 ∷ 0 ∷ 0 ∷ 0 ∷ []

abbrev requested : CallbackCall
requested = record {
  module_name = codes "m";
  function = codes "f";
  args = of_word 7 ∷ [];
  arg_tags = int ∷ [];
}

request_accepted : decode_callback_call request memory ≡ (ok requested, at 29 memory)
unfolding decode_callback_call callback_body check_payload payload_fits read_u32_le read_u64_le
    read_len_bytes read_args read_value take_bytes slice next_byte_or from_le from_u8
    from_utf8_lossy lossy_from first_byte utf8_step
request_accepted = refl

decode_result_panics_example : (decode_result (msg_result ∷ 1 ∷ 0 ∷ []) memory).0 ≡ panic
decode_result_panics_example = decode_result_panics (1 ∷ 0 ∷ []) memory (inl (omega arith))
