-- ===== src/Fctp/Decode.antt =====
-- core/src/fctp.rs: the decoders. `Err` is `err`, an index out of range is `panic`.
use glu_core.Prelude.{
  ℕ, zero, suc, ◌-◌, List, [], ◌∷◌, ◌++◌, Bytes, length, codes, show_hex, ltb, leb, eqb,
  if◌then◌else◌,
}
use glu_core.Outcome.{Outcome, ok, err}
use glu_core.Types.{
  GluTypeTag, GluValue, GluResult, runtime, int, float, string, buffer, handle, void, from_u8,
  of_word, of_slice,
}
use glu_core.Memory.{Memory}
use glu_core.Errors.{glu_ok, glu_err}
use glu_core.Utf8.{from_utf8_lossy}
use glu_core.Reader.{
  Reader, Cursor, pure, lift, ◌>>=◌, read_u32_le, read_u64_le, read_len_bytes, next_byte,
  next_byte_or, copy,
}
use glu_core.Fctp.{msg_result, msg_callback_call}

-- The value behind a tag byte; a string or buffer is copied into new memory.
unfoldable pub read_value : Bytes → GluTypeTag → Reader GluValue
read_value msg float = do bits ← read_u64_le msg; pure (of_word bits)
read_value msg int = do v ← read_u64_le msg; pure (of_word v)
read_value msg string = do bs ← read_len_bytes msg; s ← copy bs; pure (of_slice s)
read_value msg buffer = do bs ← read_len_bytes msg; s ← copy bs; pure (of_slice s)
read_value msg handle = pure (of_word 0)
read_value msg void = pure (of_word 0)

unfoldable pub payload_fits : Bytes → Bytes → ℕ → Reader (Unit {0})
payload_fits msg text payload_len c =
    if ltb (length msg - c.off) payload_len then (err text, c) else (ok tt, c)

-- `payload_len` against the bytes that are there
unfoldable pub check_payload : Bytes → Bytes → Reader (Unit {0})
unfolding payload_fits
check_payload msg text = do payload_len ← read_u32_le msg; payload_fits msg text payload_len

-- The status 0 branch.
unfoldable pub decode_ok : Bytes → Reader GluResult
decode_ok msg c =
    if leb (length msg) c.off
    then (ok (glu_ok (of_word 0)), c)
    else (do
      tag_byte ← next_byte msg
      tag ← lift (from_u8 tag_byte)
      v ← read_value msg tag
      pure (glu_ok v))
        c

unfoldable pub decode_error : Bytes → Reader GluResult
decode_error msg = do bs ← read_len_bytes msg; pure (glu_err runtime (from_utf8_lossy bs))

unfoldable pub decode_body : Bytes → Reader GluResult
decode_body msg = do
  _ ← check_payload msg (codes "result payload truncated")
  status ← next_byte msg
  if eqb status 0 then decode_ok msg else decode_error msg

unfoldable pub decode_result : Bytes → Memory → Outcome GluResult × Cursor
decode_result [] m = (err (codes "empty result message"), record { off = 0; mem = m })
decode_result (b ∷ rest) m =
    if eqb b msg_result
    then decode_body (b ∷ rest) (record { off = 1; mem = m })
    else (err (codes "unexpected msg_type " ++ show_hex b), record { off = 0; mem = m })

pub record CallbackCall : Type 0 where
  pub module_name : Bytes
  pub function : Bytes
  pub args : List GluValue
  pub arg_tags : List GluTypeTag

-- `for _ in 0..argc`: the values and the tags.
unfoldable pub read_args : Bytes → ℕ → Reader (List GluValue × List GluTypeTag)
read_args msg zero = pure ([], [])
read_args msg (suc n) = do
  tag_byte ← next_byte_or (codes "missing arg tag") msg
  tag ← lift (from_u8 tag_byte)
  v ← read_value msg tag
  rest ← read_args msg n
  pure (v ∷ rest.0, tag ∷ rest.1)

unfoldable pub callback_body : Bytes → Reader CallbackCall
callback_body msg = do
  _ ← check_payload msg (codes "callback payload truncated")
  module_name ← read_len_bytes msg
  function ← read_len_bytes msg
  _ ← read_len_bytes msg
  argc ← next_byte_or (codes "missing argc") msg
  args ← read_args msg argc
  pure (record {
    module_name = from_utf8_lossy module_name;
    function = from_utf8_lossy function;
    args = args.0;
    arg_tags = args.1;
  })

unfoldable pub decode_callback_call : Bytes → Memory → Outcome CallbackCall × Cursor
decode_callback_call [] m = (err (codes "empty callback call message"), record { off = 0; mem = m })
decode_callback_call (b ∷ rest) m =
    if eqb b msg_callback_call then callback_body (b ∷ rest) (record { off = 1; mem = m }) else (
      err (codes "expected CALLBACK_CALL (0x02), got " ++ show_hex b),
      record { off = 0; mem = m },
    )
