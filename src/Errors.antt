-- ===== src/Errors.antt =====
-- core/src/errors.rs: the constructors of `GluResult`.
use glu_core.Prelude.{◌≡◌, Option, none, some, false, Bytes, codes, has_nul, arith, if◌then◌else◌}
use glu_core.Types.{GluValue, GluStatus, GluResult, ok_status, of_word}

-- `CString::new(s)`, which refuses a zero byte
unfoldable pub c_string : Bytes → Option Bytes
c_string s = if has_nul s then none else some s

-- `GluResult::ok`
unfoldable pub glu_ok : GluValue → GluResult
glu_ok v = record { status = ok_status; value = v; message = none }

-- `CString::new(msg).unwrap_or_else(|_| CString::new("error").unwrap())`
unfoldable pub error_text : Bytes → Bytes
unfolding c_string
error_text msg = elim (c_string msg) [ none ↦ codes "error" | some c ↦ c ]

-- `GluResult::err`; the bits of 0.0 are 0
unfoldable pub glu_err : GluStatus → Bytes → GluResult
glu_err status msg = record { status = status; value = of_word 0; message = some (error_text msg) }

-- The message of an error is a C string, whatever text it was made from.
pub error_text-has_nul : (msg : Bytes) → has_nul (error_text msg) ≡ false
unfolding error_text
error_text-has_nul msg = ground arith

pub error_text_lem : (msg : Bytes) → has_nul msg ≡ false → error_text msg ≡ msg
unfolding error_text
error_text_lem msg h = ground arith
