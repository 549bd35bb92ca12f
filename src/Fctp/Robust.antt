-- ===== src/Fctp/Robust.antt =====
-- The decoders on any bytes, well formed or not.
use glu_core.Prelude.{
  ℕ, zero, suc, ◌-◌, ◌<◌, ◌≡◌, refl, ap, ◌∙◌, ◌⊎◌, inl, inr, [], ◌∷◌, List, Bytes, length, to_le,
  from_le, arith, ltb, leb, Bool-cases, eqb,
}
use glu_core.Outcome.{ok, panic}
use glu_core.Types.{GluTypeTag, GluValue, int, from_u8}
use glu_core.Errors.{glu_ok}
use glu_core.Memory.{Memory, IsSound}
use glu_core.Reader.{
  Cursor, bind_ok_elim, ◌>>=◌, pure, lift, read_u32_le, take_bytes, slice, next_byte, next_byte_or,
  read_len_bytes,
}
use glu_core.Reader.Stays.{
  Within, Stays, stays_rules, Stays-bind, Stays-bind_lift, Stays-if, Stays-pure, read_u32_le-Stays,
  read_len_bytes-Stays, next_byte-Stays, next_byte_or-Stays,
}
use glu_core.Fctp.{msg_result, msg_callback_call}
use glu_core.Fctp.Decode.{
  CallbackCall, read_value, payload_fits, check_payload, decode_ok, decode_error, decode_body,
  decode_result, read_args, callback_body, decode_callback_call,
}

module _ (msg : Bytes) (m : Memory) where
  read_value-Stays : (t : GluTypeTag) → Stays msg m (read_value msg t)
  unfolding read_value
  read_value-Stays int = search stays_rules
  read_value-Stays _ = search stays_rules

  read_args-Stays : (n : ℕ) → Stays msg m (read_args msg n)
  unfolding read_args
  read_args-Stays zero = search stays_rules
  read_args-Stays (suc n) = Stays-bind (next_byte_or _ msg) _ (next_byte_or-Stays msg m _) λ b.
      Stays-bind_lift (from_u8 b) _ λ t.
        Stays-bind (read_value msg t) _ (read_value-Stays t)
          λ v. Stays-bind (read_args msg n) _ (read_args-Stays n) λ rest. Stays-pure _

  payload_fits-Stays : (text : Bytes) (n : ℕ) → Stays msg m (payload_fits msg text n)
  unfolding payload_fits
  payload_fits-Stays text n = record {
    stays = λ c w. elim (Bool-cases (ltb (length msg - c.off) n)) [
      | inl e ↦ rw (e, payload_fits) w
      | inr e ↦ rw (e, payload_fits) w
    ];
  }

  check_payload-Stays : (text : Bytes) → Stays msg m (check_payload msg text)
  unfolding check_payload
  check_payload-Stays text =
      Stays-bind (read_u32_le msg) _ (read_u32_le-Stays msg m) (payload_fits-Stays text)

  callback_body-Stays : Stays msg m (callback_body msg)
  unfolding callback_body
  callback_body-Stays = Stays-bind (check_payload msg _) _ (check_payload-Stays _) λ _.
      Stays-bind (read_len_bytes msg) _ (read_len_bytes-Stays msg m) λ name.
        Stays-bind (read_len_bytes msg) _ (read_len_bytes-Stays msg m) λ function.
          Stays-bind (read_len_bytes msg) _ (read_len_bytes-Stays msg m) λ _.
            Stays-bind (next_byte_or _ msg) _ (next_byte_or-Stays msg m _)
              λ argc. Stays-bind (read_args msg argc) _ (read_args-Stays argc) λ args. Stays-pure _

  decode_ok-Stays : Stays msg m (decode_ok msg)
  unfolding decode_ok
  decode_ok-Stays = record {
    stays = λ c w. elim (Bool-cases (leb (length msg) c.off)) [
      | inl e ↦ rw (e, decode_ok) w
      | inr e ↦ rw (e, decode_ok) (read_tagged.stays c w)
    ];
  }
    where
      read_tagged : Stays msg m (do
        tag_byte ← next_byte msg
        tag ← lift (from_u8 tag_byte)
        v ← read_value msg tag
        pure (glu_ok v))
      read_tagged = Stays-bind (next_byte msg) _ (next_byte-Stays msg m) λ b.
          Stays-bind_lift (from_u8 b) _
            λ t. Stays-bind (read_value msg t) _ (read_value-Stays t) λ v. Stays-pure _

  decode_body-Stays : Stays msg m (decode_body msg)
  unfolding decode_body decode_error
  decode_body-Stays = Stays-bind (check_payload msg _) _ (check_payload-Stays _) λ _.
      Stays-bind (next_byte msg) _ (next_byte-Stays msg m) λ status.
        Stays-if (eqb status 0) (decode_ok msg) (decode_error msg) decode_ok-Stays
          (Stays-bind (read_len_bytes msg) _ (read_len_bytes-Stays msg m) λ bs. Stays-pure _)

pub decode_callback_call-Within :
    (msg : Bytes) (m : Memory) → IsSound m → Within msg m (decode_callback_call msg m).1
unfolding decode_callback_call
decode_callback_call-Within [] m s = record {
  in_range = omega arith;
  sound = s;
  kept = λ sl old h. h;
}
decode_callback_call-Within (b ∷ rest) m s = elim (Bool-cases (eqb b msg_callback_call)) [
  | inl e ↦
      rw (e, decode_callback_call)
        ((callback_body-Stays (b ∷ rest) m).stays (record { off = 1; mem = m })
          (record { in_range = omega arith; sound = s; kept = λ sl old h. h }))
  | inr e ↦
      rw (e, decode_callback_call)
        (record { in_range = omega arith; sound = s; kept = λ sl old h. h })
]

pub decode_result-Within :
    (msg : Bytes) (m : Memory) → IsSound m → Within msg m (decode_result msg m).1
unfolding decode_result
decode_result-Within [] m s = record { in_range = omega arith; sound = s; kept = λ sl old h. h }
decode_result-Within (b ∷ rest) m s = elim (Bool-cases (eqb b msg_result)) [
  | inl e ↦
      rw (e, decode_result)
        ((decode_body-Stays (b ∷ rest) m).stays (record { off = 1; mem = m })
          (record { in_range = omega arith; sound = s; kept = λ sl old h. h }))
  | inr e ↦
      rw (e, decode_result) (record { in_range = omega arith; sound = s; kept = λ sl old h. h })
]

-- `read_args` returns as many values, and as many tags, as it was asked for.
read_args-length :
    (msg : Bytes) (n : ℕ) (c : Cursor) {r : List GluValue × List GluTypeTag} {c' : Cursor}
    → read_args msg n c ≡ (ok r, c')
    → (length r.0 ≡ n) × (length r.1 ≡ n)
unfolding read_args
read_args-length msg zero c h = ground arith
read_args-length msg (suc n) c {r} {c'} h = bind_ok_elim (next_byte_or _ msg) _ c h λ b c₁ _ h₁.
    bind_ok_elim (lift (from_u8 b)) _ c₁ h₁ λ t c₂ _ h₂.
      bind_ok_elim (read_value msg t) _ c₂ h₂ λ v c₃ _ h₃.
        bind_ok_elim (read_args msg n) _ c₃ h₃
          λ rest c₄ e h₄. ground (arith, read_args-length msg n c₃ e)

callback_body-length :
    (msg : Bytes) (c : Cursor) {r : CallbackCall} {cur : Cursor}
    → callback_body msg c ≡ (ok r, cur)
    → length r.args ≡ length r.arg_tags
unfolding callback_body
callback_body-length msg c h = bind_ok_elim (check_payload msg _) _ c h λ _ c₁ _ h₁.
    bind_ok_elim (read_len_bytes msg) _ c₁ h₁ λ name c₂ _ h₂.
      bind_ok_elim (read_len_bytes msg) _ c₂ h₂ λ function c₃ _ h₃.
        bind_ok_elim (read_len_bytes msg) _ c₃ h₃ λ caller c₄ _ h₄.
          bind_ok_elim (next_byte_or _ msg) _ c₄ h₄ λ n c₅ _ h₅.
            bind_ok_elim (read_args msg n) _ c₅ h₅
              λ args c₆ e h₆. ground (arith, read_args-length msg n c₅ e)

-- A request that is accepted has as many tags as arguments.
pub decode_callback_call-length :
    (msg : Bytes) (m : Memory) {c : CallbackCall} {cur : Cursor}
    → decode_callback_call msg m ≡ (ok c, cur)
    → length c.args ≡ length c.arg_tags
unfolding decode_callback_call
decode_callback_call-length [] m h = absurd (cc)
decode_callback_call-length (b ∷ rest) m {c} {cur} h = elim (Bool-cases (eqb b msg_callback_call)) [
  | inl e ↦
      callback_body-length (b ∷ rest) (record { off = 1; mem = m }) {r = c} {cur = cur}
        (ground (arith, e, h))
  | inr e ↦ ground (arith, e, h)
]

empty_result : (m : Memory) → (decode_result (msg_result ∷ to_le 4 0) m).0 ≡ panic
unfolding decode_result decode_body check_payload read_u32_le take_bytes slice next_byte to_le
    from_le
empty_result m = refl

-- A RESULT that ends within its length field, or that has the length 0 and no payload, makes the
-- decoder index past the end, which panics: it is not answered by an error.
pub decode_result_panics :
    (rest : Bytes) (m : Memory)
    → (length rest < 4) ⊎ (rest ≡ to_le 4 0)
    → (decode_result (msg_result ∷ rest) m).0 ≡ panic
unfolding decode_result decode_body check_payload read_u32_le take_bytes slice
decode_result_panics rest m (inr e) =
    ap (λ (r : Bytes). (decode_result (msg_result ∷ r) m).0) e ∙ empty_result m
decode_result_panics [] m (inl h) = refl
decode_result_panics (a ∷ []) m (inl h) = refl
decode_result_panics (a ∷ b ∷ []) m (inl h) = refl
decode_result_panics (a ∷ b ∷ c ∷ []) m (inl h) = refl
decode_result_panics (a ∷ b ∷ c ∷ d ∷ rest) m (inl h) = absurd (omega arith)
