-- ===== src/Utf8/Lossy.antt =====
-- `from_utf8_lossy` on valid text.
use glu_core.Prelude.{
  ℕ, zero, suc, leb, ltb, ◌&&◌, ◌||◌, ◌≡◌, refl, true, [], ◌∷◌, ◌++◌, Bytes, arith, append_assoc,
  Bool,
}
use glu_core.Utf8.{
  Utf8State, start, inside, first_byte, utf8_step, lossy_from, valid_from, from_utf8_lossy, is_utf8,
}

-- The bytes of the character that the decoder is in.
abbrev pending : Utf8State → Bytes
pending start = []
pending (inside seen need low high) = seen

first_byte-pending :
    (b : ℕ)
    → (ltb b 0x80 || (leb 0xC2 b && ltb b 0xF5)) ≡ true
    → (first_byte b).0 ++ pending (first_byte b).1 ≡ b ∷ []
unfolding first_byte
first_byte-pending b h = ground arith

and_parts : (a b : Bool) → (a && b) ≡ true → (a ≡ true) × (b ≡ true)
and_parts a b h = ground arith

utf8_step_start : (b : ℕ) → utf8_step start b ≡ first_byte b
unfolding utf8_step
utf8_step_start b = refl

utf8_step_last :
    (seen : Bytes) (low high b : ℕ)
    → (leb low b && leb b high) ≡ true
    → utf8_step (inside seen zero low high) b ≡ (seen ++ (b ∷ []), start)
unfolding utf8_step
utf8_step_last seen low high b h = rw h

utf8_step_more :
    (seen : Bytes) (n low high b : ℕ)
    → (leb low b && leb b high) ≡ true
    → utf8_step (inside seen (suc n) low high) b ≡ ([], inside (seen ++ (b ∷ [])) n 0x80 0xBF)
unfolding utf8_step
utf8_step_more seen n low high b h = rw h

-- What was seen of a character does not bear on what may follow.
valid_seen :
    (n : ℕ) (seen seen' : Bytes) (bs : Bytes)
    → valid_from (inside seen n 0x80 0xBF) bs ≡ true
    → valid_from (inside seen' n 0x80 0xBF) bs ≡ true
unfolding valid_from
valid_seen n seen seen' [] h = h
valid_seen zero seen seen' (b ∷ bs) h = h
valid_seen (suc n) seen seen' (b ∷ bs) h =
    let parts = and_parts (leb 0x80 b && leb b 0xBF) (valid_from (inside seen n 0x80 0xBF) bs) h in
    ground (arith, parts, valid_seen n seen seen' bs parts.1)

-- Valid text is copied, after the bytes that were kept back.
lossy_from_valid :
    (st : Utf8State) (bs : Bytes) → valid_from st bs ≡ true → lossy_from st bs ≡ pending st ++ bs
unfolding valid_from lossy_from
lossy_from_valid start [] h = refl
lossy_from_valid (inside seen need low high) [] h = cc
lossy_from_valid start (b ∷ bs) h =
    let parts =
      and_parts (ltb b 0x80 || (leb 0xC2 b && ltb b 0xF5)) (valid_from (first_byte b).1 bs) h in
    rw
      (
        utf8_step_start b,
        lossy_from_valid (first_byte b).1 bs parts.1,
        ← append_assoc (first_byte b).0,
      )
      (rw (first_byte-pending b parts.0))
lossy_from_valid (inside seen zero low high) (b ∷ bs) h =
    let parts = and_parts (leb low b && leb b high) (valid_from start bs) h in
    rw (utf8_step_last seen low high b parts.0, lossy_from_valid start bs parts.1)
      (append_assoc seen (b ∷ []) bs)
lossy_from_valid (inside seen (suc n) low high) (b ∷ bs) h =
    let parts = and_parts (leb low b && leb b high) (valid_from (inside seen n 0x80 0xBF) bs) h in
    rw
      (
        utf8_step_more seen n low high b parts.0,
        lossy_from_valid (inside (seen ++ (b ∷ [])) n 0x80 0xBF) bs
            (valid_seen n seen (seen ++ (b ∷ [])) bs parts.1),
      )
      (append_assoc seen (b ∷ []) bs)

-- Valid UTF-8 is left as it is.
pub from_utf8_lossy_valid : (bs : Bytes) → is_utf8 bs ≡ true → from_utf8_lossy bs ≡ bs
unfolding is_utf8 from_utf8_lossy
from_utf8_lossy_valid bs h = lossy_from_valid start bs h
