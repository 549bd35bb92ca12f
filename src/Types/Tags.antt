-- ===== src/Types/Tags.antt =====
-- The byte of a type tag and back.
use glu_core.Prelude.{ℕ, ◌<◌, ◌≡◌, ◌↔◌, refl, ◌⊎◌, arith}
use glu_core.Outcome.{ok}
use glu_core.Types.{GluTypeTag, int, void, tag_byte, from_u8}

pub from_u8-tag_byte : (t : GluTypeTag) → from_u8 (tag_byte t) ≡ ok t
unfolding from_u8 tag_byte
from_u8-tag_byte int = refl
from_u8-tag_byte _ = refl

pub tag_byte-lt : (t : GluTypeTag) → tag_byte t < 256
unfolding tag_byte
tag_byte-lt int = omega arith
tag_byte-lt _ = omega arith

-- A byte is accepted as a tag exactly when it is the byte of that tag, or 0xFF for `void`.
pub from_u8_iff :
    (v : ℕ) (t : GluTypeTag) → (from_u8 v ≡ ok t) ↔ ((v ≡ tag_byte t) ⊎ ((v ≡ 0xFF) × (t ≡ void)))
unfolding from_u8 tag_byte
from_u8_iff v int = ground arith
from_u8_iff v _ = ground arith
