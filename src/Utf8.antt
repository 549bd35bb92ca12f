-- ===== src/Utf8.antt =====
-- `String::from_utf8_lossy` and `str::from_utf8` of Rust's standard library, which the decoders of
-- core/src/fctp.rs and core/src/runtime.rs apply to names and messages. The decoder reads one byte
-- at a time: `seen` holds the bytes of the character that it is in, `need` says how many are to
-- come, and the next lies between `low` and `high`. Every maximal invalid part becomes U+FFFD.
pub mod Lossy
use glu_core.Prelude.{
  ℕ, ◌+◌, ◌-◌, zero, suc, Bool, true, false, ◌&&◌, ◌||◌, List, [], ◌∷◌, ◌++◌, Bytes, leb, ltb, eqb,
  if◌then◌else◌,
}

pub data Utf8State : Type 0 where
  start : Utf8State
  inside : Bytes → ℕ → ℕ → ℕ → Utf8State

abbrev pub replacement : Bytes
replacement = 0xEF ∷ 0xBF ∷ 0xBD ∷ []

-- The first byte of a character: what is written, and the state after it.
unfoldable pub first_byte : ℕ → Bytes × Utf8State
first_byte b =
    if ltb b 0x80
    then (b ∷ [], start)
    else if ltb b 0xC2
    then (replacement, start)
    else if ltb b 0xE0
    then ([], inside (b ∷ []) 0 0x80 0xBF)
    else if eqb b 0xE0
    then ([], inside (b ∷ []) 1 0xA0 0xBF)
    else if eqb b 0xED
    then ([], inside (b ∷ []) 1 0x80 0x9F)
    else if ltb b 0xF0
    then ([], inside (b ∷ []) 1 0x80 0xBF)
    else if eqb b 0xF0
    then ([], inside (b ∷ []) 2 0x90 0xBF)
    else if ltb b 0xF4
    then ([], inside (b ∷ []) 2 0x80 0xBF)
    else if eqb b 0xF4
    then ([], inside (b ∷ []) 2 0x80 0x8F)
    else (replacement, start)

-- A byte that must continue a character; if it does not, it is read again as a first byte.
unfoldable pub utf8_step : Utf8State → ℕ → Bytes × Utf8State
utf8_step start b = first_byte b
utf8_step (inside seen need low high) b =
    if leb low b && leb b high
    then elim need [
      | zero ↦ (seen ++ (b ∷ []), start)
      | suc n ↦ ([], inside (seen ++ (b ∷ [])) n 0x80 0xBF)
    ]
    else let (out, st) = first_byte b in (replacement ++ out, st)

unfoldable pub lossy_from : Utf8State → Bytes → Bytes
lossy_from start [] = []
lossy_from (inside seen need low high) [] = replacement
lossy_from st (b ∷ bs) = let (out, st') = utf8_step st b in out ++ lossy_from st' bs

-- `String::from_utf8_lossy(bytes).into_owned()`
unfoldable pub from_utf8_lossy : Bytes → Bytes
from_utf8_lossy = lossy_from start

-- `std::str::from_utf8(bytes).is_ok()`
unfoldable pub valid_from : Utf8State → Bytes → Bool
valid_from start [] = true
valid_from (inside seen need low high) [] = false
valid_from start (b ∷ bs) =
    let rest = valid_from (first_byte b).1 bs in (ltb b 0x80 || (leb 0xC2 b && ltb b 0xF5)) && rest
valid_from (inside seen zero low high) (b ∷ bs) =
    let rest = valid_from start bs in (leb low b && leb b high) && rest
valid_from (inside seen (suc n) low high) (b ∷ bs) =
    let rest = valid_from (inside seen n 0x80 0xBF) bs in (leb low b && leb b high) && rest

unfoldable pub is_utf8 : Bytes → Bool
is_utf8 = valid_from start
