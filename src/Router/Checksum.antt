-- ===== src/Router/Checksum.antt =====
-- What two sides of a process can compare to see that they share one core.
use glu_core.Prelude.{ℕ, ◌+◌, ◌*◌, ◌/◌, ◌%◌, ◌^◌, ◌≡◌, arith, ◌∙◌, ap}
use glu_core.Prelude.Bits.{bit_or_fields, bit_and_low}
use Prim.Native.Nat.{bit_or, bit_and}
use glu_core.Router.{
  LinkGraph, CallerStack, current_caller_bytes, caller_len, glucore_link_table_size,
  glucore_shared_state_checksum,
}

two_fields :
    (c s : ℕ)
    → bit_or (c * 2 ^ 32 % 2 ^ 64) (bit_and s 0xFFFF_FFFF) ≡ c % 2 ^ 32 * 2 ^ 32 + s % 2 ^ 32
two_fields c s =
    let high : c * 2 ^ 32 % 2 ^ 64 ≡ c % 2 ^ 32 * 2 ^ 32 = omega arith in
    let split : s ≡ s / 2 ^ 32 * 2 ^ 32 + s % 2 ^ 32 = omega arith in
    let low : bit_and s 0xFFFF_FFFF ≡ s % 2 ^ 32 =
      ap (λ (x : ℕ). bit_and x 0xFFFF_FFFF) split
      ∙ bit_and_low 32 (s / 2 ^ 32) (s % 2 ^ 32) (omega arith) in
    rw (high, low) (bit_or_fields 32 (c % 2 ^ 32) (s % 2 ^ 32) (omega arith))

-- The checksum has the length of the caller's name in its high 32 bits and the count of links in the
-- low ones, each modulo 2^32.
pub glucore_shared_state_checksum_lem :
    (l : LinkGraph) (stack : CallerStack)
    → (glucore_shared_state_checksum l stack / 2 ^ 32
        ≡ caller_len (current_caller_bytes stack) % 2 ^ 32)
      × (glucore_shared_state_checksum l stack % 2 ^ 32 ≡ glucore_link_table_size l % 2 ^ 32)
unfolding glucore_shared_state_checksum
glucore_shared_state_checksum_lem l stack =
    let sum = two_fields (caller_len (current_caller_bytes stack)) (glucore_link_table_size l) in
    (omega (arith, sum), omega (arith, sum))
