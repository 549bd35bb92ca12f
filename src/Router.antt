-- ===== src/Router.antt =====
-- core/src/router.rs: the link graph and the caller's identity. The links are shared behind a lock
-- that each operation holds from start to end; the stack of callers is one thread's.
pub mod Links
pub mod Callers
pub mod Checksum
use Prim.Native.Nat.{bit_and, bit_or}
use glu_core.Prelude.{
  ℕ, ◌+◌, ◌*◌, ◌%◌, ◌^◌, Bool, true, false, not, ◌&&◌, Option, none, some, List, [], ◌∷◌, Bytes,
  length, codes, ltb, if◌then◌else◌, bytes_eq,
}
use glu_core.Prelude.Map.{Map, lookup, insert, contains, add}
use glu_core.Errors.{c_string}

-- `HashMap<Vec<u8>, HashSet<Vec<u8>>>`: the callees of each caller.
abbrev pub LinkGraph : Type 0
LinkGraph = Map Bytes (List Bytes)

abbrev targets : Option (List Bytes) → List Bytes
targets none = []
targets (some s) = s

-- `l.entry(caller).or_default().insert(callee)`; `none` is a null pointer.
unfoldable pub glucore_add_link : Option Bytes → Option Bytes → LinkGraph → LinkGraph
glucore_add_link (some caller) (some callee) l =
    insert caller (add callee (targets (lookup caller l))) l
glucore_add_link (some caller) none l = l
glucore_add_link none callee l = l

unfoldable pub is_link_allowed_bytes : LinkGraph → Bytes → Bytes → Bool
is_link_allowed_bytes l caller callee = elim (lookup caller l) [
  | none ↦ false
  | some s ↦ contains s callee
]

-- `l.values().map(|s| s.len()).sum()`
unfoldable pub glucore_link_table_size : LinkGraph → ℕ
glucore_link_table_size [] = 0
glucore_link_table_size ((caller, s) ∷ l) = length s + glucore_link_table_size l

-- The thread's stack, its last element first.
abbrev pub CallerStack : Type 0
CallerStack = List Bytes

unfoldable pub current_caller_bytes : CallerStack → Option Bytes
current_caller_bytes [] = none
current_caller_bytes (c ∷ s) = some c

unfoldable pub glucore_set_caller_identity : Option Bytes → CallerStack → CallerStack
glucore_set_caller_identity none stack = []
glucore_set_caller_identity (some name) stack = name ∷ []

abbrev pub caller_len : Option Bytes → ℕ
caller_len none = 0
caller_len (some c) = length c

-- `(caller_len << 32) | (link_count & 0xFFFF_FFFF)` in 64 bits
unfoldable pub glucore_shared_state_checksum : LinkGraph → CallerStack → ℕ
glucore_shared_state_checksum l stack =
    bit_or (caller_len (current_caller_bytes stack) * 2 ^ 32 % 2 ^ 64)
      (bit_and (glucore_link_table_size l) 0xFFFF_FFFF)

pub record CallerGuard : Type 0 where
  pub had_previous : Bool

abbrev guard_name : Option Bytes → Bytes
guard_name none = codes "invalid"
guard_name (some c) = c

-- `CallerGuard::enter(new_caller)`: the guard and the stack with the new caller.
unfoldable pub enter : Bytes → CallerStack → CallerGuard × CallerStack
enter new_caller stack =
    let stack' = guard_name (c_string new_caller) ∷ stack in
    (record { had_previous = ltb 1 (length stack') }, stack')

-- `stack.pop()`
abbrev pop : CallerStack → CallerStack
pop [] = []
pop (c ∷ s) = s

-- `stack.truncate(1)` keeps the first element pushed.
abbrev truncate_one : CallerStack → CallerStack
truncate_one [] = []
truncate_one (c ∷ []) = c ∷ []
truncate_one (c ∷ d ∷ s) = truncate_one (d ∷ s)

-- `Drop for CallerGuard`
unfoldable pub drop_guard : CallerGuard → CallerStack → CallerStack
drop_guard g stack =
    let stack' = pop stack in
    if not g.had_previous && ltb 1 (length stack') then truncate_one stack' else stack'
