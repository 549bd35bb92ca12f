-- ===== src/Router/Links.antt =====
-- The link graph against the list of links that were added.
use glu_core.Prelude.{
  ◌+◌, ◌≡◌, ◌↔◌, ◌⊎◌, true, ◌&&◌, ◌||◌, some, List, [], ◌∷◌, Bytes, length, if◌then◌else◌, bytes_eq,
  bytes_beq_iff, ◌==◌, arith,
}
use glu_core.Prelude.Map.{lookup, insert, contains, add, lookup-insert, contains-add, length-add}
use glu_core.Router.{
  LinkGraph, glucore_add_link, is_link_allowed_bytes, glucore_link_table_size, targets,
}

-- A link that is added allows its own pair, and nothing else changes.
pub is_link_allowed-add_link :
    (l : LinkGraph) (a b caller callee : Bytes)
    → is_link_allowed_bytes (glucore_add_link (some a) (some b) l) caller callee
      ≡ ((a == caller && b == callee) || is_link_allowed_bytes l caller callee)
unfolding is_link_allowed_bytes glucore_add_link contains
is_link_allowed-add_link l a b caller callee = ground (
  arith,
  lookup-insert a caller (add b (targets (lookup a l))) l,
  contains-add b callee (targets (lookup a l)),
  bytes_beq_iff a caller,
)

abbrev pub Listed : Bytes → Bytes → List (Bytes × Bytes) → Type 0
Listed caller callee [] = ⊥
Listed caller callee ((a, b) ∷ ps) = ((a ≡ caller) × (b ≡ callee)) ⊎ Listed caller callee ps

-- The pairs of a topology, pushed into the core one after the other.
unfoldable pub add_links : List (Bytes × Bytes) → LinkGraph → LinkGraph
add_links [] l = l
add_links ((a, b) ∷ ps) l = add_links ps (glucore_add_link (some a) (some b) l)

add_links-allowed :
    (ps : List (Bytes × Bytes)) (l : LinkGraph) (caller callee : Bytes)
    → (is_link_allowed_bytes (add_links ps l) caller callee ≡ true)
      ↔ (Listed caller callee ps ⊎ (is_link_allowed_bytes l caller callee ≡ true))
unfolding add_links
add_links-allowed [] l caller callee = ground arith
add_links-allowed ((a, b) ∷ ps) l caller callee = ground (
  arith,
  add_links-allowed ps (glucore_add_link (some a) (some b) l) caller callee,
  is_link_allowed-add_link l a b caller callee,
  bytes_beq_iff a caller,
  bytes_beq_iff b callee,
)

-- A call is allowed exactly when the pair of its caller and its callee was added: it is not enough
-- that the callee may be called by someone.
pub link_allowed_iff :
    (ps : List (Bytes × Bytes)) (caller callee : Bytes)
    → (is_link_allowed_bytes (add_links ps []) caller callee ≡ true) ↔ Listed caller callee ps
unfolding is_link_allowed_bytes lookup
link_allowed_iff ps caller callee = ground (arith, add_links-allowed ps [] caller callee)

size-insert :
    (l : LinkGraph) (a : Bytes) (s : List Bytes)
    → glucore_link_table_size (insert a s l) + length (targets (lookup a l))
      ≡ glucore_link_table_size l + length s
unfolding glucore_link_table_size insert lookup
size-insert [] a s = omega arith
size-insert ((c, t) ∷ l) a s = ground (arith, size-insert l a s)

-- The link table counts the pairs: a link that was there before is not counted again.
pub link_table_size-add_link :
    (l : LinkGraph) (a b : Bytes)
    → glucore_link_table_size (glucore_add_link (some a) (some b) l) ≡ (
        if is_link_allowed_bytes l a b
        then glucore_link_table_size l
        else glucore_link_table_size l + 1)
unfolding glucore_add_link is_link_allowed_bytes contains
link_table_size-add_link l a b =
    ground
      (arith, size-insert l a (add b (targets (lookup a l))), length-add b (targets (lookup a l)))
