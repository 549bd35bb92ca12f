-- ===== src/Router/Callers.antt =====
-- The guard that saves and restores the caller's identity.
use glu_core.Prelude.{◌≡◌, [], ◌∷◌, Bytes, arith}
use glu_core.Errors.{c_string}
use glu_core.Router.{CallerStack, enter, drop_guard}

-- Dropping a guard restores the stack that it was entered on, whatever that was.
pub drop_guard-enter :
    (c : Bytes) (stack : CallerStack) → drop_guard (enter c stack).0 (enter c stack).1 ≡ stack
unfolding enter drop_guard c_string
drop_guard-enter c [] = ground arith
drop_guard-enter c (d ∷ []) = ground arith
drop_guard-enter c (d ∷ e ∷ s) = ground arith
