-- ===== src/Physics/Caller.antt =====
-- What `boost_with_cpp` leaves of the thread's callers, as part of a call that the core guards.
use glu_core.Prelude.{bytes_eq}
use glu_core.World.{World}
