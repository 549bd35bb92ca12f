-- ===== src/Session/Keeps.antt =====
-- What every step of a session keeps.
use glu_core.Prelude.{ℕ, ◌≡◌, true, some, Bytes, get_elem?, bytes_eq}
use glu_core.Memory.{IsSound}
use glu_core.Handles.Index.{IsIndexed}
use glu_core.Router.{is_link_allowed_bytes}
use glu_core.World.{World, IpcExportMeta}
use glu_core.World.Later.{Anywhere, Later}
use glu_core.World.Routes.{IsRouted}
use glu_core.Program.{Code}
use glu_core.Program.Adds.{AddsOnly-Anywhere}
use glu_core.Program.Ends.{run_program-EndsLater}
use glu_core.Dispatch.{dispatch}
use glu_core.Dispatch.Ends.{dispatch-Later}
use glu_core.Session.{Step, ran, streamed}

-- The registry's indexes describe its modules, no unused address is taken, and the functions of
-- process modules are routed to their sockets.
pub record IsConsistent (w : World) : Type 0 where
  pub indexed : IsIndexed w.registry
  pub sound : IsSound w.mem
  pub routed : IsRouted w

-- Links and IPC exports are only added, and a consistent world stays consistent.
pub record Keeps (w w' : World) : Type 0 where
  pub links :
      (a b : Bytes)
      → is_link_allowed_bytes w.links a b ≡ true
      → is_link_allowed_bytes w'.links a b ≡ true
  pub exports :
      (i : ℕ) (x : IpcExportMeta)
      → get_elem? w.ipc.exports i ≡ some x
      → get_elem? w'.ipc.exports i ≡ some x
  pub consistent : IsConsistent w → IsConsistent w'

pub Keeps-refl : (w : World) → Keeps w w
Keeps-refl w = record { links = λ a b h. h; exports = λ i x h. h; consistent = λ k. k }

pub Keeps-trans : {a b c : World} → Keeps a b → Keeps b c → Keeps a c
Keeps-trans p q = record {
  links = λ x y h. q.links x y (p.links x y h);
  exports = λ i x h. q.exports i x (p.exports i x h);
  consistent = λ k. q.consistent (p.consistent k);
}

Later-Keeps : {w w' : World} → Later Anywhere w w' → Keeps w w'
Later-Keeps l = record {
  links = l.links;
  exports = l.exports;
  consistent = λ k. record {
    indexed = l.indexed k.indexed;
    sound = l.sound k.sound;
    routed = l.routed k.indexed k.routed;
  };
}

-- Whatever the step is.
pub Step-Keeps : (code : Code) {w w' : World} → Step code w w' → Keeps w w'
Step-Keeps code (ran depth p r {w} {w'} h) = Later-Keeps (
    (run_program-EndsLater (dispatch code depth) (dispatch-Later code depth) p w
        (AddsOnly-Anywhere p)).ends
      r w' h)
Step-Keeps code (streamed limit socket open_peers {w}) = record {
  links = λ a b h. h;
  exports = λ i x h. h;
  consistent = λ k. record { indexed = k.indexed; sound = k.sound; routed = k.routed };
}
