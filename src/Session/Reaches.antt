-- ===== src/Session/Reaches.antt =====
-- What holds in every world that a session reaches.
use glu_core.Prelude.{ℕ, suc, ◌+◌, ◌≡◌, true, some, List, Bytes, bytes_eq}
use glu_core.Prelude.Map.{lookup}
use glu_core.Types.{GluValue, GluExportEntry, ipc_wrapper}
use glu_core.Fctp.Encode.{encode_call}
use glu_core.Memory.{IsSound}
use glu_core.Handles.{find_entry}
use glu_core.Handles.Index.{IsIndexed, IsIndexed-empty}
use glu_core.Router.{current_caller_bytes}
use glu_core.World.{World}
use glu_core.World.Routes.{base_or_zero, IsRouted, Routes-empty}
use glu_core.Program.{Code}
use glu_core.Ipc.{caller_text}
use glu_core.Dispatch.{dispatch}
use glu_core.Dispatch.Links.{may_call}
use glu_core.Process.Routed.{over_socket, dispatch_routed}
use glu_core.Session.{IsFresh, Reach, here, then}
use glu_core.Session.Keeps.{IsConsistent, Keeps, Keeps-refl, Keeps-trans, Step-Keeps}

Reach-Keeps : (code : Code) {w w' : World} → Reach code w w' → Keeps w w'
Reach-Keeps code {w} here = Keeps-refl w
Reach-Keeps code (then r s) = Keeps-trans (Reach-Keeps code r) (Step-Keeps code s)

IsFresh-IsConsistent : (w : World) → IsFresh w → IsConsistent w
IsFresh-IsConsistent w fresh = record {
  indexed = rw fresh.registry IsIndexed-empty;
  sound = fresh.sound;
  routed = rw fresh.registry (Routes-empty w.ipc);
}

-- In every world that a session reaches from one where nothing is registered, through any runs of
-- compiled code, with registrations of modules of both kinds, and changes of the sockets: the
-- registry's indexes describe its modules; the memory is sound; and each function that is found, and
-- is called through the wrapper of process modules, is routed to the socket of its own module, as that
-- function, whatever modules were replaced on the way.
pub reached-IsConsistent :
    (code : Code) (w w' : World)
    → IsFresh w
    → Reach code w w'
    → IsIndexed w'.registry × IsSound w'.mem × IsRouted w'
reached-IsConsistent code w w' fresh r =
    let k = (Reach-Keeps code r).consistent (IsFresh-IsConsistent w fresh) in
    (k.indexed, k.sound, k.routed)

-- In a world that a session reaches from one where nothing is registered, an allowed call of a
-- function whose wrapper is that of process modules does not fail in the wrapper, neither
-- for want of a context nor on an index out of range: the module has a socket, and the CALL of that
-- function, if its arguments can be encoded, is sent over it.
pub reached-dispatch :
    (code : Code) (depth : ℕ) (m f : Bytes) (args : List GluValue) (w w' : World) (i : ℕ)
    (e : GluExportEntry) (msg : Bytes)
    → IsFresh w
    → Reach code w w'
    → may_call w' m ≡ true
    → find_entry w'.registry m f ≡ some (i, e)
    → e.wrapper ≡ ipc_wrapper
    → encode_call w'.mem m f (caller_text (current_caller_bytes w'.callers)) args e.signature.params
      ≡ some msg
    → (fd : ℕ) × (lookup m w'.ipc.module_sockets ≡ some fd)
      × (dispatch code (suc depth) m f args w'
          ≡ over_socket code depth fd msg (base_or_zero (lookup m w'.ipc.module_base_idx) + i) w')
reached-dispatch code depth m f args w w' i e msg fresh r =
    dispatch_routed code depth m f args w' i e msg
      ((Reach-Keeps code r).consistent (IsFresh-IsConsistent w fresh)).routed
