-- ===== src/Process/Routed.antt =====
-- A call of a function that a process module registered (core/src/runtime.rs, core/src/router.rs).
use glu_core.Prelude.{
  ℕ, suc, ◌+◌, ◌-◌, ◌≡◌, refl, true, none, some, List, Bytes, arith, Option-cases, inl, inr,
  bytes_eq,
}
use glu_core.Prelude.Map.{lookup}
use glu_core.Types.{GluValue, GluResult, GluExportEntry, ipc_wrapper}
use glu_core.Fctp.Encode.{encode_call}
use glu_core.Handles.{find_entry, find_export}
use glu_core.Router.{current_caller_bytes, is_link_allowed_bytes}
use glu_core.World.{World, Run, returned, aborted, undefined, blocked, out_of_fuel}
use glu_core.World.Routes.{base_or_zero, meta_of, route, IsRouted}
use glu_core.Program.{Code, and_then}
use glu_core.Ipc.{caller_text, ipc_call, ipc_dispatch_wrapper, ipc_roundtrip}
use glu_core.Dispatch.{invoke, call_wrapper, call_export, dispatch_with, dispatch}
use glu_core.Dispatch.Links.{may_call}

-- A call over the socket `fd`, of the export of that index: the message is sent, and what comes
-- back is the result. While the peer is waited for, the context is that of the call and a guard
-- of the IPC tables is held; afterwards there is no context, and the guard is given back.
abbrev pub over_socket : Code → ℕ → ℕ → Bytes → ℕ → World → Run
over_socket code depth fd msg index w =
    and_then
      (ipc_roundtrip (dispatch code depth) fd msg
        (record w { readers = suc w.readers; ctx = some (index, fd) }))
      (λ r w'. returned r (record w' { readers = w'.readers - 1; ctx = none }))

and_then-and_then :
    (r : Run) (k l : GluResult → World → Run)
    → and_then (and_then r k) l ≡ and_then r (λ x w. and_then (k x w) l)
and_then-and_then (returned x w) k l = refl
and_then-and_then aborted k l = refl
and_then-and_then undefined k l = refl
and_then-and_then blocked k l = refl
and_then-and_then out_of_fuel k l = refl

-- The call, where the tables lead to the export of that function on the socket `fd`.
module _ (code : Code) (depth : ℕ) (m f : Bytes) (args : List GluValue) (w : World) (fd i : ℕ)
    (e : GluExportEntry) (msg : Bytes) where
  pub dispatch-over_socket :
      may_call w m ≡ true
      → find_entry w.registry m f ≡ some (i, e)
      → e.wrapper ≡ ipc_wrapper
      → lookup m w.ipc.module_sockets ≡ some fd
      → route w.ipc m i ≡ some (meta_of fd m (f, e.signature))
      → encode_call w.mem m f (caller_text (current_caller_bytes w.callers)) args e.signature.params
        ≡ some msg
      → dispatch code (suc depth) m f args w
        ≡ over_socket code depth fd msg (base_or_zero (lookup m w.ipc.module_base_idx) + i) w
  unfolding dispatch dispatch_with call_export call_wrapper invoke ipc_dispatch_wrapper ipc_call
      find_export
  dispatch-over_socket h found wrapper socket meta encoded =
      elim (Option-cases (current_caller_bytes w.callers)) [
        | inl no_caller ↦ absurd (ground (arith, no_caller, h))
        | inr (c, caller) ↦
            let link : is_link_allowed_bytes w.links c m ≡ true = rw caller at h in
            rw
              (
                caller, link, found, socket, wrapper, meta, encoded, dispatch, dispatch_with,
                call_export, call_wrapper, invoke, ipc_dispatch_wrapper, ipc_call, find_export,
              )
              (and_then-and_then (ipc_roundtrip _ _ _ _) _ _)
      ]

-- An allowed call of a function whose wrapper is that of process modules, in a world that routes
-- such calls: its module has a socket, and a CALL of that function of that module, with the
-- name of the caller, is sent over that socket, if its arguments can be encoded under the
-- signature that the module registered; what comes back is the result.
pub dispatch_routed :
    (code : Code) (depth : ℕ) (m f : Bytes) (args : List GluValue) (w : World) (i : ℕ)
    (e : GluExportEntry) (msg : Bytes)
    → IsRouted w
    → may_call w m ≡ true
    → find_entry w.registry m f ≡ some (i, e)
    → e.wrapper ≡ ipc_wrapper
    → encode_call w.mem m f (caller_text (current_caller_bytes w.callers)) args e.signature.params
      ≡ some msg
    → (fd : ℕ) × (lookup m w.ipc.module_sockets ≡ some fd)
      × (dispatch code (suc depth) m f args w
          ≡ over_socket code depth fd msg (base_or_zero (lookup m w.ipc.module_base_idx) + i) w)
dispatch_routed code depth m f args w i e msg r h found wrapper encoded =
    let (fd, socket, meta) = r.routed m f i e found wrapper in
    (
      fd,
      socket,
      dispatch-over_socket code depth m f args w fd i e msg h found wrapper socket meta encoded,
    )
