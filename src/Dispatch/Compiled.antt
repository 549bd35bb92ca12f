-- ===== src/Dispatch/Compiled.antt =====
-- `dispatch` of core/src/router.rs, to a compiled function.
use glu_core.Prelude.{
  ℕ, suc, ◌≡◌, true, none, some, List, Bytes, arith, bytes_eq, Option-cases, inl, inr,
}
use glu_core.Prelude.Map.{lookup}
use glu_core.Types.{GluValue, exported}
use glu_core.Handles.{find_export}
use glu_core.Router.{current_caller_bytes, is_link_allowed_bytes}
use glu_core.World.{World}
use glu_core.Program.{Code, run_program}
use glu_core.Dispatch.{dispatch, dispatch_with, call_export, call_wrapper, invoke}
use glu_core.Dispatch.Links.{may_call}

-- An allowed call of a function at an address, in a module that has no socket, runs the code there.
pub dispatch_compiled :
    (code : Code) (depth : ℕ) (m f : Bytes) (args : List GluValue) (w : World) (i a : ℕ)
    → may_call w m ≡ true
    → lookup m w.ipc.module_sockets ≡ none
    → find_export w.registry m f ≡ some (i, exported a)
    → dispatch code (suc depth) m f args w ≡ run_program (dispatch code depth) (code a args) w
unfolding dispatch dispatch_with call_export call_wrapper invoke
dispatch_compiled code depth m f args w i a h socket found =
    elim (Option-cases (current_caller_bytes w.callers)) [
      | inl no_caller ↦ absurd (ground (arith, no_caller, h))
      | inr (c, caller) ↦
          let link : is_link_allowed_bytes w.links c m ≡ true = rw caller at h in
          rw (
            caller, link, found, socket, dispatch, dispatch_with, call_export, call_wrapper, invoke,
          )
    ]
