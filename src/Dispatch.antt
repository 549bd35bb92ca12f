-- ===== src/Dispatch.antt =====
-- `dispatch` of core/src/router.rs: the link check, the lookup, and the call of the wrapper. The
-- fuel bounds how deep calls nest; a program whose modules call one another without end overflows
-- its stack.
pub mod Links
pub mod NotFound
pub mod Compiled
pub mod Ends
pub mod Terminates
pub mod Restores
use glu_core.Prelude.{
  ℕ, zero, suc, ◌+◌, Bool, true, false, Option, none, some, List, [], ◌∷◌, ◌++◌, Bytes, codes,
  has_nul, ltb, bytes_eq,
}
use glu_core.Types.{GluValue, GluWrapper, ipc_wrapper, exported, link_denied, not_found}
use glu_core.Errors.{glu_err}
use glu_core.Utf8.{from_utf8_lossy}
use glu_core.Handles.{find_export, glucore_get_module_export_count}
use glu_core.Router.{current_caller_bytes, is_link_allowed_bytes, enter, drop_guard}
use glu_core.World.{World, Run, returned, aborted, undefined, out_of_fuel}
use glu_core.World.Routes.{ipc_socket_for_module, ipc_base_idx_for_module, base_or_zero}
use glu_core.Program.{Dispatch, Code, run_program, and_then}
use glu_core.Ipc.{ipc_dispatch_wrapper}

-- The text has an em dash, three bytes in UTF-8.
unfoldable pub no_identity : Bytes
no_identity =
    codes "no caller identity set "
    ++ (0xE2 ∷ 0x80 ∷ 0x94 ∷ codes " call glucore_set_caller_identity first")

unfoldable pub denied_text : Bytes → Bytes → Bytes
denied_text caller m =
    codes "link denied: caller '"
    ++ (from_utf8_lossy caller ++ (codes "' is not allowed to call module '" ++ (m ++ codes "'")))

-- `CString::new(module).unwrap()` panics on a zero byte; from `glucore_call` that aborts the process, from
-- `call_as` it unwinds to the caller, and in both the call does not return.
unfoldable pub no_export : Bytes → World → Run
no_export m w = elim (has_nul m) [
  | true ↦ aborted
  | false ↦ elim (ltb 0 (glucore_get_module_export_count w.registry (some m))) [
    | true ↦ returned (glu_err not_found (codes "function not found in module")) w
    | false ↦ returned (glu_err not_found (codes "module not found")) w
  ]
]

-- A call of a function pointer.
unfoldable pub invoke : Code → Dispatch → GluWrapper → List GluValue → World → Run
invoke code dispatch ipc_wrapper args w = ipc_dispatch_wrapper dispatch args w
invoke code dispatch (exported address) args w = run_program dispatch (code address args) w

-- The call of the wrapper, with the context of an IPC module set around it.
unfoldable pub call_wrapper :
    (GluWrapper → List GluValue → World → Run)
    → Bytes
    → ℕ
    → GluWrapper
    → List GluValue
    → Option ℕ
    → World
    → Run
call_wrapper invoke m entry_idx wrapper args none w = invoke wrapper args w
call_wrapper invoke m entry_idx wrapper args (some sock_fd) w =
    and_then
      (invoke wrapper args (record w {
        ctx = some (base_or_zero (ipc_base_idx_for_module w.ipc m) + entry_idx, sock_fd);
      }))
      (λ r w'. returned r (record w' { ctx = none }))

unfoldable pub call_export :
    (GluWrapper → List GluValue → World → Run)
    → Bytes
    → List GluValue
    → World
    → Option (ℕ × GluWrapper)
    → Run
call_export invoke m args w none = no_export m w
call_export invoke m args w (some (entry_idx, wrapper)) =
    call_wrapper invoke m entry_idx wrapper args (ipc_socket_for_module w.ipc m) w

-- The body of `dispatch`, over the call of a wrapper.
unfoldable pub dispatch_with :
    (GluWrapper → List GluValue → World → Run) → Bytes → Bytes → List GluValue → World → Run
dispatch_with invoke m function args w = elim (current_caller_bytes w.callers) [
  | none ↦ returned (glu_err link_denied no_identity) w
  | some caller ↦ elim (is_link_allowed_bytes w.links caller m) [
    | false ↦ returned (glu_err link_denied (denied_text caller m)) w
    | true ↦ call_export invoke m args w (find_export w.registry m function)
  ]
]

unfoldable pub dispatch : Code → ℕ → Dispatch
dispatch code zero m function args w = out_of_fuel
dispatch code (suc depth) m function args w =
    dispatch_with (invoke code (dispatch code depth)) m function args w

-- `call_as`: the guard lives until the call has returned.
unfoldable pub call_as : Code → ℕ → Bytes → Bytes → Bytes → List GluValue → World → Run
call_as code depth caller m function args w =
    let entered = enter caller w.callers in
    and_then (dispatch code depth m function args (record w { callers = entered.1 }))
      (λ r w'. returned r (record w' { callers = drop_guard entered.0 w'.callers }))
