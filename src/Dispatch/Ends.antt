-- ===== src/Dispatch/Ends.antt =====
-- `dispatch` ends in a later world, whatever the modules and the peers do.
use glu_core.Prelude.{
  ℕ, ◌<◌, zero, suc, ◌≡◌, ◌∙◌, arith, ◌⊎◌, true, Option, none, some, List, Bytes, has_nul, ltb,
  Bool-cases, Option-cases, inl, inr, bytes_eq,
}
use glu_core.Types.{GluValue, GluResult, GluWrapper, ipc_wrapper, exported}
use glu_core.Handles.{find_export, glucore_get_module_export_count}
use glu_core.Router.{current_caller_bytes, is_link_allowed_bytes}
use glu_core.World.{World, Run, returned}
use glu_core.World.Later.{Later-ctx, Anywhere, Later-refl}
use glu_core.Program.{Dispatch, Code}
use glu_core.Program.Adds.{AddsOnly, AddsOnly-Anywhere}
use glu_core.Program.Ends.{
  EndsLater, ends_at, EndsLater-aborted, EndsLater-out_of_fuel, EndsLater-from, EndsLater-and_then,
  DispatchLater, run_program-EndsLater, and_then-returned,
}
use glu_core.Ipc.Ends.{ipc_dispatch_wrapper-EndsLater, ipc_dispatch_wrapper-ipc}
use glu_core.Dispatch.{no_export, invoke, call_wrapper, call_export, dispatch_with, dispatch}

module _ {P : Bytes → Bytes → Type 0} where
  no_export-EndsLater : (m : Bytes) (w : World) → EndsLater P w (no_export m w)
  unfolding no_export
  no_export-EndsLater m w = elim (Bool-cases (has_nul m)) [
    | inl e ↦ rw (e, no_export) EndsLater-aborted
    | inr e ↦ elim (Bool-cases (ltb 0 (glucore_get_module_export_count w.registry (some m)))) [
      | inl e' ↦ rw (e, e', no_export) (ends_at _ (Later-refl w))
      | inr e' ↦ rw (e, e', no_export) (ends_at _ (Later-refl w))
    ]
  ]

  module _ (invoke : GluWrapper → List GluValue → World → Run)
      (v : (wrapper : GluWrapper) (args : List GluValue) (w : World)
        → EndsLater P w (invoke wrapper args w)) where
    call_wrapper-EndsLater :
        (m : Bytes) (i : ℕ) (wrapper : GluWrapper) (args : List GluValue) (socket : Option ℕ)
        (w : World)
        → EndsLater P w (call_wrapper invoke m i wrapper args socket w)
    unfolding call_wrapper
    call_wrapper-EndsLater m i wrapper args none w = v wrapper args w
    call_wrapper-EndsLater m i wrapper args (some fd) w =
        EndsLater-and_then _ _ (EndsLater-from _ (Later-ctx _ w) (v wrapper args _))
          λ r w'. ends_at r (Later-ctx none w')

    call_export-EndsLater :
        (m : Bytes) (args : List GluValue) (w : World) (found : Option (ℕ × GluWrapper))
        → EndsLater P w (call_export invoke m args w found)
    unfolding call_export
    call_export-EndsLater m args w none = no_export-EndsLater m w
    call_export-EndsLater m args w (some (i, wrapper)) = call_wrapper-EndsLater m i wrapper args _ w

    dispatch_with-EndsLater :
        (m function : Bytes) (args : List GluValue) (w : World)
        → EndsLater P w (dispatch_with invoke m function args w)
    unfolding dispatch_with
    dispatch_with-EndsLater m function args w =
        elim (Option-cases (current_caller_bytes w.callers)) [
          | inl e ↦ rw (e, dispatch_with) (ends_at _ (Later-refl w))
          | inr (c, e) ↦ elim (Bool-cases (is_link_allowed_bytes w.links c m)) [
            | inl e' ↦
                rw (e, e', dispatch_with)
                  (call_export-EndsLater m args w (find_export w.registry m function))
            | inr e' ↦ rw (e, e', dispatch_with) (ends_at _ (Later-refl w))
          ]
        ]

  module _ (code : Code)
      (adds : (address : ℕ) (args : List GluValue) → AddsOnly P (code address args)) where
    invoke-EndsLater :
        (dispatch : Dispatch)
        → DispatchLater P dispatch
        → (wrapper : GluWrapper) (args : List GluValue) (w : World)
        → EndsLater P w (invoke code dispatch wrapper args w)
    unfolding invoke
    invoke-EndsLater dispatch d ipc_wrapper args w =
        ipc_dispatch_wrapper-EndsLater dispatch d args w
    invoke-EndsLater dispatch d (exported a) args w =
        run_program-EndsLater dispatch d (code a args) w (adds a args)

    pub dispatch-EndsLater : (depth : ℕ) → DispatchLater P (dispatch code depth)
    unfolding dispatch
    dispatch-EndsLater zero m function args w = EndsLater-out_of_fuel
    dispatch-EndsLater (suc depth) m function args w =
        dispatch_with-EndsLater (invoke code (dispatch code depth))
          (invoke-EndsLater (dispatch code depth) (dispatch-EndsLater depth)) m function args w

pub dispatch-Later : (code : Code) (depth : ℕ) → DispatchLater Anywhere (dispatch code depth)
dispatch-Later code =
    dispatch-EndsLater code (λ address args. AddsOnly-Anywhere (code address args))

-- A call that returns adds no link but those that compiled functions may add: where, whatever they are
-- answered, they add only links in `P`, each link that is allowed afterwards was allowed
-- before or is in `P`. No message of a process module adds one.
pub dispatch-AddsOnly :
    (P : Bytes → Bytes → Type 0) (code : Code) (depth : ℕ) (m function : Bytes)
    (args : List GluValue) (w w' : World) (r : GluResult) (caller callee : Bytes)
    → ((address : ℕ) (given : List GluValue) → AddsOnly P (code address given))
    → dispatch code depth m function args w ≡ returned r w'
    → is_link_allowed_bytes w'.links caller callee ≡ true
    → (is_link_allowed_bytes w.links caller callee ≡ true) ⊎ P caller callee
dispatch-AddsOnly P code depth m function args w w' r caller callee adds h =
    ((dispatch-EndsLater code adds depth m function args w).ends r w' h).added caller callee

-- A call from within a call over a socket leaves the IPC tables as they were.
pub dispatch_held :
    (code : Code) (depth : ℕ) (m function : Bytes) (args : List GluValue) (w w' : World)
    (r : GluResult)
    → 0 < w.readers
    → dispatch code depth m function args w ≡ returned r w'
    → w'.ipc ≡ w.ipc
dispatch_held code depth m function args w w' r held h =
    ((dispatch-Later code depth m function args w).ends r w' h).ipc held

call_wrapper-ipc :
    (code : Code) (depth : ℕ) (m : Bytes) (i : ℕ) (args : List GluValue) (socket : Option ℕ)
    (w w' : World) (r : GluResult)
    → call_wrapper (invoke code (dispatch code depth)) m i ipc_wrapper args socket w ≡ returned r w'
    → w'.ipc ≡ w.ipc
unfolding call_wrapper invoke
call_wrapper-ipc code depth m i args none w w' r h =
    ipc_dispatch_wrapper-ipc (dispatch code depth) args w w' r (dispatch-Later code depth) h
call_wrapper-ipc code depth m i args (some fd) w w' r h =
    let (r₁, w₁, run, end) = and_then-returned _ _ {res = r} {w = w'} h in
    let same : w'.ipc ≡ w₁.ipc = ground (arith, end) in
    same
    ∙ ipc_dispatch_wrapper-ipc (dispatch code depth) args _ w₁ r₁ (dispatch-Later code depth) run

-- A call of a function whose wrapper is that of process modules, if it returns, leaves the IPC tables as
-- they were, whatever compiled functions the process module called back meanwhile.
pub dispatch_process-ipc :
    (code : Code) (depth : ℕ) (m function : Bytes) (args : List GluValue) (w w' : World) (i : ℕ)
    (r : GluResult)
    → find_export w.registry m function ≡ some (i, ipc_wrapper)
    → dispatch code (suc depth) m function args w ≡ returned r w'
    → w'.ipc ≡ w.ipc
unfolding dispatch dispatch_with call_export
dispatch_process-ipc code depth m function args w w' i r found h =
    elim (Option-cases (current_caller_bytes w.callers)) [
      | inl e ↦ ground (arith, e, h)
      | inr (c, e) ↦ elim (Bool-cases (is_link_allowed_bytes w.links c m)) [
        | inl e' ↦
            call_wrapper-ipc code depth m i args _ w w' r
              (rw (e, e', found, dispatch, dispatch_with, call_export) at h)
        | inr e' ↦ ground (arith, e, e', h)
      ]
    ]
