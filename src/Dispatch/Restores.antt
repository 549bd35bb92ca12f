-- ===== src/Dispatch/Restores.antt =====
-- The stack of callers over a call.
use glu_core.Prelude.{
  ℕ, zero, suc, ◌≡◌, refl, Option, none, some, List, Bytes, has_nul, ltb, Bool-cases, Option-cases,
  inl, inr, bytes_eq, ap, ◌∙◌,
}
use mathlib.Core.Path.{subst}
use glu_core.Types.{GluValue, GluSlice, GluResult, GluWrapper, ipc_wrapper, exported}
use glu_core.Memory.{to_vec, from_raw_parts, glucore_free_buffer}
use glu_core.Handles.{find_export, glucore_get_module_export_count}
use glu_core.Router.{CallerStack, current_caller_bytes, is_link_allowed_bytes, enter, drop_guard}
use glu_core.Router.Callers.{drop_guard-enter}
use glu_core.World.{World, Run, returned}
use glu_core.Process.{Registered, ended, stuck, waiting, glucore_register_process_module}
use glu_core.Process.Failed.{register_process-callers}
use glu_core.Program.{
  Program, done, crash, wild, set_identity, ask, call, read, alloc, free, add_link, register,
  register_process, and_registered, Dispatch, Code, glucore_call, run_program, Answer, answer_to,
}
use glu_core.Ipc.Restores.{
  Restores, restored, Restores-aborted, Restores-undefined, Restores-blocked, Restores-out_of_fuel,
  Restores-and_then, DispatchRestores, ipc_dispatch_wrapper-Restores,
}
use glu_core.Dispatch.{
  no_export, invoke, call_wrapper, call_export, dispatch_with, dispatch, call_as,
}

-- The program does not set the thread's caller, whatever it is answered.
abbrev pub IsAnonymous : Program → Type 0
IsAnonymous (done r) = Unit
IsAnonymous crash = Unit
IsAnonymous wild = Unit
IsAnonymous (set_identity name p) = ⊥
IsAnonymous (ask q next) = (a : Answer q) → IsAnonymous (next a)
IsAnonymous (call m f args next) = (r : GluResult) → IsAnonymous (next r)
IsAnonymous (read s next) = (bytes : Bytes) → IsAnonymous (next bytes)
IsAnonymous (alloc bytes next) = (s : GluSlice) → IsAnonymous (next s)
IsAnonymous (free ptr len p) = IsAnonymous p
IsAnonymous (add_link a b p) = IsAnonymous p
IsAnonymous (register m p) = IsAnonymous p
IsAnonymous (register_process spawned os name path command next) = (c : ℕ) → IsAnonymous (next c)

module _ (dispatch : Dispatch) (d : DispatchRestores dispatch) (s : CallerStack) where
  glucore_call-Restores :
      (m function : Option Bytes) (args : List GluValue) (w : World)
      → w.callers ≡ s
      → Restores s (glucore_call dispatch m function args w)
  unfolding glucore_call
  glucore_call-Restores none function args w h = restored s _ w h
  glucore_call-Restores (some m) none args w h = restored s _ w h
  glucore_call-Restores (some m) (some function) args w h =
      subst (λ (t : CallerStack). Restores t (dispatch m function args w)) h (d m function args w)

  Restores-and_registered :
      (r : Registered) (k : ℕ → World → Run)
      → ((c : ℕ) (w' : World) → r ≡ ended c w' → Restores s (k c w'))
      → Restores s (and_registered r k)
  Restores-and_registered (ended c w') k hk = hk c w' refl
  Restores-and_registered Registered.aborted k hk = Restores-aborted s
  Restores-and_registered stuck k hk = Restores-blocked s
  Restores-and_registered waiting k hk = Restores-out_of_fuel s

  run_program-Restores :
      (p : Program) (w : World)
      → IsAnonymous p
      → w.callers ≡ s
      → Restores s (run_program dispatch p w)
  unfolding run_program
  run_program-Restores (done r) w q h = restored s r w h
  run_program-Restores crash w q h = Restores-aborted s
  run_program-Restores wild w q h = Restores-undefined s
  run_program-Restores (set_identity name p) w q h = absurd q
  run_program-Restores (ask q next) w p h =
      run_program-Restores (next (answer_to q w)) w (p (answer_to q w)) h
  run_program-Restores (call m function args next) w q h =
      Restores-and_then s s (glucore_call dispatch m function args w) _
        (glucore_call-Restores m function args w h)
        λ r w' h'. run_program-Restores (next r) w' (q r) h'
  run_program-Restores (read slice next) w q h = elim (Option-cases (from_raw_parts w.mem slice)) [
    | inl e ↦ rw (e, run_program) (Restores-undefined s)
    | inr (bytes, e) ↦ rw (e, run_program) (run_program-Restores (next bytes) w (q bytes) h)
  ]
  run_program-Restores (alloc bytes next) w q h =
      run_program-Restores (next (to_vec bytes w.mem).0) _ (q (to_vec bytes w.mem).0) h
  run_program-Restores (free ptr len p) w q h =
      elim (Option-cases (glucore_free_buffer ptr len w.mem)) [
        | inl e ↦ rw (e, run_program) (Restores-undefined s)
        | inr (mem, e) ↦ rw (e, run_program) (run_program-Restores p (record w { mem = mem }) q h)
      ]
  run_program-Restores (add_link caller callee p) w q h = run_program-Restores p _ q h
  run_program-Restores (register m p) w q h = run_program-Restores p _ q h
  run_program-Restores (register_process spawned os name path command next) w q h =
      Restores-and_registered (glucore_register_process_module spawned os name path command w) _
        λ c w' e.
          run_program-Restores (next c) w' (q c)
            (register_process-callers spawned os name path command c w w' e ∙ h)

no_export-Restores : (m : Bytes) (w : World) → Restores w.callers (no_export m w)
unfolding no_export
no_export-Restores m w = elim (Bool-cases (has_nul m)) [
  | inl e ↦ rw (e, no_export) (Restores-aborted _)
  | inr e ↦ elim (Bool-cases (ltb 0 (glucore_get_module_export_count w.registry (some m)))) [
    | inl e' ↦ rw (e, e', no_export) (restored _ _ w refl)
    | inr e' ↦ rw (e, e', no_export) (restored _ _ w refl)
  ]
]

module _ (invoke : GluWrapper → List GluValue → World → Run)
    (v : (wrapper : GluWrapper) (args : List GluValue) (w : World)
      → Restores w.callers (invoke wrapper args w)) where
  call_wrapper-Restores :
      (m : Bytes) (i : ℕ) (wrapper : GluWrapper) (args : List GluValue) (socket : Option ℕ)
      (w : World)
      → Restores w.callers (call_wrapper invoke m i wrapper args socket w)
  unfolding call_wrapper
  call_wrapper-Restores m i wrapper args none w = v wrapper args w
  call_wrapper-Restores m i wrapper args (some fd) w =
      Restores-and_then w.callers w.callers _ _ (v wrapper args _) (λ r w' h. restored _ r _ h)

  dispatch_with-Restores :
      (m function : Bytes) (args : List GluValue) (w : World)
      → Restores w.callers (dispatch_with invoke m function args w)
  unfolding dispatch_with call_export
  dispatch_with-Restores m function args w = elim (Option-cases (current_caller_bytes w.callers)) [
    | inl e ↦ rw (e, dispatch_with) (restored _ _ w refl)
    | inr (c, e) ↦ elim (Bool-cases (is_link_allowed_bytes w.links c m)) [
      | inl e' ↦ elim (Option-cases (find_export w.registry m function)) [
        | inl f ↦ rw (e, e', f, dispatch_with, call_export) (no_export-Restores m w)
        | inr ((i, wrapper), f) ↦
            rw (e, e', f, dispatch_with, call_export) (call_wrapper-Restores m i wrapper args _ w)
      ]
      | inr e' ↦ rw (e, e', dispatch_with) (restored _ _ w refl)
    ]
  ]

module _ (code : Code)
    (q : (address : ℕ) (args : List GluValue) → IsAnonymous (code address args)) where
  invoke-Restores :
      (dispatch : Dispatch)
      → DispatchRestores dispatch
      → (wrapper : GluWrapper) (args : List GluValue) (w : World)
      → Restores w.callers (invoke code dispatch wrapper args w)
  unfolding invoke
  invoke-Restores dispatch d ipc_wrapper args w =
      ipc_dispatch_wrapper-Restores dispatch d w.callers args w refl
  invoke-Restores dispatch d (exported a) args w =
      run_program-Restores dispatch d w.callers (code a args) w (q a args) refl

  dispatch-Restores : (depth : ℕ) → DispatchRestores (dispatch code depth)
  unfolding dispatch
  dispatch-Restores zero m function args w = Restores-out_of_fuel _
  dispatch-Restores (suc depth) m function args w =
      dispatch_with-Restores (invoke code (dispatch code depth))
        (invoke-Restores (dispatch code depth) (dispatch-Restores depth)) m function args w

-- Where no compiled function sets the thread's caller itself, a call that returns leaves the stack of
-- callers as it was, however many callbacks the process modules made as java_renderer.
pub dispatch_restores_callers :
    (code : Code) (depth : ℕ) (m function : Bytes) (args : List GluValue) (w w' : World)
    (r : GluResult)
    → ((address : ℕ) (args : List GluValue) → IsAnonymous (code address args))
    → dispatch code depth m function args w ≡ returned r w'
    → w'.callers ≡ w.callers
dispatch_restores_callers code depth m function args w w' r q h =
    (dispatch-Restores code q depth m function args w).ends r w' h

-- Where no compiled function sets the thread's caller itself, a call under another name by `call_as`
-- that returns leaves the stack of callers as it was.
pub call_as_restores_callers :
    (code : Code) (depth : ℕ) (caller m function : Bytes) (args : List GluValue) (w w' : World)
    (r : GluResult)
    → ((address : ℕ) (args : List GluValue) → IsAnonymous (code address args))
    → call_as code depth caller m function args w ≡ returned r w'
    → w'.callers ≡ w.callers
unfolding call_as
call_as_restores_callers code depth caller m function args w w' r q h =
    let entered = enter caller w.callers in
    (Restores-and_then w.callers entered.1 _ _
        (dispatch-Restores code q depth m function args (record w { callers = entered.1 }))
        (λ res w₁ e.
          restored w.callers res _
            (ap (drop_guard entered.0) e ∙ drop_guard-enter caller w.callers))).ends
      r w' h
