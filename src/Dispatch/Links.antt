-- ===== src/Dispatch/Links.antt =====
-- Link enforcement: what `dispatch` answers before it runs anything.
use glu_core.Prelude.{
  ℕ, suc, ◌≡◌, refl, Bool, true, false, Option, none, some, List, Bytes, codes, has_nul, arith,
  Bool-cases, Option-cases, inl, inr, bytes_eq, ◌⊎◌, ltb,
}
use glu_core.Types.{GluValue, link_denied, not_found}
use glu_core.Errors.{glu_err}
use glu_core.Handles.{find_export, glucore_get_module_export_count}
use glu_core.Router.{current_caller_bytes, is_link_allowed_bytes}
use glu_core.World.{World, returned}
use glu_core.Program.{Code}
use glu_core.Dispatch.{no_identity, denied_text, no_export, dispatch_with, dispatch, call_export}

-- The caller may call `m`: there is a caller, and the pair is a link.
abbrev allowed_for : Option Bytes → World → Bytes → Bool
allowed_for none w m = false
allowed_for (some caller) w m = is_link_allowed_bytes w.links caller m

abbrev pub may_call : World → Bytes → Bool
may_call w m = allowed_for (current_caller_bytes w.callers) w m

abbrev denial : Option Bytes → Bytes → Bytes
denial none m = no_identity
denial (some caller) m = denied_text caller m

abbrev pub denial_text : World → Bytes → Bytes
denial_text w m = denial (current_caller_bytes w.callers) m

-- A call that the links do not allow is answered by `LinkDenied`, with the reason, and leaves the
-- world as it was: no module runs, whatever its code, and no byte is written to a socket or read
-- from one.
pub dispatch_denied :
    (code : Code) (depth : ℕ) (m function : Bytes) (args : List GluValue) (w : World)
    → may_call w m ≡ false
    → dispatch code (suc depth) m function args w
      ≡ returned (glu_err link_denied (denial_text w m)) w
unfolding dispatch dispatch_with
dispatch_denied code depth m function args w h =
    elim (Option-cases (current_caller_bytes w.callers)) [
      | inl e ↦ rw (e, dispatch_with)
      | inr (c, e) ↦
          let no_link : is_link_allowed_bytes w.links c m ≡ false = rw e at h in
          rw (e, no_link, dispatch_with)
    ]

-- An allowed call, of a module name without a zero byte, of a function that no registered module of
-- that name exports is answered by
-- `NotFound`, which tells a module with exports from one without; the world stays as it was.
pub dispatch_not_found :
    (code : Code) (depth : ℕ) (m function : Bytes) (args : List GluValue) (w : World)
    → may_call w m ≡ true
    → has_nul m ≡ false
    → find_export w.registry m function ≡ none
    → (text : Bytes) × (dispatch code (suc depth) m function args w
        ≡ returned (glu_err not_found text) w)
      × (((text ≡ codes "function not found in module")
            × (ltb 0 (glucore_get_module_export_count w.registry (some m)) ≡ true))
          ⊎ ((text ≡ codes "module not found")
              × (glucore_get_module_export_count w.registry (some m) ≡ 0)))
unfolding dispatch dispatch_with no_export call_export
dispatch_not_found code depth m function args w h n none_found =
    elim (Option-cases (current_caller_bytes w.callers)) [
      | inl e ↦ absurd (ground (arith, e, h))
      | inr (c, e) ↦
          let link : is_link_allowed_bytes w.links c m ≡ true = rw e at h in
          elim (Bool-cases (ltb 0 (glucore_get_module_export_count w.registry (some m)))) [
            | inl some_exports ↦ (
              codes "function not found in module",
              rw (e, link, none_found, n, some_exports, dispatch_with, call_export, no_export),
              inl (refl, some_exports),
            )
            | inr no_exports ↦ (
              codes "module not found",
              rw (e, link, none_found, n, no_exports, dispatch_with, call_export, no_export),
              inr (refl, ground (arith, no_exports)),
            )
          ]
    ]
