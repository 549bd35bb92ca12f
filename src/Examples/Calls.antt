-- ===== src/Examples/Calls.antt =====
-- Calls through the core on a concrete world.
use glu_core.Prelude.{◌≡◌, ◌<◌, refl, true, false, [], ◌∷◌, codes, arith, to_le}
use glu_core.Prelude.Map.{lookup, insert, contains}
use glu_core.Types.{of_word, of_slice, link_denied, not_found}
use glu_core.Errors.{c_string, glu_err, glu_ok}
use glu_core.Memory.{to_vec}
use glu_core.Handles.{find_export, find_entry, glucore_register_module, index_entries}
use glu_core.Handles.Index.{register_all}
use glu_core.World.Routes.{Routes}
use glu_core.Router.{enter, drop_guard, current_caller_bytes, is_link_allowed_bytes}
use glu_core.World.{World, returned, has_ended}
use glu_core.Dispatch.{dispatch, call_as, dispatch_with, call_export, call_wrapper, invoke}
use glu_core.Program.{run_program}
use glu_core.Dispatch.Links.{may_call, denial_text, dispatch_denied}
use glu_core.Dispatch.NotFound.{Lacks, dispatch_unregistered}
use glu_core.Dispatch.Restores.{dispatch_restores_callers}
use glu_core.Dispatch.Terminates.{bytes_to_come, to_read, dispatch_terminates}
use glu_core.Examples.Data.{
  world, code, renderer, physics, script, step, draw, physics_module, modules, render_module,
}

stranger : may_call world (codes "audio") ≡ false
unfolding current_caller_bytes is_link_allowed_bytes lookup contains
stranger = refl

dispatch_denied_example :
    dispatch code 1 (codes "audio") step [] world
    ≡ returned (glu_err link_denied (denial_text world (codes "audio"))) world
dispatch_denied_example = dispatch_denied code 0 (codes "audio") step [] world stranger

may_call-physics : may_call world physics ≡ true
unfolding current_caller_bytes is_link_allowed_bytes lookup contains
may_call-physics = refl

no_draw : Lacks modules physics draw (codes "function not found in module")
no_draw =
    Lacks.no_function [] (render_module ∷ []) physics_module refl refl
      ((λ e. absurd (ground (arith, e))), tt) (omega arith) ((λ e. absurd (ground (arith, e))), tt)

dispatch_unregistered_example :
    dispatch code 1 physics draw [] world
    ≡ returned (glu_err not_found (codes "function not found in module")) world
dispatch_unregistered_example =
    dispatch_unregistered code 0 physics draw [] world modules
      (codes "function not found in module") refl may_call-physics refl no_draw

few_bytes : bytes_to_come world < 100
unfolding to_read to_le
few_bytes = omega arith

dispatch_terminates_example :
    has_ended (dispatch code 100 renderer draw (of_word 1 ∷ []) world) ≡ true
dispatch_terminates_example =
    dispatch_terminates code 100 renderer draw (of_word 1 ∷ []) world (λ address args s. tt)
      (λ fd lt. refl) few_bytes

abbrev after_step : World
after_step = record world { mem = (to_vec (9 ∷ []) world.mem).1 }

step_returns :
    dispatch code 1 physics step [] world
    ≡ returned (glu_ok (of_slice (record { ptr = 64; len = 1 }))) after_step
unfolding dispatch dispatch_with call_export call_wrapper invoke run_program current_caller_bytes
    is_link_allowed_bytes find_export find_entry register_all glucore_register_module lookup insert
    index_entries contains to_vec
step_returns = refl

dispatch_restores_callers_example : after_step.callers ≡ world.callers
dispatch_restores_callers_example =
    dispatch_restores_callers code 1 physics step [] world after_step _ (λ address args s. tt)
      step_returns

-- The same call in the name of the script, from a thread that has no caller.
abbrev idle : World
idle = record world { callers = [] }

abbrev after_call : World
after_call = record idle { mem = (to_vec (9 ∷ []) world.mem).1 }

call_returns :
    call_as code 1 script physics step [] idle
    ≡ returned (glu_ok (of_slice (record { ptr = 64; len = 1 }))) after_call
unfolding call_as enter drop_guard c_string dispatch dispatch_with call_export call_wrapper invoke
    run_program current_caller_bytes is_link_allowed_bytes find_export find_entry register_all
    glucore_register_module lookup insert index_entries contains to_vec
call_returns = refl
