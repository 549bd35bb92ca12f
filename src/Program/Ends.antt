-- ===== src/Program/Ends.antt =====
-- Runs whose world, where they return, is later than the one they began in.
use mathlib.Core.Path.{subst}
use glu_core.Prelude.{
  ℕ, zero, suc, [], ◌∷◌, map, get_elem?, ◌≡◌, refl, Option, none, some, List, Bytes, arith,
  Option-cases, inl, inr, bytes_eq,
}
use glu_core.Types.{GluValue, GluResult, GluExportEntry, ipc_wrapper}
use glu_core.Memory.{to_vec, from_raw_parts, glucore_free_buffer}
use glu_core.Memory.Alloc.{to_vec-IsSound, glucore_free_buffer-IsSound}
use glu_core.Handles.{glucore_register_module}
use glu_core.Handles.Index.{glucore_register_module-IsIndexed}
use glu_core.Router.{glucore_add_link, glucore_set_caller_identity}
use glu_core.World.{World, Run, returned, aborted, undefined, blocked, out_of_fuel}
use glu_core.World.Routes.{glucore_register_module-Routes}
use glu_core.World.Later.{Later, Later-refl, Later-trans, Later-callers, Later-mem}
use native.Mathlib.Nat.{le_refl}
use glu_core.Process.{Registered, ended, stuck, waiting, glucore_register_process_module}
use glu_core.Process.Keeps.{ReturnsLater, register_process-ReturnsLater}
use glu_core.Program.Adds.{AddsOnly, add_link-grows, add_link-MayAdd}
use glu_core.Program.{
  Program, done, crash, wild, set_identity, ask, call, read, alloc, free, add_link, register,
  register_process, and_registered, CompiledExport, compiled_entry, compiled, Dispatch,
  glucore_call, and_then, run_program, answer_to,
}

-- Where a run returns, it returns later than `w`.
pub record EndsLater (P : Bytes → Bytes → Type 0) (w : World) (r : Run) : Type 0 where
  pub ends : (res : GluResult) (w' : World) → r ≡ returned res w' → Later P w w'

-- A dispatch that ends later, from any world.
abbrev pub DispatchLater : (Bytes → Bytes → Type 0) → Dispatch → Type 0
DispatchLater P dispatch =
    (m function : Bytes) (args : List GluValue) (w : World)
    → EndsLater P w (dispatch m function args w)

compiled-IsCompiled :
    (exports : List CompiledExport) (i : ℕ) (e : GluExportEntry)
    → get_elem? (map compiled_entry exports) i ≡ some e
    → ¬ (e.wrapper ≡ ipc_wrapper)
compiled-IsCompiled [] i e h w = absurd (cc)
compiled-IsCompiled (x ∷ exports) zero e h w = absurd (ground (arith, h, w))
compiled-IsCompiled (x ∷ exports) (suc i) e h w = compiled-IsCompiled exports i e h w

pub and_then-returned :
    (r : Run) (k : GluResult → World → Run) {res : GluResult} {w : World}
    → and_then r k ≡ returned res w
    → (res' : GluResult) × (w' : World) × (r ≡ returned res' w') × (k res' w' ≡ returned res w)
and_then-returned (returned res' w') k h = (res', w', refl, h)
and_then-returned aborted k h = absurd (cc)
and_then-returned undefined k h = absurd (cc)
and_then-returned blocked k h = absurd (cc)
and_then-returned out_of_fuel k h = absurd (cc)

module _ {P : Bytes → Bytes → Type 0} where
  pub ends_at : {w w' : World} (res : GluResult) → Later P w w' → EndsLater P w (returned res w')
  ends_at {w} {w'} res l = record {
    ends = λ res' w'' e. let same : w' ≡ w'' = ground (arith, e) in subst (Later P w) same l;
  }

  pub EndsLater-aborted : {w : World} → EndsLater P w aborted
  EndsLater-aborted = record { ends = λ res w' e. absurd (cc) }

  pub EndsLater-undefined : {w : World} → EndsLater P w undefined
  EndsLater-undefined = record { ends = λ res w' e. absurd (cc) }

  pub EndsLater-blocked : {w : World} → EndsLater P w blocked
  EndsLater-blocked = record { ends = λ res w' e. absurd (cc) }

  pub EndsLater-out_of_fuel : {w : World} → EndsLater P w out_of_fuel
  EndsLater-out_of_fuel = record { ends = λ res w' e. absurd (cc) }

  pub EndsLater-from : {w w' : World} (r : Run) → Later P w w' → EndsLater P w' r → EndsLater P w r
  EndsLater-from r l h = record { ends = λ res w'' e. Later-trans l (h.ends res w'' e) }

  pub EndsLater-and_then :
      {w : World} (r : Run) (k : GluResult → World → Run)
      → EndsLater P w r
      → ((res : GluResult) (w' : World) → EndsLater P w' (k res w'))
      → EndsLater P w (and_then r k)
  EndsLater-and_then (returned res w') k h hk =
      EndsLater-from (k res w') (h.ends res w' refl) (hk res w')
  EndsLater-and_then aborted k h hk = EndsLater-aborted
  EndsLater-and_then undefined k h hk = EndsLater-undefined
  EndsLater-and_then blocked k h hk = EndsLater-blocked
  EndsLater-and_then out_of_fuel k h hk = EndsLater-out_of_fuel

  EndsLater-and_registered :
      {w : World} (r : Registered) (k : ℕ → World → Run)
      → ReturnsLater P w r
      → ((c : ℕ) (w' : World) → EndsLater P w' (k c w'))
      → EndsLater P w (and_registered r k)
  EndsLater-and_registered (ended c w') k h hk =
      EndsLater-from (k c w') (h.ends c w' refl) (hk c w')
  EndsLater-and_registered Registered.aborted k h hk = EndsLater-aborted
  EndsLater-and_registered stuck k h hk = EndsLater-blocked
  EndsLater-and_registered waiting k h hk = EndsLater-out_of_fuel

  glucore_call-EndsLater :
      (dispatch : Dispatch)
      → DispatchLater P dispatch
      → (m function : Option Bytes) (args : List GluValue) (w : World)
      → EndsLater P w (glucore_call dispatch m function args w)
  unfolding glucore_call
  glucore_call-EndsLater dispatch d none function args w = ends_at _ (Later-refl w)
  glucore_call-EndsLater dispatch d (some m) none args w = ends_at _ (Later-refl w)
  glucore_call-EndsLater dispatch d (some m) (some function) args w = d m function args w

  pub run_program-EndsLater :
      (dispatch : Dispatch)
      → DispatchLater P dispatch
      → (p : Program) (w : World) → AddsOnly P p
      → EndsLater P w (run_program dispatch p w)
  unfolding run_program
  run_program-EndsLater dispatch d (done r) w q = ends_at r (Later-refl w)
  run_program-EndsLater dispatch d crash w q = EndsLater-aborted
  run_program-EndsLater dispatch d wild w q = EndsLater-undefined
  run_program-EndsLater dispatch d (set_identity name p) w q =
      EndsLater-from _ (Later-callers _ w) (
        run_program-EndsLater dispatch d p
          (record w { callers = glucore_set_caller_identity name w.callers }) q)
  run_program-EndsLater dispatch d (ask question next) w q =
      run_program-EndsLater dispatch d (next (answer_to question w)) w (q (answer_to question w))
  run_program-EndsLater dispatch d (call m function args next) w q =
      EndsLater-and_then (glucore_call dispatch m function args w) _
        (glucore_call-EndsLater dispatch d m function args w)
        λ r w'. run_program-EndsLater dispatch d (next r) w' (q r)
  run_program-EndsLater dispatch d (read s next) w q =
      elim (Option-cases (from_raw_parts w.mem s)) [
        | inl e ↦ rw (e, run_program) EndsLater-undefined
        | inr (bytes, e) ↦
            rw (e, run_program) (run_program-EndsLater dispatch d (next bytes) w (q bytes))
      ]
  run_program-EndsLater dispatch d (alloc bytes next) w q =
      EndsLater-from _ (Later-mem _ w (to_vec-IsSound bytes w.mem)) (
        run_program-EndsLater dispatch d (next (to_vec bytes w.mem).0)
          (record w { mem = (to_vec bytes w.mem).1 }) (q (to_vec bytes w.mem).0))
  run_program-EndsLater dispatch d (free ptr len p) w q =
      elim (Option-cases (glucore_free_buffer ptr len w.mem)) [
        | inl e ↦ rw (e, run_program) EndsLater-undefined
        | inr (mem, e) ↦
            rw (e, run_program)
              (EndsLater-from _
                (Later-mem mem w (λ s. glucore_free_buffer-IsSound ptr len w.mem s e))
                (run_program-EndsLater dispatch d p (record w { mem = mem }) q))
      ]
  run_program-EndsLater dispatch d (add_link caller callee p) w q =
      EndsLater-from _
        (record {
          inbox = λ fd. le_refl _;
          links = λ a b h. add_link-grows caller callee w a b h;
          added = λ a b h. add_link-MayAdd P caller callee w a b q.0 h;
          exports = λ i x h. h;
          ipc = λ h. refl;
          readers = refl;
          limit = refl;
          peers = refl;
          sound = λ s. s;
          indexed = λ i. i;
          routed = λ ix r. r;
        })
        (run_program-EndsLater dispatch d p
          (record w { links = glucore_add_link caller callee w.links }) q.1)
  run_program-EndsLater dispatch d (register m p) w q =
      EndsLater-from _
        (record {
          inbox = λ fd. le_refl _;
          links = λ a b h. h;
          added = λ a b h. inl h;
          exports = λ i x h. h;
          ipc = λ h. refl;
          readers = refl;
          limit = refl;
          peers = refl;
          sound = λ s. s;
          indexed = λ i. glucore_register_module-IsIndexed (compiled m) w.registry i;
          routed = λ ix r.
              glucore_register_module-Routes (compiled m) w.registry w.ipc ix
                (compiled-IsCompiled m.exports) r;
        })
        (run_program-EndsLater dispatch d p
          (record w { registry = glucore_register_module (compiled m) w.registry }) q)
  run_program-EndsLater dispatch d (register_process spawned os name path command next) w q =
      EndsLater-and_registered (glucore_register_process_module spawned os name path command w) _
        (register_process-ReturnsLater spawned os name path command w)
        λ c w'. run_program-EndsLater dispatch d (next c) w' (q c)
