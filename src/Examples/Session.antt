-- ===== src/Examples/Session.antt =====
-- A session: the renderer is registered over a socket, and compiled code then registers physics and
-- adds a link.
use glu_core.Prelude.{ℕ, ◌+◌, ◌≡◌, ◌⊎◌, Bytes, refl, true, bytes_eq, some, [], ◌∷◌, codes, to_le}
use glu_core.Prelude.Map.{lookup, insert, contains, add}
use glu_core.Types.{float, int, buffer, of_word, tag_byte}
use glu_core.Errors.{glu_ok}
use glu_core.Memory.{IsSound}
use glu_core.Utf8.{is_utf8, valid_from, first_byte, utf8_step}
use glu_core.Fctp.Encode.{
  encode_call, encode_args, encode_arg, call_header, frame, write_len_str, write_len_bytes,
}
use glu_core.Handles.{find_entry, glucore_register_module, index_entries}
use glu_core.Handles.Index.{IsIndexed}
use glu_core.Router.{current_caller_bytes, is_link_allowed_bytes, glucore_add_link}
use glu_core.World.{World, returned}
use glu_core.World.Sockets.{read_exact}
use glu_core.World.Routes.{base_or_zero, IsRouted}
use glu_core.Program.{
  Program, done, add_link, register_process, register, CompiledModule, compiled, run_program,
}
use glu_core.Process.{entry_of, install}
use glu_core.Ipc.{caller_text}
use glu_core.Dispatch.{dispatch}
use glu_core.Dispatch.Links.{may_call}
use glu_core.Process.Routed.{over_socket}
use glu_core.Session.{IsFresh, Reach, here, then, ran}
use glu_core.Session.Links.{reached-RunsOnly}
use glu_core.Session.Reaches.{reached-IsConsistent, reached-dispatch}
use glu_core.Examples.Data.{renderer, draw, draws, physics, step, code, memory-IsSound}
use glu_core.Examples.Connect.{third_attempt}
use glu_core.Examples.Process.{bare, registers, call_message}
use glu_core.Examples.Process

abbrev with_renderer : World
with_renderer = Process.registered

abbrev compiled_physics : CompiledModule
compiled_physics = record {
  name = physics;
  exports =
      record {
        name = step;
        address = 5;
        signature = record { params = float ∷ []; return_type = buffer };
      }
      ∷ [];
}

abbrev main : Program
main =
    register compiled_physics (add_link (some physics) (some renderer) (done (glu_ok (of_word 0))))

abbrev with_physics : World
with_physics = record with_renderer {
  registry = glucore_register_module (compiled compiled_physics) with_renderer.registry;
  links = glucore_add_link (some physics) (some renderer) with_renderer.links;
}

runs : run_program (dispatch code 1) main with_renderer ≡ returned (glu_ok (of_word 0)) with_physics
unfolding run_program
runs = refl

bare-IsFresh : IsFresh bare
bare-IsFresh = record { registry = refl; ipc = refl; sound = memory-IsSound }

abbrev start_renderer : Program
start_renderer =
    register_process true third_attempt (some renderer) (some (codes "/tmp/r")) (some (codes "run"))
      (λ c. done (glu_ok (of_word c)))

starts :
    run_program (dispatch code 1) start_renderer bare ≡ returned (glu_ok (of_word 0)) with_renderer
unfolding run_program
starts = rw registers

abbrev session : Reach code bare with_physics
session =
    then (then here (ran 1 start_renderer (glu_ok (of_word 0)) starts))
      (ran 1 main (glu_ok (of_word 0)) runs)

reached-IsConsistent_example :
    IsIndexed with_physics.registry × IsSound with_physics.mem × IsRouted with_physics
reached-IsConsistent_example = reached-IsConsistent code bare with_physics bare-IsFresh session

may_call-renderer : may_call with_physics renderer ≡ true
unfolding current_caller_bytes is_link_allowed_bytes lookup contains install glucore_add_link insert
    read_exact
may_call-renderer = refl

its_entry : find_entry with_physics.registry renderer draw ≡ some (0, entry_of draws)
unfolding find_entry glucore_register_module index_entries lookup insert install read_exact
its_entry = refl

encoded :
    encode_call with_physics.mem renderer draw
      (caller_text (current_caller_bytes with_physics.callers))
      (of_word 7 ∷ [])
      (int ∷ [])
    ≡ some call_message
unfolding encode_call encode_args encode_arg call_header frame write_len_str write_len_bytes
    caller_text current_caller_bytes is_utf8 valid_from first_byte utf8_step install tag_byte
    read_exact to_le
encoded = refl

reached-dispatch_example :
    (fd : ℕ) × (lookup renderer with_physics.ipc.module_sockets ≡ some fd)
    × (dispatch code 1 renderer draw (of_word 7 ∷ []) with_physics
        ≡ over_socket code 0 fd call_message
            (base_or_zero (lookup renderer with_physics.ipc.module_base_idx) + 0)
            with_physics)
reached-dispatch_example =
    reached-dispatch code 0 renderer draw (of_word 7 ∷ []) bare with_physics 0 (entry_of draws)
      call_message bare-IsFresh session may_call-renderer its_entry refl encoded

abbrev ToRenderer : Bytes → Bytes → Type 0
ToRenderer caller callee = (caller ≡ physics) × (callee ≡ renderer)

physics_linked : is_link_allowed_bytes with_physics.links physics renderer ≡ true
unfolding is_link_allowed_bytes lookup insert contains glucore_add_link add install read_exact
physics_linked = refl

reached-RunsOnly_example :
    (is_link_allowed_bytes bare.links physics renderer ≡ true) ⊎ ToRenderer physics renderer
reached-RunsOnly_example =
    reached-RunsOnly ToRenderer code physics renderer session (λ address given s. tt)
      ((tt, λ c. tt), ((refl, refl), tt)) physics_linked
