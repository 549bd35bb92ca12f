-- ===== src/Examples/Shared.antt =====
-- A call of the renderer while another thread registers modules.
use glu_core.Prelude.{◌+◌, ◌≡◌, refl, some, none, [], ◌∷◌, Bytes, codes, bytes_eq, get_elem?}
use glu_core.Prelude.Map.{lookup, insert}
use glu_core.Types.{GluSignature, void}
use glu_core.Handles.{find_entry, glucore_register_module, index_entries}
use glu_core.Handles.Index.{IsIndexed, IsIndexed-empty, glucore_register_module-IsIndexed}
use glu_core.World.Routes.{base_or_zero, meta_of}
use glu_core.Process.{entry_of, install}
use glu_core.Shared.{Shared, begins, finishes, registers, begun, finished, act, acts}
use glu_core.Shared.Consistent.{readings_agree}
use glu_core.Examples.Data.{renderer, draw, draws, physics_module}
use glu_core.Examples.Process.{served, served-IsRouted, its_socket, bare}

abbrev audio : Bytes
audio = codes "audio"

abbrev play : Bytes × GluSignature
play = (codes "play", record { params = []; return_type = void })

served-IsIndexed : IsIndexed served.registry
unfolding install
served-IsIndexed =
    glucore_register_module-IsIndexed (record { name = renderer; entries = entry_of draws ∷ [] })
      bare.registry IsIndexed-empty

abbrev audio_begun : Shared
audio_begun = record {
  tables = begun 5 audio (play ∷ []) served;
  pending = some (record { sock_fd = 5; module_name = audio; base_idx = 1 });
}

abbrev audio_there : Shared
audio_there = record {
  tables = finished (record { sock_fd = 5; module_name = audio; base_idx = 1 }) audio_begun.tables;
  pending = none;
}

abbrev physics_there : Shared
physics_there = record audio_there {
  tables = record (audio_there.tables) {
    registry = glucore_register_module physics_module audio_there.tables.registry;
  };
}

runs₁ :
    acts (begins 5 audio (play ∷ []) ∷ []) (record { tables = served; pending = none })
    ≡ some audio_begun
unfolding acts act install
runs₁ = refl

runs₂ : acts (finishes ∷ []) audio_begun ≡ some audio_there
unfolding acts act
runs₂ = refl

runs₃ : acts (registers physics_module ∷ []) audio_there ≡ some physics_there
unfolding acts act
runs₃ = refl

entry_in_between : find_entry audio_begun.tables.registry renderer draw ≡ some (0, entry_of draws)
unfolding find_entry glucore_register_module index_entries lookup insert install begun
entry_in_between = refl

readings_agree_example :
    get_elem? physics_there.tables.ipc.exports
      (base_or_zero (lookup renderer audio_there.tables.ipc.module_base_idx) + 0)
    ≡ some (meta_of 3 renderer (draw, (entry_of draws).signature))
readings_agree_example =
    readings_agree renderer draw served (begins 5 audio (play ∷ []) ∷ []) (finishes ∷ [])
      (registers physics_module ∷ []) audio_begun audio_there physics_there 3 0 (entry_of draws)
      served-IsIndexed served-IsRouted runs₁ runs₂ runs₃ (refl, tt) (tt, tt) its_socket
      entry_in_between refl

-- Where the renderer itself is registered again in between, over another socket, the socket that was
-- read is the old one, and the export that the wrapper finds is of the new one.
abbrev renderer_again : Shared
renderer_again = record { tables = install 6 renderer (draws ∷ []) served; pending = none }

runs_again :
    acts
      (begins 6 renderer (draws ∷ []) ∷ finishes ∷ [])
      (record { tables = served; pending = none })
    ≡ some renderer_again
unfolding acts act install begun finished
runs_again = refl

other_socket :
    get_elem? renderer_again.tables.ipc.exports
      (base_or_zero (lookup renderer renderer_again.tables.ipc.module_base_idx) + 0)
    ≡ some (meta_of 6 renderer draws)
unfolding install lookup insert
other_socket = refl
