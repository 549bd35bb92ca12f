-- ===== src/Examples/Data.antt =====
-- A renderer in a process of its own, a physics module in this one, and a script that uses both.
use glu_core.Prelude.{false, none, List, [], ◌∷◌, ◌++◌, Bytes, codes, to_le, arith}
use glu_core.Prelude.Map.{lookup}
use glu_core.Types.{
  GluTypeTag, GluSignature, GluValue, GluSlice, GluModule, float, int, string, buffer, void,
  of_word, of_slice, exported, ipc_wrapper,
}
use glu_core.Errors.{glu_ok}
use glu_core.Memory.{Memory, IsSound}
use glu_core.Fctp.{msg_result}
use glu_core.Program.{Code, done, alloc}
use glu_core.Router.{LinkGraph}
use glu_core.Handles.{RegistryState, empty_registry}
use glu_core.Handles.Index.{register_all, register_all-IsIndexed, IsIndexed, IsIndexed-empty}
use glu_core.World.{World, IpcState}

-- The text "hi" stands at address 16.
abbrev pub memory : Memory
memory = record { next = 64; blocks = (16, 104 ∷ 105 ∷ []) ∷ [] }

pub memory-IsSound : IsSound memory
unfolding lookup
memory-IsSound = record { next_positive = omega arith; unused = λ p h. ground arith }

abbrev pub hi : GluSlice
hi = record { ptr = 16; len = 2 }

abbrev pub two_args : List GluValue
two_args = of_word 7 ∷ of_slice hi ∷ []

abbrev pub two_tags : List GluTypeTag
two_tags = int ∷ string ∷ []

abbrev pub renderer : Bytes
renderer = codes "render"

abbrev pub physics : Bytes
physics = codes "physics"

abbrev pub script : Bytes
script = codes "script"

abbrev pub step : Bytes
step = codes "step"

abbrev pub draw : Bytes
draw = codes "draw"

abbrev pub physics_module : GluModule
physics_module = record {
  name = physics;
  entries =
      record {
        name = step;
        wrapper = exported 5;
        signature = record { params = float ∷ []; return_type = buffer };
      }
      ∷ [];
}

abbrev pub render_module : GluModule
render_module = record {
  name = renderer;
  entries =
      record {
        name = draw;
        wrapper = ipc_wrapper;
        signature = record { params = int ∷ []; return_type = void };
      }
      ∷ [];
}

abbrev pub modules : List GluModule
modules = physics_module ∷ render_module ∷ []

abbrev pub registry : RegistryState
registry = register_all modules empty_registry

abbrev pub one_module : RegistryState
one_module = register_all (physics_module ∷ []) empty_registry

pub registry-IsIndexed : IsIndexed registry
registry-IsIndexed = register_all-IsIndexed modules empty_registry IsIndexed-empty

abbrev pub links : LinkGraph
links = (script, physics ∷ renderer ∷ []) ∷ []

-- A physics step answers with a new buffer of one byte.
abbrev pub code : Code
code address args = alloc (9 ∷ []) (λ s. done (glu_ok (of_slice s)))

-- The renderer's answer: a RESULT of status 0 with the integer 3.
abbrev pub reply : Bytes
reply = to_le 4 15 ++ (msg_result ∷ (to_le 4 10 ++ (0 ∷ 0 ∷ to_le 8 3)))

abbrev pub draws : Bytes × GluSignature
draws = (draw, record { params = int ∷ []; return_type = void })

abbrev pub ipc : IpcState
ipc = record {
  exports =
      record {
        sock_fd = 3;
        module_name = renderer;
        function_name = draw;
        sig = record { params = int ∷ []; return_type = void };
      }
      ∷ [];
  module_sockets = (renderer, 3) ∷ [];
  module_base_idx = (renderer, 0) ∷ [];
}

abbrev pub world : World
world = record {
  registry = registry;
  links = links;
  callers = script ∷ [];
  ipc = ipc;
  readers = 0;
  ctx = none;
  mem = memory;
  fd_limit = 4;
  socket = λ fd. record { inbox = reply; outbox = []; room = 1000 };
  stays_open = λ fd. false;
}
