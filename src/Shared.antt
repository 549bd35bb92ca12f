-- ===== src/Shared.antt =====
-- The tables that threads share, between the locks: a registration of a process module
-- (core/src/runtime.rs) holds the IPC tables' write lock while it registers the module
-- (core/src/handles.rs), and `dispatch` (core/src/router.rs) takes one lock after the other. What
-- other threads do is a sequence of actions; those that wait for the lock are in it when they have it.
pub mod Avoiding
pub mod Consistent
use glu_core.Prelude.{ℕ, Option, none, some, List, [], ◌∷◌, ◌++◌, map, Bytes, length, bytes_eq}
use glu_core.Prelude.Map.{insert}
use glu_core.Types.{GluSignature, GluModule}
use glu_core.Handles.{glucore_register_module}
use glu_core.World.{World}
use glu_core.World.Routes.{meta_of}
use glu_core.Process.{entry_of}

-- The registration that holds the write lock, once the registry has its module.
pub record Pending : Type 0 where
  pub sock_fd : ℕ
  pub module_name : Bytes
  pub base_idx : ℕ

pub record Shared : Type 0 where
  pub tables : World
  pub pending : Option Pending

pub data Action : Type 0 where
  -- `glucore_register_module`
  registers : GluModule → Action
  -- `glucore_register_process_module`, from taking the lock to the call of `glucore_register_module`
  begins : ℕ → Bytes → List (Bytes × GluSignature) → Action
  -- and from there to the release of the lock
  finishes : Action

-- The exports are pushed and the module is registered, but its socket is not there yet.
unfoldable pub begun : ℕ → Bytes → List (Bytes × GluSignature) → World → World
begun sock_fd module_name exports w = record w {
  registry =
      glucore_register_module (record { name = module_name; entries = map entry_of exports })
        w.registry;
  ipc = record (w.ipc) { exports = w.ipc.exports ++ map (meta_of sock_fd module_name) exports };
}

unfoldable pub finished : Pending → World → World
finished p w = record w {
  ipc = record (w.ipc) {
    module_sockets = insert p.module_name p.sock_fd w.ipc.module_sockets;
    module_base_idx = insert p.module_name p.base_idx w.ipc.module_base_idx;
  };
}

abbrev begin_at : ℕ → Bytes → List (Bytes × GluSignature) → Option Pending → World → Option Shared
begin_at sock_fd module_name exports (some p) w = none
begin_at sock_fd module_name exports none w = some (record {
  tables = begun sock_fd module_name exports w;
  pending =
      some
        (record { sock_fd = sock_fd; module_name = module_name; base_idx = length w.ipc.exports });
})

abbrev finish_at : Option Pending → World → Option Shared
finish_at none w = none
finish_at (some p) w = some (record { tables = finished p w; pending = none })

-- `none` where the action cannot be next.
unfoldable pub act : Action → Shared → Option Shared
act (registers md) s = some (record {
  tables = record (s.tables) { registry = glucore_register_module md s.tables.registry };
  pending = s.pending;
})
act (begins sock_fd module_name exports) s = begin_at sock_fd module_name exports s.pending s.tables
act finishes s = finish_at s.pending s.tables

unfoldable pub acts : List Action → Shared → Option Shared
acts [] s = some s
acts (a ∷ as') s = elim (act a s) [ none ↦ none | some s' ↦ acts as' s' ]
