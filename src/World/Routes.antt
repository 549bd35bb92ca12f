-- ===== src/World/Routes.antt =====
-- The routing of a call to the process module that registered the function (core/src/runtime.rs).
use glu_core.Prelude.{
  ℕ, ◌+◌, ◌≡◌, Option, none, some, Bytes, get_elem?, arith, ◌==◌, Bool-cases, inl, inr, bytes_eq,
}
use glu_core.Prelude.Map.{lookup}
use glu_core.Types.{GluSignature, GluExportEntry, ipc_wrapper, GluModule}
use glu_core.Handles.{RegistryState, empty_registry, find_entry, glucore_register_module}
use glu_core.Handles.Scan.{last_named, last_named-get}
use glu_core.Handles.Index.{IsIndexed, entry_name}
use glu_core.Handles.Lookup.{find_entry-glucore_register_module}
use glu_core.World.{World, IpcState, IpcExportMeta}

-- `map.get(..).copied()` under a read guard that is given back at once. No thread panics while it holds
-- the tables for writing and lives on, so the lock is never poisoned.
abbrev pub ipc_socket_for_module : IpcState → Bytes → Option ℕ
ipc_socket_for_module ipc m = lookup m ipc.module_sockets

abbrev pub ipc_base_idx_for_module : IpcState → Bytes → Option ℕ
ipc_base_idx_for_module ipc m = lookup m ipc.module_base_idx

abbrev pub base_or_zero : Option ℕ → ℕ
base_or_zero none = 0
base_or_zero (some b) = b

abbrev pub meta_of : ℕ → Bytes → Bytes × GluSignature → IpcExportMeta
meta_of sock_fd module_name export = record {
  sock_fd = sock_fd;
  module_name = module_name;
  function_name = export.0;
  sig = export.1;
}

-- What the wrapper of a process module's function finds under the index that `dispatch` computes.
abbrev pub route : IpcState → Bytes → ℕ → Option IpcExportMeta
route ipc k i = get_elem? ipc.exports (base_or_zero (lookup k ipc.module_base_idx) + i)

-- The export that the wrapper finds for the entry `e` of the module `k` is that function of that
-- module, on the module's socket.
abbrev pub Leads : IpcState → Bytes → Bytes → ℕ → GluExportEntry → Type 0
Leads ipc k f i e =
    (fd : ℕ) × (lookup k ipc.module_sockets ≡ some fd)
    × (route ipc k i ≡ some (meta_of fd k (f, e.signature)))

-- Every function that is found, and is called through the wrapper of process modules, is routed.
pub record Routes (s : RegistryState) (ipc : IpcState) : Type 0 where
  pub routed :
      (k f : Bytes) (i : ℕ) (e : GluExportEntry)
      → find_entry s k f ≡ some (i, e)
      → e.wrapper ≡ ipc_wrapper
      → Leads ipc k f i e

abbrev pub IsRouted : World → Type 0
IsRouted w = Routes w.registry w.ipc

pub Routes-empty : (ipc : IpcState) → Routes empty_registry ipc
unfolding find_entry lookup
Routes-empty ipc = record { routed = λ k f i e found wrapper. absurd (cc) }

-- No function of the module is called through the wrapper of process modules.
abbrev pub IsCompiled : GluModule → Type 0
IsCompiled m =
    (i : ℕ) (e : GluExportEntry) → get_elem? m.entries i ≡ some e → ¬ (e.wrapper ≡ ipc_wrapper)

-- A compiled module may take the name of any module, also of a process module.
pub glucore_register_module-Routes :
    (m : GluModule) (s : RegistryState) (ipc : IpcState)
    → IsIndexed s
    → IsCompiled m
    → Routes s ipc
    → Routes (glucore_register_module m s) ipc
glucore_register_module-Routes m s ipc ix compiled r = record {
  routed = λ k f i e found wrapper.
      let entry = find_entry-glucore_register_module m s k f ix in
      elim (Bool-cases (m.name == k)) [
        | inl same ↦
            let here : last_named entry_name f 0 m.entries ≡ some (i, e) =
              ground (arith, same, entry, found) in
            let (d, p, q, named) = last_named-get entry_name f 0 m.entries {j = i} {x = e} here in
            absurd (compiled d e q wrapper)
        | inr other ↦ r.routed k f i e (ground (arith, other, entry, found)) wrapper
      ];
}
