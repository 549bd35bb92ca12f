-- ===== src/Handles.antt =====
-- core/src/handles.rs: the registry of modules and its indexes. The registry's lock is held for
-- the whole of each operation, so an operation is a function on the state. A C string is its
-- bytes, and an argument that may be a null pointer is an `Option`.
pub mod Scan
pub mod Index
pub mod Lookup
use glu_core.Prelude.{
  ℕ, ◌+◌, Option, none, some, List, [], ◌∷◌, ◌++◌, Bytes, length, get_elem?, bytes_eq, nat_eq,
}
use glu_core.Prelude.Map.{Map, lookup, insert}
use glu_core.Prelude.Options.{◌>>=◌}
use glu_core.Types.{GluExportEntry, GluModule, GluSignature, GluWrapper, empty_signature}

pub record RegistryState : Type 0 where
  pub modules : List GluModule
  pub module_index : Map Bytes ℕ
  pub export_index : Map ℕ (Map Bytes ℕ)

-- `RegistryState::default()`
abbrev pub empty_registry : RegistryState
empty_registry = record { modules = []; module_index = []; export_index = [] }

-- `for (entry_idx, entry) in entries.iter().enumerate() { by_fn.insert(fn_name, entry_idx) }`
unfoldable pub index_entries : ℕ → List GluExportEntry → Map Bytes ℕ → Map Bytes ℕ
index_entries entry_idx [] by_fn = by_fn
index_entries entry_idx (entry ∷ entries) by_fn =
    index_entries (entry_idx + 1) entries (insert entry.name entry_idx by_fn)

unfoldable pub glucore_register_module : GluModule → RegistryState → RegistryState
glucore_register_module m state =
    let module_idx = length state.modules in
    record {
      modules = state.modules ++ (m ∷ []);
      module_index = insert m.name module_idx state.module_index;
      export_index = insert module_idx (index_entries 0 m.entries []) state.export_index;
    }

-- The entry that a function name of a module stands for, with its index.
unfoldable pub find_entry : RegistryState → Bytes → Bytes → Option (ℕ × GluExportEntry)
find_entry state module_name function = do
  module_idx ← lookup module_name state.module_index
  by_fn ← lookup module_idx state.export_index
  entry_idx ← lookup function by_fn
  m ← get_elem? state.modules module_idx
  e ← get_elem? m.entries entry_idx
  some (entry_idx, e)

unfoldable pub find_export : RegistryState → Bytes → Bytes → Option (ℕ × GluWrapper)
find_export state module_name function = do
  found ← find_entry state module_name function
  some (found.0, found.1.wrapper)

abbrev pub signature_or_empty : Option (ℕ × GluExportEntry) → GluSignature
signature_or_empty none = empty_signature
signature_or_empty (some (i, e)) = e.signature

unfoldable pub glucore_get_signature : RegistryState → Option Bytes → Option Bytes → GluSignature
glucore_get_signature state (some module_name) (some function) =
    signature_or_empty (find_entry state module_name function)
glucore_get_signature state (some module_name) none = empty_signature
glucore_get_signature state none function = empty_signature

-- `state.modules[state.module_index[name]]`, where both are there
unfoldable pub find_module : RegistryState → Bytes → Option GluModule
find_module state module_name = do
  module_idx ← lookup module_name state.module_index
  get_elem? state.modules module_idx

abbrev pub count_of : Option GluModule → ℕ
count_of none = 0
count_of (some m) = length m.entries

unfoldable pub glucore_get_module_export_count : RegistryState → Option Bytes → ℕ
glucore_get_module_export_count state none = 0
glucore_get_module_export_count state (some module_name) = count_of (find_module state module_name)

-- `none` is the null pointer, also where the index is out of range.
unfoldable pub glucore_get_module_export_name : RegistryState → Option Bytes → ℕ → Option Bytes
glucore_get_module_export_name state none index = none
glucore_get_module_export_name state (some module_name) index = do
  m ← find_module state module_name
  e ← get_elem? m.entries index
  some e.name
