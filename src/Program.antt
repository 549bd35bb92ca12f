-- ===== src/Program.antt =====
-- Compiled modules, which are not the core's code: a function that a module exports is any sequence
-- of uses of the core's C interface and of the shared memory, chosen by what it learns on the way.
-- `crash` is a panic that leaves the function, and `wild` is undefined behaviour of its own.
pub mod Adds
pub mod Ends
use glu_core.Prelude.{ℕ, Bool, Option, none, some, List, map, Bytes, codes}
use glu_core.Types.{
  GluValue, GluSignature, GluSlice, GluResult, GluModule, GluExportEntry, exported, invalid_args,
}
use glu_core.Errors.{glu_err}
use glu_core.Memory.{to_vec, from_raw_parts, glucore_free_buffer}
use glu_core.Handles.{
  glucore_register_module, glucore_get_signature, glucore_get_module_export_count,
  glucore_get_module_export_name,
}
use glu_core.Router.{
  glucore_set_caller_identity, glucore_add_link, glucore_link_table_size,
  glucore_shared_state_checksum,
}
use glu_core.Connect.{Attempts}
use glu_core.Process.{Registered, ended, stuck, waiting, glucore_register_process_module}
use glu_core.World.{World, Run, returned, aborted, undefined, blocked, out_of_fuel}

-- The questions of the core's C interface that change nothing.
pub data Query : Type 0 where
  get_signature : Option Bytes → Option Bytes → Query
  get_module_export_count : Option Bytes → Query
  get_module_export_name : Option Bytes → ℕ → Query
  link_table_size : Query
  shared_state_checksum : Query

abbrev pub Answer : Query → Type 0
Answer (get_signature m function) = GluSignature
Answer (get_module_export_count m) = ℕ
Answer (get_module_export_name m index) = Option Bytes
Answer link_table_size = ℕ
Answer shared_state_checksum = ℕ

unfoldable pub answer_to : (q : Query) → World → Answer q
answer_to (get_signature m function) w = glucore_get_signature w.registry m function
answer_to (get_module_export_count m) w = glucore_get_module_export_count w.registry m
answer_to (get_module_export_name m index) w = glucore_get_module_export_name w.registry m index
answer_to link_table_size w = glucore_link_table_size w.links
answer_to shared_state_checksum w = glucore_shared_state_checksum w.links w.callers

-- A module as compiled code can describe it: the wrapper of process modules is private to the core.
pub record CompiledExport : Type 0 where
  pub name : Bytes
  pub address : ℕ
  pub signature : GluSignature

pub record CompiledModule : Type 0 where
  pub name : Bytes
  pub exports : List CompiledExport

abbrev pub compiled_entry : CompiledExport → GluExportEntry
compiled_entry export = record {
  name = export.name;
  wrapper = exported export.address;
  signature = export.signature;
}

abbrev pub compiled : CompiledModule → GluModule
compiled m = record { name = m.name; entries = map compiled_entry m.exports }

pub data Program : Type 0 where
  done : GluResult → Program
  crash : Program
  wild : Program
  set_identity : Option Bytes → Program → Program
  ask : (q : Query) → (Answer q → Program) → Program
  call : Option Bytes → Option Bytes → List GluValue → (GluResult → Program) → Program
  read : GluSlice → (Bytes → Program) → Program
  alloc : Bytes → (GluSlice → Program) → Program
  free : ℕ → ℕ → Program → Program
  add_link : Option Bytes → Option Bytes → Program → Program
  register : CompiledModule → Program → Program
  register_process :
      Bool → Attempts → Option Bytes → Option Bytes → Option Bytes → (ℕ → Program) → Program

-- The code of the exported functions, by address.
abbrev pub Code : Type 0
Code = ℕ → List GluValue → Program

-- `dispatch(module, function, args, argc)` as its callers see it.
abbrev pub Dispatch : Type 0
Dispatch = Bytes → Bytes → List GluValue → World → Run

-- `glucore_call` of core/src/router.rs; `none` is a null pointer.
unfoldable pub glucore_call : Dispatch → Option Bytes → Option Bytes → List GluValue → World → Run
glucore_call dispatch none function args w =
    returned (glu_err invalid_args (codes "null module name")) w
glucore_call dispatch (some m) none args w =
    returned (glu_err invalid_args (codes "null function name")) w
glucore_call dispatch (some m) (some function) args w = dispatch m function args w

abbrev pub and_then : Run → (GluResult → World → Run) → Run
and_then (returned r w) k = k r w
and_then aborted k = aborted
and_then undefined k = undefined
and_then blocked k = blocked
and_then out_of_fuel k = out_of_fuel

abbrev pub and_registered : Registered → (ℕ → World → Run) → Run
and_registered (ended c w) k = k c w
and_registered Registered.aborted k = aborted
and_registered stuck k = blocked
and_registered waiting k = out_of_fuel

unfoldable pub run_program : Dispatch → Program → World → Run
run_program dispatch (done r) w = returned r w
run_program dispatch crash w = aborted
run_program dispatch wild w = undefined
run_program dispatch (set_identity name p) w =
    run_program dispatch p (record w { callers = glucore_set_caller_identity name w.callers })
run_program dispatch (ask q next) w = run_program dispatch (next (answer_to q w)) w
run_program dispatch (call m function args next) w =
    and_then (glucore_call dispatch m function args w) (λ r w'. run_program dispatch (next r) w')
run_program dispatch (read s next) w = elim (from_raw_parts w.mem s) [
  | none ↦ undefined
  | some bytes ↦ run_program dispatch (next bytes) w
]
run_program dispatch (alloc bytes next) w =
    run_program dispatch (next (to_vec bytes w.mem).0) (record w { mem = (to_vec bytes w.mem).1 })
run_program dispatch (free ptr len p) w = elim (glucore_free_buffer ptr len w.mem) [
  | none ↦ undefined
  | some mem ↦ run_program dispatch p (record w { mem = mem })
]
run_program dispatch (add_link caller callee p) w =
    run_program dispatch p (record w { links = glucore_add_link caller callee w.links })
run_program dispatch (register m p) w =
    run_program dispatch p (record w { registry = glucore_register_module (compiled m) w.registry })
run_program dispatch (register_process spawned os name path command next) w =
    and_registered (glucore_register_process_module spawned os name path command w)
      (λ c w'. run_program dispatch (next c) w')
