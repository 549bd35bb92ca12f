-- ===== src/Examples/Physics.antt =====
-- The physics module, registered and called: by the script, and through the core under a name.
use glu_core.Prelude.{
  zero, suc, ◌≡◌, refl, true, List, [], ◌∷◌, Bytes, codes, some, none, bytes_eq, arith, map, eqb,
  if◌then◌else◌,
}
use glu_core.Prelude.Map.{lookup, insert, contains}
use glu_core.Outcome.{ok}
use glu_core.Types.{GluValue, GluModule, of_slice, exported}
use glu_core.Errors.{glu_ok}
use glu_core.Utf8.{from_utf8_lossy, lossy_from, first_byte, utf8_step}
use glu_core.Memory.{slice_of, from_raw_parts}
use glu_core.Fctp.Encode.{argument_bytes}
use glu_core.Fctp.Content.{text, content, Describes}
use glu_core.Handles.{
  RegistryState, find_export, find_entry, glucore_register_module, glucore_get_signature,
  index_entries,
}
use glu_core.Handles.Index.{register_all}
use glu_core.Router.{current_caller_bytes, is_link_allowed_bytes}
use glu_core.World.{World, returned}
use glu_core.Program.{Code}
use glu_core.Dispatch.{dispatch}
use glu_core.Dispatch.Links.{may_call}
use glu_core.Export.{float_value, string_owned, tag_to_core_variant}
use glu_core.Export.Inputs.{signature_of}
use glu_core.Export.Native.{returns}
use glu_core.Export.Wrapper.{wrapper}
use glu_core.Export.Unpack.{value_of, values_of}
use glu_core.Export.Pack.{said}
use glu_core.Physics
use glu_core.Physics.{
  Arithmetic, GluExport, entry_of, greet, add_ints, boost_with_cpp, python, glucore_module_info,
}
use glu_core.Physics.Registered.{HasDistinctNames, registered_found}
use glu_core.Physics.Called.{dispatch_registered}
use glu_core.Physics.Boost.{two_floats, boost}
use glu_core.Examples.Data.{world, registry, registry-IsIndexed, hi}

-- Floating point does not matter here.
abbrev pub std : Arithmetic
std = record { f64_mul = λ a b. a; f64_add = λ a b. b; to_uppercase = λ s. s }

abbrev pub greet_export : GluExport
greet_export = record {
  name = codes "greet";
  params = string_owned ∷ [];
  result = string_owned;
  function = greet;
  wrapper = 20;
}

abbrev boost_export : GluExport
boost_export = record {
  name = boost;
  params = two_floats;
  result = float_value;
  function = boost_with_cpp std true;
  wrapper = 21;
}

abbrev inventory : List GluExport
inventory = boost_export ∷ greet_export ∷ []

abbrev module_info : GluModule
module_info = record { name = codes "physics"; entries = map entry_of inventory }

informed : glucore_module_info inventory ≡ ok module_info
unfolding glucore_module_info
informed = refl

distinct : HasDistinctNames inventory
distinct zero zero a b at_i at_j same = refl
distinct zero (suc zero) a b at_i at_j same = absurd (ground (arith, at_i, at_j, same))
distinct zero (suc (suc j)) a b at_i at_j same = absurd (cc)
distinct (suc zero) zero a b at_i at_j same = absurd (ground (arith, at_i, at_j, same))
distinct (suc zero) (suc zero) a b at_i at_j same = refl
distinct (suc zero) (suc (suc j)) a b at_i at_j same = absurd (cc)
distinct (suc (suc i)) j a b at_i at_j same = absurd (cc)

abbrev pub registered : RegistryState
registered = glucore_register_module module_info registry

registered_found_example :
    (find_export registered (codes "physics") (codes "greet") ≡ some (1, exported 20))
    × (glucore_get_signature registered (some (codes "physics")) (some (codes "greet"))
        ≡ signature_of (record { params = string_owned ∷ []; result = string_owned }))
registered_found_example =
    registered_found inventory module_info registry 1 greet_export informed registry-IsIndexed
      distinct refl

abbrev pub physics_code : Code
physics_code address args =
    if eqb address 20
    then wrapper (codes "greet") (string_owned ∷ []) string_owned greet args
    else wrapper boost two_floats float_value (boost_with_cpp std true) args

abbrev pub loaded : World
loaded = record world { registry = registered }

may : may_call loaded (codes "physics") ≡ true
unfolding current_caller_bytes is_link_allowed_bytes lookup contains
may = refl

abbrev pub hello : Bytes
hello = codes "Hello, hi!"

pub greets : greet (104 ∷ 105 ∷ [], tt) ≡ returns hello
unfolding greet
greets = refl

hi-described :
    Describes loaded.mem
      (of_slice hi ∷ [])
      (glucore_get_signature loaded.registry (some (codes "physics")) (some (codes "greet"))).params
      (text (104 ∷ 105 ∷ []) ∷ [])
unfolding content tag_to_core_variant argument_bytes from_raw_parts slice_of lookup insert
    glucore_get_signature find_entry register_all glucore_register_module index_entries signature_of
hi-described = (refl, omega arith, tt)

pub hi-passed :
    values_of (string_owned ∷ []) (text (104 ∷ 105 ∷ []) ∷ []) ≡ some (104 ∷ 105 ∷ [], tt)
unfolding value_of from_utf8_lossy lossy_from first_byte utf8_step
hi-passed = refl

pub no_socket : lookup (codes "physics") loaded.ipc.module_sockets ≡ none
unfolding lookup
no_socket = refl

dispatch_registered_example :
    (v : GluValue) × (w' : World) × (dispatch physics_code 1
        (codes "physics")
        (codes "greet")
        (of_slice hi ∷ [])
        loaded
      ≡ returned (glu_ok v) w')
    × (content w'.mem
          (glucore_get_signature loaded.registry
            (some (codes "physics"))
            (some (codes "greet"))).return_type
          v
        ≡ some (said string_owned hello))
    × (w' ≡ record loaded { mem = w'.mem })
dispatch_registered_example =
    dispatch_registered physics_code 0 inventory module_info registry 1 greet_export
      (of_slice hi ∷ []) (text (104 ∷ 105 ∷ []) ∷ []) (104 ∷ 105 ∷ [], tt) hello loaded informed
      registry-IsIndexed distinct refl refl may no_socket refl hi-described hi-passed greets

-- Physics may not call the engine, so its call fails; that clears the callers all the same.
abbrev cleared : World
cleared = record loaded { callers = [] }
