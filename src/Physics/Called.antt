-- ===== src/Physics/Called.antt =====
-- A call of one of the module's functions, from the registration to the result.
use glu_core.Prelude.{ℕ, suc, ◌≡◌, true, none, some, List, codes, get_elem?, bytes_eq}
use glu_core.Prelude.Map.{lookup}
use glu_core.Outcome.{ok}
use glu_core.Types.{GluValue, GluModule}
use glu_core.Errors.{glu_ok}
use glu_core.Fctp.Content.{Content, content, Describes}
use glu_core.Handles.{RegistryState, glucore_register_module, glucore_get_signature}
use glu_core.Handles.Index.{IsIndexed}
use glu_core.World.{World, returned}
use glu_core.Program.{Code}
use glu_core.Dispatch.{dispatch}
use glu_core.Dispatch.Links.{may_call}
use glu_core.Export.Inputs.{signature_of}
use glu_core.Export.Native.{Value, Values, returns}
use glu_core.Export.Wrapper.{wrapper}
use glu_core.Export.Unpack.{values_of}
use glu_core.Export.Pack.{said}
use glu_core.Export.Dispatched.{dispatch_exported}
use glu_core.Physics.{GluExport, glucore_module_info}
use glu_core.Physics.Registered.{HasDistinctNames, registered_found}

-- In a world where physics was registered last, with distinct names in its inventory: an allowed
-- call of a function of the inventory, whose wrapper is the one that `export` wrote, with
-- arguments in memory that the signature which the core tells describes, and where the function
-- makes no call of the core, as `boost_with_cpp` does, and returns. The caller is given what the
-- function returns, as a value in memory of the type that the same signature tells, and the rest
-- of the world is as it was.
pub dispatch_registered :
    (code : Code) (depth : ℕ) (inventory : List GluExport) (md : GluModule) (s : RegistryState)
    (i : ℕ) (e : GluExport) (args : List GluValue) (contents : List Content) (vs : Values e.params)
    (x : Value e.result) (w : World)
    → glucore_module_info inventory ≡ ok md
    → IsIndexed s
    → HasDistinctNames inventory
    → get_elem? inventory i ≡ some e
    → w.registry ≡ glucore_register_module md s
    → may_call w (codes "physics") ≡ true
    → lookup (codes "physics") w.ipc.module_sockets ≡ none
    → code e.wrapper args ≡ wrapper e.name e.params e.result e.function args
    → Describes w.mem args
        (glucore_get_signature w.registry (some (codes "physics")) (some e.name)).params
        contents
    → values_of e.params contents ≡ some vs
    → e.function vs ≡ returns x
    → (v : GluValue) × (w' : World) × (dispatch code (suc depth) (codes "physics") e.name args w
        ≡ returned (glu_ok v) w')
      × (content w'.mem
            (glucore_get_signature w.registry (some (codes "physics")) (some e.name)).return_type
            v
          ≡ some (said e.result x))
      × (w' ≡ record w { mem = w'.mem })
dispatch_registered code depth inventory md s i e args contents vs x w info ix distinct at_i now
      allowed no_socket compiled described passed r =
    let (found, sig) = registered_found inventory md s i e info ix distinct at_i in
    let told : glucore_get_signature w.registry (some (codes "physics")) (some e.name)
        ≡ signature_of (record { params = e.params; result = e.result }) =
      rw now sig in
    let (v, w', run, says, same, _) =
      dispatch_exported code depth (codes "physics") e.name e.name e.params e.result e.function args
        contents vs w i e.wrapper allowed no_socket (rw now found) compiled
        (unfold signature_of in (rw told at described)) passed x r in
    (v, w', run, rw told (unfold signature_of in says), same)
