-- ===== src/Export/Dispatched.antt =====
-- A call of an exported Rust function through the core, from the caller's arguments to the result.
use glu_core.Prelude.{
  ℕ, suc, ◌≡◌, refl, true, none, some, List, map, Bytes, bytes_eq, append-nil, [], ◌∙◌,
}
use glu_core.Prelude.Map.{lookup}
use glu_core.Types.{GluValue, exported}
use glu_core.Errors.{glu_ok}
use glu_core.Memory.{IsSound}
use glu_core.Fctp.Content.{Content, content, Describes}
use glu_core.Handles.{find_export}
use glu_core.World.{World, returned}
use glu_core.Program.{Code}
use glu_core.Dispatch.{dispatch}
use glu_core.Dispatch.Links.{may_call}
use glu_core.Export.{Tag, tag_to_core_variant}
use glu_core.Export.Native.{Value, Values, Native, returns, panics}
use glu_core.Export.Wrapper.{wrapper, panicked}
use glu_core.Export.Unpack.{values_of}
use glu_core.Export.Pack.{said}
use glu_core.Dispatch.Compiled.{dispatch_compiled}
use glu_core.Export.Returns.{wrapper_returns, wrapper_panics}

module _ (code : Code) (depth : ℕ) (m f name : Bytes) (params : List Tag) (result : Tag)
    (function : Values params → Native (Value result)) (args : List GluValue)
    (contents : List Content) (vs : Values params) (w : World) (i a : ℕ)
    (allowed : may_call w m ≡ true) (no_socket : lookup m w.ipc.module_sockets ≡ none)
    (found : find_export w.registry m f ≡ some (i, exported a))
    (compiled : code a args ≡ wrapper name params result function args)
    (described : Describes w.mem args (map tag_to_core_variant params) contents)
    (passed : values_of params contents ≡ some vs) where
  -- An allowed call of an exported function that returns, with arguments that match its parameters:
  -- the caller is given the function's result, in memory, and the world is otherwise as it was.
  pub dispatch_exported :
      (x : Value result)
      → function vs ≡ returns x
      → (v : GluValue) × (w' : World) × (dispatch code (suc depth) m f args w
          ≡ returned (glu_ok v) w')
        × (content w'.mem (tag_to_core_variant result) v ≡ some (said result x))
        × (w' ≡ record w { mem = w'.mem })
        × (IsSound w.mem → IsSound w'.mem)
  dispatch_exported x r =
      let (v, mem, run, says, sound) =
        wrapper_returns (dispatch code depth) name params result function w args [] contents vs
          described passed x r in
      (
        v,
        record w { mem = mem },
        dispatch_compiled code depth m f args w i a allowed no_socket found
            ∙ rw compiled (rw append-nil at run),
        says,
        refl,
        sound,
      )

  -- Where the function panics, the caller is given an error that names it, and the world is as it was.
  pub dispatch-panicked :
      function vs ≡ panics → dispatch code (suc depth) m f args w ≡ returned (panicked name) w
  dispatch-panicked r =
      dispatch_compiled code depth m f args w i a allowed no_socket found
      ∙ rw compiled (
          rw append-nil at (
            wrapper_panics (dispatch code depth) name params result function w args [] contents vs
              described passed r))
