-- ===== src/Export/Returns.antt =====
-- What a call of the wrapper comes to.
use glu_core.Prelude.{◌≡◌, refl, some, List, ◌++◌, map, Bytes, ◌∙◌}
use glu_core.Types.{GluValue}
use glu_core.Errors.{glu_ok}
use glu_core.Memory.{Memory, IsSound}
use glu_core.Fctp.Content.{Content, content, Describes}
use glu_core.World.{World, returned}
use glu_core.Program.{Dispatch, run_program}
use glu_core.Export.{Tag, tag_to_core_variant}
use glu_core.Export.Native.{Value, Values, Native, returns, panics, catch_unwind}
use glu_core.Export.Wrapper.{panicked, answer, wrapper}
use glu_core.Export.Unpack.{values_of, unpack_all_lem}
use glu_core.Export.Pack.{said, packed, content-packed, packed-IsSound, pack_lem}

module _ (dispatch : Dispatch) (name : Bytes) (params : List Tag) (result : Tag)
    (function : Values params → Native (Value result)) (w : World) (args extra : List GluValue)
    (contents : List Content) (vs : Values params)
    (described : Describes w.mem args (map tag_to_core_variant params) contents)
    (passed : values_of params contents ≡ some vs) where
  -- The function is called with the values of the arguments, whatever it does then.
  pub wrapper_lem :
      run_program dispatch (wrapper name params result function (args ++ extra)) w
      ≡ run_program dispatch (catch_unwind (function vs) (answer name result)) w
  unfolding wrapper
  wrapper_lem =
      unpack_all_lem dispatch w params 0 (args ++ extra) args extra contents vs _ refl described
        passed

  pub wrapper_run :
      (x : Value result)
      → function vs ≡ returns x
      → run_program dispatch (wrapper name params result function (args ++ extra)) w
        ≡ returned (glu_ok (packed result x w.mem).0) (record w { mem = (packed result x w.mem).1 })
  unfolding catch_unwind run_program
  wrapper_run x r = wrapper_lem ∙ rw r (pack_lem dispatch w result x _)

  -- The wrapper of an exported function that, for the arguments it is given, makes no call of the
  -- core and returns, where the arguments match its parameters and further ones may follow: the
  -- wrapper returns the function's result, which then stands in memory, and has done nothing else
  -- to the world; a sound memory stays sound.
  pub wrapper_returns :
      (x : Value result)
      → function vs ≡ returns x
      → (v : GluValue) × (mem : Memory) × (run_program dispatch
            (wrapper name params result function (args ++ extra))
            w
          ≡ returned (glu_ok v) (record w { mem = mem }))
        × (content mem (tag_to_core_variant result) v ≡ some (said result x))
        × (IsSound w.mem → IsSound mem)
  wrapper_returns x r = (
    (packed result x w.mem).0,
    (packed result x w.mem).1,
    wrapper_run x r,
    content-packed result x w.mem,
    packed-IsSound result x w.mem,
  )

  -- Where the function panics, the wrapper returns an error that names it, and the world is as it was.
  pub wrapper_panics :
      function vs ≡ panics
      → run_program dispatch (wrapper name params result function (args ++ extra)) w
        ≡ returned (panicked name) w
  unfolding catch_unwind run_program
  wrapper_panics r = wrapper_lem ∙ rw r
