-- ===== src/Physics/Boost.antt =====
-- `boost_with_cpp` behind its wrapper: one call of the core in a name of its own.
use glu_core.Prelude.{
  ℕ, ◌≡◌, refl, Bool, true, false, List, [], ◌∷◌, Bytes, codes, if◌then◌else◌, bytes_eq,
}
use glu_core.Types.{GluValue, GluResult, of_word}
use glu_core.Errors.{glu_ok}
use glu_core.Fctp.Encode.{is_ok}
use glu_core.Router.{glucore_set_caller_identity}
use glu_core.World.{World, Run, returned, aborted, undefined, blocked, out_of_fuel}
use glu_core.Program.{Dispatch, run_program, and_then, glucore_call}
use glu_core.Dispatch.{dispatch}
use glu_core.Export.{Tag, float_value}
use glu_core.Export.Native.{returns, panics, catch_unwind}
use glu_core.Export.Wrapper.{wrapper, unpack_all, unpack, unpack_value, pack, answer, panicked}
use glu_core.Physics.{Arithmetic, two, python, call_as, boost_with_cpp}

abbrev pub two_floats : List Tag
two_floats = float_value ∷ float_value ∷ []

abbrev pub boost : Bytes
boost = codes "boost_with_cpp"

-- What `boost_with_cpp` answers, from what the call of `cpp_engine.accelerate` came to.
abbrev pub boosted : Arithmetic → ℕ → GluResult → GluResult
boosted std v res =
    if is_ok res.status
    then glu_ok (of_word (std.f64_add (std.f64_mul v two) res.value.first))
    else panicked boost

answered :
    (dispatch : Dispatch) (std : Arithmetic) (v : ℕ) (res : GluResult) (w : World) (good : Bool)
    → run_program dispatch
        (catch_unwind
          (if good then returns (std.f64_add (std.f64_mul v two) res.value.first) else panics)
          (answer boost float_value))
        w
      ≡ returned
          (if good
            then glu_ok (of_word (std.f64_add (std.f64_mul v two) res.value.first))
            else panicked boost)
          w
unfolding run_program catch_unwind pack
answered dispatch std v res w true = refl
answered dispatch std v res w false = refl

and_then-ap :
    (r : Run) (k k' : GluResult → World → Run)
    → ((res : GluResult) (w : World) → k res w ≡ k' res w)
    → and_then r k ≡ and_then r k'
and_then-ap (returned r w) k k' h = h r w
and_then-ap aborted k k' h = refl
and_then-ap undefined k k' h = refl
and_then-ap blocked k k' h = refl
and_then-ap out_of_fuel k k' h = refl

-- The wrapper of `boost_with_cpp`, once the core is found and with two arguments or more: it is one
-- call of `cpp_engine.accelerate` with the same two, in the name of physics whoever the caller was;
-- of a result it makes the sum with the doubled first argument, and of an error its own, and the
-- thread's callers are then python alone.
pub boost_run :
    (dispatch : Dispatch) (std : Arithmetic) (a b : GluValue) (extra : List GluValue) (w : World)
    → run_program dispatch
        (wrapper boost two_floats float_value (boost_with_cpp std true) (a ∷ b ∷ extra))
        w
      ≡ and_then
          (dispatch
            (codes "cpp_engine")
            (codes "accelerate")
            (of_word a.first ∷ of_word b.first ∷ [])
            (record w { callers = codes "physics" ∷ [] }))
          (λ res w'. returned (boosted std a.first res) (record w' { callers = python ∷ [] }))
unfolding wrapper unpack_all unpack unpack_value run_program catch_unwind boost_with_cpp call_as
    glucore_call glucore_set_caller_identity
boost_run dispatch std a b extra w = and_then-ap _ _ _ (λ res w'.
    answered dispatch std a.first res (record w' { callers = python ∷ [] }) (is_ok res.status))
