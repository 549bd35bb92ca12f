-- ===== src/Export/Inputs.antt =====
-- The signature that `#[export]` reads from a function, or the error at which compilation stops.
use glu_core.Prelude.{◌≡◌, ◌↔◌, List, [], ◌∷◌, map, codes, arith}
use glu_core.Outcome.{Outcome, ok, err, panic}
use glu_core.Types.{GluSignature}
use glu_core.Export.{SynType, Printer, Tag, nothing, match_type, tag_to_core_variant}
use glu_core.Export.Whitelist.{Spells, match_type_iff}

pub data FnArg : Type 0 where
  receiver : FnArg
  typed : SynType → FnArg

pub data ReturnType : Type 0 where
  default : ReturnType
  arrow : SynType → ReturnType

-- `param_tags` and `return_tag`
pub record Exported : Type 0 where
  pub params : List Tag
  pub result : Tag

abbrev prepend : Tag → Outcome (List Tag) → Outcome (List Tag)
prepend t (ok ts) = ok (t ∷ ts)
prepend t (err e) = err e
prepend t panic = panic

abbrev return_as : List Tag → Outcome Tag → Outcome Exported
return_as params (ok t) = ok (record { params = params; result = t })
return_as params (err e) = err e
return_as params panic = panic

-- The static `__SIG_…`
unfoldable pub signature_of : Exported → GluSignature
signature_of e = record {
  params = map tag_to_core_variant e.params;
  return_type = tag_to_core_variant e.result;
}

module _ (printer : Printer) where
  abbrev pub and_then_input : Outcome Tag → Outcome (List Tag) → Outcome (List Tag)
  and_then_input (ok t) rest = prepend t rest
  and_then_input (err e) rest = err e
  and_then_input panic rest = panic

  -- `for (i, input) in func.sig.inputs.iter().enumerate()`
  unfoldable pub read_inputs : List FnArg → Outcome (List Tag)
  read_inputs [] = ok []
  read_inputs (receiver ∷ inputs) = err (codes "glucore::export: self receivers not supported")
  read_inputs (typed ty ∷ inputs) = and_then_input (match_type printer ty) (read_inputs inputs)

  unfoldable pub read_output : ReturnType → Outcome Tag
  read_output default = ok nothing
  read_output (arrow ty) = match_type printer ty

  abbrev pub with_output : ReturnType → Outcome (List Tag) → Outcome Exported
  with_output output (ok params) = return_as params (read_output output)
  with_output output (err e) = err e
  with_output output panic = panic

  unfoldable pub export : List FnArg → ReturnType → Outcome Exported
  export inputs output = with_output output (read_inputs inputs)

-- Each input is spelled as its tag says, in order.
abbrev pub SpellInputs : List FnArg → List Tag → Type 0
SpellInputs [] [] = Unit
SpellInputs (typed ty ∷ inputs) (t ∷ ts) = Spells ty t × SpellInputs inputs ts
SpellInputs _ _ = ⊥

abbrev pub SpellsOutput : ReturnType → Tag → Type 0
SpellsOutput default t = t ≡ nothing
SpellsOutput (arrow ty) t = Spells ty t

module _ (printer : Printer) where
  read_inputs_iff :
      (inputs : List FnArg) (ts : List Tag)
      → (read_inputs printer inputs ≡ ok ts) ↔ SpellInputs inputs ts
  unfolding read_inputs
  read_inputs_iff [] [] = ground arith
  read_inputs_iff [] (t ∷ ts) = ground arith
  read_inputs_iff (receiver ∷ inputs) ts = ground arith
  read_inputs_iff (typed ty ∷ inputs) [] = ground arith
  read_inputs_iff (typed ty ∷ inputs) (t ∷ ts) =
      ground (arith, match_type_iff printer ty t, read_inputs_iff inputs ts)

  read_output_iff : (o : ReturnType) (t : Tag) → (read_output printer o ≡ ok t) ↔ SpellsOutput o t
  unfolding read_output
  read_output_iff default t = ground arith
  read_output_iff (arrow ty) t = match_type_iff printer ty t

  -- A function is exported, under a signature, exactly where it has no receiver and each of its
  -- inputs and its result is, in the order of the signature, in the case of its tag: a path that
  -- ends in a plain `f64`, `i64` or `String`; a path that ends in `Vec`, with a path that ends in
  -- a plain `u8` as its first generic argument; a reference to a path that ends in `str`, or to a
  -- slice of a path that ends in a plain `u8`; or `()`. A function without a result has that of
  -- `()`.
  pub export_iff :
      (inputs : List FnArg) (output : ReturnType) (params : List Tag) (result : Tag)
      → (export printer inputs output ≡ ok (record { params = params; result = result }))
        ↔ (SpellInputs inputs params × SpellsOutput output result)
  unfolding export
  export_iff inputs output params result =
      ground (arith, read_inputs_iff inputs params, read_output_iff output result)
