-- ===== src/Session/Links.antt =====
-- Where the links of a session come from.
use glu_core.Prelude.{ℕ, ◌≡◌, ◌⊎◌, true, List, Bytes, inl, inr, bytes_eq}
use glu_core.Types.{GluValue}
use glu_core.Router.{is_link_allowed_bytes}
use glu_core.World.{World}
use glu_core.Program.{Code}
use glu_core.Program.Adds.{AddsOnly}
use glu_core.Program.Ends.{run_program-EndsLater}
use glu_core.Dispatch.{dispatch}
use glu_core.Dispatch.Ends.{dispatch-EndsLater}
use glu_core.Session.{Step, ran, streamed, Reach, here, then}

-- The programs that the session runs add only links in `P`.
abbrev pub StepAdds :
    (P : Bytes → Bytes → Type 0) (code : Code) {w w' : World} → Step code w w' → Type 0
StepAdds P code (ran depth p r h) = AddsOnly P p
StepAdds P code (streamed limit socket open_peers) = Unit

abbrev pub RunsOnly :
    (P : Bytes → Bytes → Type 0) (code : Code) {w w' : World} → Reach code w w' → Type 0
RunsOnly P code here = Unit
RunsOnly P code (then r s) = RunsOnly P code r × StepAdds P code s

module _ (P : Bytes → Bytes → Type 0) (code : Code)
    (adds : (address : ℕ) (given : List GluValue) → AddsOnly P (code address given))
    (caller callee : Bytes) where
  Step-links :
      {w w' : World} (s : Step code w w')
      → StepAdds P code s
      → is_link_allowed_bytes w'.links caller callee ≡ true
      → (is_link_allowed_bytes w.links caller callee ≡ true) ⊎ P caller callee
  Step-links (ran depth p r {w} {w'} h) only link =
      ((run_program-EndsLater (dispatch code depth) (dispatch-EndsLater code adds depth) p w
            only).ends
          r w' h).added
        caller callee link
  Step-links (streamed limit socket open_peers) only link = inl link

-- Over a whole session, whatever process modules are registered and whatever they send: if the programs
-- that the session runs and the compiled functions add only links in `P`, whatever they are
-- answered, then each link that is allowed at its end was allowed at its start or is in `P`.
pub reached-RunsOnly :
    (P : Bytes → Bytes → Type 0) (code : Code) (caller callee : Bytes) {w w' : World}
    (r : Reach code w w')
    → ((address : ℕ) (given : List GluValue) → AddsOnly P (code address given))
    → RunsOnly P code r
    → is_link_allowed_bytes w'.links caller callee ≡ true
    → (is_link_allowed_bytes w.links caller callee ≡ true) ⊎ P caller callee
reached-RunsOnly P code caller callee here adds only link = inl link
reached-RunsOnly P code caller callee (then r s) adds only link =
    elim (Step-links P code adds caller callee s only.1 link) [
      | inl before ↦ reached-RunsOnly P code caller callee r adds only.0 before
      | inr new ↦ inr new
    ]
