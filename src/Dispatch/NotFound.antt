-- ===== src/Dispatch/NotFound.antt =====
-- Calls of functions that are not registered (core/src/router.rs, core/src/handles.rs).
use glu_core.Prelude.{
  ℕ, zero, suc, ◌-◌, ◌<◌, ◌≡◌, refl, sym, ◌∙◌, ◌⊎◌, true, false, none, some, List, [], ◌∷◌, ◌++◌,
  Bytes, codes, length, has_nul, ltb, arith, All, inl, inr, bytes_eq,
}
use glu_core.Types.{GluValue, GluModule, GluExportEntry, not_found}
use glu_core.Errors.{glu_err}
use glu_core.Handles.{empty_registry, find_export, glucore_get_module_export_count, count_of}
use glu_core.Handles.Scan.{last_named-none, last_named-last}
use glu_core.Handles.Index.{register_all, scan_module, scan_entry, entry_name, module_name_of}
use glu_core.Handles.Lookup.{registry_lookups}
use glu_core.World.{World, returned}
use glu_core.Program.{Code}
use glu_core.Dispatch.{dispatch}
use glu_core.Dispatch.Links.{may_call, dispatch_not_found}

-- Why there is no function `f` of a module `m` among the modules `ms`, in the order in which they were
-- registered, and what the caller is told: none has the name; the last of the name exports something
-- else; or the last of the name exports nothing.
pub data Lacks (ms : List GluModule) (m f : Bytes) : Bytes → Type 0 where
  no_module : All (λ (md : GluModule). ¬ (md.name ≡ m)) ms → Lacks ms m f (codes "module not found")
  no_function :
      (before after : List GluModule) (md : GluModule)
      → ms ≡ before ++ (md ∷ after)
      → md.name ≡ m
      → All (λ (md : GluModule). ¬ (md.name ≡ m)) after
      → 0 < length md.entries
      → All (λ (e : GluExportEntry). ¬ (e.name ≡ f)) md.entries
      → Lacks ms m f (codes "function not found in module")
  no_exports :
      (before after : List GluModule) (md : GluModule)
      → ms ≡ before ++ (md ∷ after)
      → md.name ≡ m
      → All (λ (md : GluModule). ¬ (md.name ≡ m)) after
      → md.entries ≡ []
      → Lacks ms m f (codes "module not found")

scan_module-last :
    (m : Bytes) (before after : List GluModule) (md : GluModule)
    → md.name ≡ m
    → All (λ (md : GluModule). ¬ (md.name ≡ m)) after
    → scan_module (before ++ (md ∷ after)) m ≡ some md
unfolding scan_module
scan_module-last m before after md same others =
    let (j, found) = last_named-last module_name_of m 0 before md after same others in rw found refl

scan_entry-none :
    (ms : List GluModule) (m f : Bytes) (md : GluModule)
    → scan_module ms m ≡ some md
    → All (λ (e : GluExportEntry). ¬ (e.name ≡ f)) md.entries
    → scan_entry ms m f ≡ none
unfolding scan_entry
scan_entry-none ms m f md found lacks = rw found (last_named-none entry_name f 0 md.entries lacks)

abbrev text_for : ℕ → Bytes
text_for zero = codes "module not found"
text_for (suc n) = codes "function not found in module"

told :
    (m : Bytes) (w : World) (n : ℕ) (text : Bytes)
    → glucore_get_module_export_count w.registry (some m) ≡ n
    → ((text ≡ codes "function not found in module")
        × (ltb 0 (glucore_get_module_export_count w.registry (some m)) ≡ true))
      ⊎ ((text ≡ codes "module not found")
          × (glucore_get_module_export_count w.registry (some m) ≡ 0))
    → text ≡ text_for n
told m w zero text e (inl (t, some_exports)) = absurd (ground (arith, e, some_exports))
told m w zero text e (inr (t, none_there)) = t
told m w (suc n) text e (inl (t, some_exports)) = t
told m w (suc n) text e (inr (t, none_there)) = absurd (omega arith)

module _ (code : Code) (depth : ℕ) (m f : Bytes) (args : List GluValue) (w : World)
    (ms : List GluModule) (registered : w.registry ≡ register_all ms empty_registry)
    (allowed : may_call w m ≡ true) (no_nul : has_nul m ≡ false) where
  answered :
      (n : ℕ)
      → scan_entry ms m f ≡ none
      → count_of (scan_module ms m) ≡ n
      → dispatch code (suc depth) m f args w ≡ returned (glu_err not_found (text_for n)) w
  answered n nowhere counted =
      let (found, sig, count) = registry_lookups ms m f in
      let none_found : find_export w.registry m f ≡ none = rw (registered, found, nowhere) refl in
      let exports : glucore_get_module_export_count w.registry (some m) ≡ n =
        rw registered (count ∙ counted) in
      let (text, run, which) = dispatch_not_found code depth m f args w allowed no_nul none_found in
      let same = told m w n text exports which in rw (sym same) run

-- In a world where the modules `ms` were registered, one after the other, and where the call is
-- allowed: a call of a function that the last module of the name does not have, or of a name that
-- no module has, of a module name without a zero byte, is answered by `NotFound` and leaves the
-- world as it was. The caller is told that there is no such function where the last module of that
-- name has other exports, and that there is no such module where none has the name, or the last
-- that has it exports nothing.
pub dispatch_unregistered :
    (code : Code) (depth : ℕ) (m f : Bytes) (args : List GluValue) (w : World) (ms : List GluModule)
    (text : Bytes)
    → w.registry ≡ register_all ms empty_registry
    → may_call w m ≡ true
    → has_nul m ≡ false
    → Lacks ms m f text
    → dispatch code (suc depth) m f args w ≡ returned (glu_err not_found text) w
unfolding scan_entry scan_module
dispatch_unregistered code depth m f args w ms text registered allowed no_nul (no_module others) =
    let none_named = last_named-none module_name_of m 0 ms others in
    answered code depth m f args w ms registered allowed no_nul 0 (rw none_named refl)
      (rw none_named refl)
dispatch_unregistered code depth m f args w ms text registered allowed no_nul
      (no_function before after md split same others some_entries lacks) =
    let md_found : scan_module ms m ≡ some md =
      rw split (scan_module-last m before after md same others) in
    let n = length md.entries - 1 in
    answered code depth m f args w ms registered allowed no_nul (suc n)
      (scan_entry-none ms m f md md_found lacks) (rw md_found (omega arith))
dispatch_unregistered code depth m f args w ms text registered allowed no_nul
      (no_exports before after md split same others nothing) =
    let md_found : scan_module ms m ≡ some md =
      rw split (scan_module-last m before after md same others) in
    answered code depth m f args w ms registered allowed no_nul 0
      (scan_entry-none ms m f md md_found (rw nothing tt)) (rw (md_found, nothing) refl)
