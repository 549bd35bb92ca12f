-- ===== src/Physics/Registered.antt =====
-- The module after its registration: every function in the inventory can be called.
use glu_core.Prelude.{
  ℕ, zero, suc, ◌≡◌, refl, some, List, [], ◌∷◌, map, codes, get_elem?, arith, bytes_eq,
}
use glu_core.Outcome.{ok}
use glu_core.Types.{GluExportEntry, GluModule, exported}
use glu_core.Handles.{
  RegistryState, glucore_register_module, find_entry, find_export, glucore_get_signature,
}
use glu_core.Export.Inputs.{signature_of}
use glu_core.Handles.Scan.{last_named, last_named-only}
use glu_core.Handles.Index.{IsIndexed, entry_name}
use glu_core.Handles.Lookup.{find_entry-glucore_register_module}
use glu_core.Physics.{GluExport, entry_of, glucore_module_info}

-- No two functions have one name.
abbrev pub HasDistinctNames : List GluExport → Type 0
HasDistinctNames es =
    (i j : ℕ) (a b : GluExport)
    → get_elem? es i ≡ some a
    → get_elem? es j ≡ some b
    → a.name ≡ b.name
    → i ≡ j

get_elem?-entries :
    (es : List GluExport) (i : ℕ) {e : GluExport}
    → get_elem? es i ≡ some e
    → get_elem? (map entry_of es) i ≡ some (entry_of e)
get_elem?-entries [] i h = absurd (cc)
get_elem?-entries (x ∷ es) zero h = ground (arith, h)
get_elem?-entries (x ∷ es) (suc i) {e = e} h = get_elem?-entries es i {e = e} h

entries-get_elem? :
    (es : List GluExport) (i : ℕ) {y : GluExportEntry}
    → get_elem? (map entry_of es) i ≡ some y
    → (e : GluExport) × (get_elem? es i ≡ some e) × (y ≡ entry_of e)
entries-get_elem? [] i h = absurd (cc)
entries-get_elem? (x ∷ es) zero h = (x, refl, ground (arith, h))
entries-get_elem? (x ∷ es) (suc i) {y = y} h = entries-get_elem? es i {y = y} h

module _ (inventory : List GluExport) (md : GluModule) (s : RegistryState) (i : ℕ) (e : GluExport)
    (info : glucore_module_info inventory ≡ ok md) (ix : IsIndexed s)
    (distinct : HasDistinctNames inventory) (at_i : get_elem? inventory i ≡ some e) where
  find_entry-glucore_module_info :
      find_entry (glucore_register_module md s) (codes "physics") e.name ≡ some (i, entry_of e)
  unfolding glucore_module_info
  find_entry-glucore_module_info =
      let entries = map entry_of inventory in
      let named : md ≡ record { name = codes "physics"; entries = entries } =
        ground (arith, info) in
      let only : last_named entry_name e.name 0 entries ≡ some (i, entry_of e) =
        last_named-only entry_name e.name entries i (entry_of e)
          (get_elem?-entries inventory i {e = e} at_i) refl
          (λ j y at_j named_y.
            let (e', at_e, is_e) = entries-get_elem? inventory j {y = y} at_j in
            distinct j i e' e at_e at_i (ground (arith, is_e, named_y))) in
      ground
        (arith, named, only, find_entry-glucore_register_module md s (codes "physics") e.name ix)

  -- Once the module is registered, in whatever order the inventory lists its functions, each of them
  -- is found under its name, at its own index and wrapper, and with the signature of its parameters
  -- and its result, if the names are distinct.
  pub registered_found :
      (find_export (glucore_register_module md s) (codes "physics") e.name
        ≡ some (i, exported e.wrapper))
      × (glucore_get_signature (glucore_register_module md s) (some (codes "physics")) (some e.name)
          ≡ signature_of (record { params = e.params; result = e.result }))
  unfolding find_export glucore_get_signature
  registered_found = (
    ground (arith, find_entry-glucore_module_info),
    ground (arith, find_entry-glucore_module_info),
  )
