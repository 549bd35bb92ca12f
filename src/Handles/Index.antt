-- ===== src/Handles/Index.antt =====
-- The indexes of the registry against a scan of the modules and their entries.
use glu_core.Prelude.{
  ℕ, ◌+◌, ◌≡◌, refl, Option, none, some, List, [], ◌∷◌, Bytes, length, get_elem?, bytes_eq, nat_eq,
  eqb_iff, arith, Option-cases, inl, inr, get_elem?_snoc,
}
use glu_core.Prelude.Map.{Map, lookup, insert, lookup-insert}
use glu_core.Prelude.Options.{◌>>=◌}
use glu_core.Types.{GluExportEntry, GluModule}
use glu_core.Handles.{
  RegistryState, empty_registry, index_entries, glucore_register_module, find_entry, find_module,
}
use glu_core.Handles.Scan.{or_else, last_named, last_named-append, last_named-get}

abbrev pub entry_name : GluExportEntry → Bytes
entry_name e = e.name

abbrev pub module_name_of : GluModule → Bytes
module_name_of m = m.name

abbrev pub position {ℓ} : {A : Type ℓ} → Option (ℕ × A) → Option ℕ
position none = none
position (some p) = some p.0

-- The index of a module's entries has the last entry of each name.
lookup-index_entries :
    (f : Bytes) (i : ℕ) (es : List GluExportEntry) (by_fn : Map Bytes ℕ)
    → lookup f (index_entries i es by_fn)
      ≡ or_else (position (last_named entry_name f i es)) (lookup f by_fn)
unfolding index_entries last_named
lookup-index_entries f i [] by_fn = refl
lookup-index_entries f i (e ∷ es) by_fn = ground (
  arith,
  lookup-index_entries f (i + 1) es (insert e.name i by_fn),
  lookup-insert e.name f i by_fn,
)

-- The indexes of `s` describe its modules.
pub record IsIndexed (s : RegistryState) : Type 0 where
  pub modules_found :
      (k : Bytes) → lookup k s.module_index ≡ position (last_named module_name_of k 0 s.modules)
  pub exports_found :
      (i : ℕ) (md : GluModule)
      → get_elem? s.modules i ≡ some md
      → lookup i s.export_index ≡ some (index_entries 0 md.entries [])

pub IsIndexed-empty : IsIndexed empty_registry
unfolding lookup last_named
IsIndexed-empty = record { modules_found = λ k. refl; exports_found = λ i md h. absurd (cc) }

pub glucore_register_module-IsIndexed :
    (m : GluModule) (s : RegistryState) → IsIndexed s → IsIndexed (glucore_register_module m s)
unfolding glucore_register_module
glucore_register_module-IsIndexed m s h = record {
  modules_found = λ k. ground (
    arith,
    h.modules_found k,
    lookup-insert m.name k (length s.modules) s.module_index,
    last_named-append module_name_of k 0 s.modules m,
  );
  exports_found = λ i md e. ground (
    arith,
    e,
    h.exports_found i md,
    get_elem?_snoc s.modules m i,
    eqb_iff (length s.modules) i,
    lookup-insert (length s.modules) i (index_entries 0 m.entries []) s.export_index,
  );
}

-- Any number of registrations, the first one first.
unfoldable pub register_all : List GluModule → RegistryState → RegistryState
register_all [] s = s
register_all (m ∷ ms) s = register_all ms (glucore_register_module m s)

pub register_all-IsIndexed :
    (ms : List GluModule) (s : RegistryState) → IsIndexed s → IsIndexed (register_all ms s)
unfolding register_all
register_all-IsIndexed [] s h = h
register_all-IsIndexed (m ∷ ms) s h =
    register_all-IsIndexed ms (glucore_register_module m s)
      (glucore_register_module-IsIndexed m s h)

-- What the lookups promise: the last module of that name, and its last entry of that name.
unfoldable pub scan_module : List GluModule → Bytes → Option GluModule
scan_module modules k = do found ← last_named module_name_of k 0 modules; some found.1

unfoldable pub scan_entry : List GluModule → Bytes → Bytes → Option (ℕ × GluExportEntry)
scan_entry modules k f = do md ← scan_module modules k; last_named entry_name f 0 md.entries

module _ (s : RegistryState) (h : IsIndexed s) where
  pub find_module-scan : (k : Bytes) → find_module s k ≡ scan_module s.modules k
  unfolding find_module scan_module
  find_module-scan k = elim (Option-cases (last_named module_name_of k 0 s.modules)) [
    | inl e ↦ ground (arith, h.modules_found k, e)
    | inr ((i, md), e) ↦
        let (d, p, q, r) = last_named-get module_name_of k 0 s.modules {j = i} {x = md} e in
        ground (arith, h.modules_found k, e, p, q)
  ]

  pub find_entry-scan : (k f : Bytes) → find_entry s k f ≡ scan_entry s.modules k f
  unfolding find_entry scan_entry scan_module lookup
  find_entry-scan k f = elim (Option-cases (last_named module_name_of k 0 s.modules)) [
    | inl e ↦ ground (arith, h.modules_found k, e)
    | inr ((i, md), e) ↦
        let (d, p, q, r) = last_named-get module_name_of k 0 s.modules {j = i} {x = md} e in
        let found : get_elem? s.modules i ≡ some md = ground (arith, p, q) in
        elim (Option-cases (last_named entry_name f 0 md.entries)) [
          | inl e' ↦ ground (
            arith,
            h.modules_found k,
            e,
            found,
            h.exports_found i md found,
            lookup-index_entries f 0 md.entries [],
            e',
          )
          | inr ((j, x), e') ↦
              let (d', p', q', r') = last_named-get entry_name f 0 md.entries {j = j} {x = x} e' in
              ground (
                arith,
                h.modules_found k,
                e,
                found,
                h.exports_found i md found,
                lookup-index_entries f 0 md.entries [],
                e',
                p',
                q',
              )
        ]
  ]
