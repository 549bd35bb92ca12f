-- ===== src/Handles/Lookup.antt =====
-- What the registry's functions return after any registrations.
use glu_core.Prelude.{
  ℕ, ◌≤◌, ◌<◌, ◌≡◌, ◌≢◌, ◌↔◌, refl, sym, ap, ◌∙◌, Option, none, some, List, [], ◌∷◌, ◌++◌, Bytes,
  get_elem?, bytes_eq, nat_eq, ◌==◌, if◌then◌else◌, arith, Bool-cases, Option-cases, inl, inr,
  get_elem?_range, get_elem?-some, append-nil, append_assoc,
}
use glu_core.Types.{GluExportEntry, GluModule, GluWrapper}
use glu_core.Handles.{
  RegistryState, empty_registry, glucore_register_module, find_entry, find_export, find_module,
  glucore_get_signature, glucore_get_module_export_count, glucore_get_module_export_name,
  signature_or_empty, count_of,
}
use glu_core.Handles.Scan.{last_named, last_named-append, last_named-found}
use glu_core.Handles.Index.{
  entry_name, module_name_of, IsIndexed, IsIndexed-empty, glucore_register_module-IsIndexed,
  register_all, register_all-IsIndexed, scan_module, scan_entry, find_module-scan, find_entry-scan,
}

modules-register_all :
    (ms : List GluModule) (s : RegistryState) → (register_all ms s).modules ≡ s.modules ++ ms
unfolding register_all glucore_register_module
modules-register_all [] s = sym (append-nil s.modules)
modules-register_all (m ∷ ms) s =
    modules-register_all ms (glucore_register_module m s) ∙ append_assoc s.modules (m ∷ []) ms

abbrev pub wrapper_of : Option (ℕ × GluExportEntry) → Option (ℕ × GluWrapper)
wrapper_of none = none
wrapper_of (some (i, e)) = some (i, e.wrapper)

-- After any registrations, the indexed lookups are those of a scan of the modules in the order in
-- which they were registered: a function is found in the last module of its module's name, as the
-- last entry of its own name, with the wrapper, the position and the signature of that entry (the
-- empty signature if there is none), and the count of exports is that of the last module of the
-- name (0 if there is none).
pub registry_lookups :
    (ms : List GluModule) (k f : Bytes)
    → (find_export (register_all ms empty_registry) k f ≡ wrapper_of (scan_entry ms k f))
      × (glucore_get_signature (register_all ms empty_registry) (some k) (some f)
          ≡ signature_or_empty (scan_entry ms k f))
      × (glucore_get_module_export_count (register_all ms empty_registry) (some k)
          ≡ count_of (scan_module ms k))
unfolding find_export glucore_get_signature glucore_get_module_export_count
registry_lookups ms k f =
    let s = register_all ms empty_registry in
    let i = register_all-IsIndexed ms empty_registry IsIndexed-empty in
    let e : find_entry s k f ≡ scan_entry ms k f =
      find_entry-scan s i k f
      ∙ ap (λ (l : List GluModule). scan_entry l k f) (modules-register_all ms empty_registry) in
    let m : find_module s k ≡ scan_module ms k =
      find_module-scan s i k
      ∙ ap (λ (l : List GluModule). scan_module l k) (modules-register_all ms empty_registry) in
    (ground (arith, e), ground (arith, e), ground (arith, m))

pub find_entry-glucore_register_module :
    (m : GluModule) (s : RegistryState) (k f : Bytes)
    → IsIndexed s
    → find_entry (glucore_register_module m s) k f
      ≡ (if m.name == k then last_named entry_name f 0 m.entries else find_entry s k f)
unfolding scan_entry scan_module glucore_register_module
find_entry-glucore_register_module m s k f h =
    let new =
      find_entry-scan (glucore_register_module m s) (glucore_register_module-IsIndexed m s h) k f in
    elim (Bool-cases (m.name == k)) [
      | inl e ↦ ground (arith, e, new, last_named-append module_name_of k 0 s.modules m)
      | inr e ↦
          ground (
            arith,
            e,
            new,
            last_named-append module_name_of k 0 s.modules m,
            find_entry-scan s h k f,
          )
    ]

-- A registration replaces the exports of its own module name, all of them, and leaves the lookups
-- under every other name as they were, in a registry whose indexes describe its modules.
pub find_export-glucore_register_module :
    (m : GluModule) (s : RegistryState) (k f : Bytes)
    → IsIndexed s
    → find_export (glucore_register_module m s) k f ≡ (
        if m.name == k then wrapper_of (last_named entry_name f 0 m.entries) else find_export s k f)
unfolding find_export
find_export-glucore_register_module m s k f h =
    ground (arith, find_entry-glucore_register_module m s k f h)

-- The functions of a module that is found, at an index of the export list.
module _ (s : RegistryState) (k : Bytes) (h : IsIndexed s) {md : GluModule}
    (found : find_module s k ≡ some md) where
  enumerated_found :
      (index : ℕ) (e : GluExportEntry)
      → get_elem? md.entries index ≡ some e
      → (j : ℕ) × (w : GluWrapper) × (find_export s k e.name ≡ some (j, w)) × (index ≤ j)
  unfolding find_export scan_entry
  enumerated_found index e at_index =
      let (p, a, b, c) = last_named-found entry_name e.name 0 index md.entries at_index refl in
      (
        p.0,
        p.1.wrapper,
        ground (arith, find_entry-scan s h k e.name, find_module-scan s h k, found, a),
        omega (arith, b),
      )

-- An index has an export name exactly when it is below the module's export count.
pub export_name_iff :
    (s : RegistryState) (k : Bytes) (index : ℕ)
    → (index < glucore_get_module_export_count s (some k))
      ↔ (glucore_get_module_export_name s (some k) index ≢ none)
unfolding glucore_get_module_export_count glucore_get_module_export_name
export_name_iff s k index = elim (Option-cases (find_module s k)) [
  | inl e ↦ (λ lt. absurd (ground (arith, e, lt)), λ ne. absurd (ne (ground (arith, e))))
  | inr (md, e) ↦ elim (Option-cases (get_elem? md.entries index)) [
    | inl none_there ↦ (
      λ lt.
          let (x, there) = get_elem?-some md.entries index (ground (arith, e, lt)) in
          absurd (cc (there, none_there)),
      λ ne. absurd (ne (ground (arith, e, none_there))),
    )
    | inr (x, there) ↦ (
      λ lt is_none. absurd (ground (arith, e, there, is_none)),
      λ ne. ground (arith, e, get_elem?_range md.entries index there),
    )
  ]
]

-- Each name that a caller enumerates is the name of a function that is found, at that index of the
-- export list or at a later one, in a registry whose indexes describe its modules.
pub enumerated_export-found :
    (s : RegistryState) (k : Bytes) (index : ℕ) (f : Bytes)
    → IsIndexed s
    → glucore_get_module_export_name s (some k) index ≡ some f
    → (j : ℕ) × (w : GluWrapper) × (find_export s k f ≡ some (j, w)) × (index ≤ j)
unfolding glucore_get_module_export_name
enumerated_export-found s k index f h named = elim (Option-cases (find_module s k)) [
  | inl e ↦ absurd (ground (arith, e, named))
  | inr (md, e) ↦ elim (Option-cases (get_elem? md.entries index)) [
    | inl none_there ↦ absurd (ground (arith, e, none_there, named))
    | inr (x, there) ↦
        let (j, w, a, b) = enumerated_found s k h e index x there in
        (j, w, ground (arith, e, there, named, a), b)
  ]
]
