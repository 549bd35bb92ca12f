-- ===== src/Process/Installs.antt =====
-- What the installation of a process module (core/src/runtime.rs) does to the routing of calls.
use glu_core.Prelude.{
  ℕ, zero, suc, ◌+◌, ◌≡◌, some, List, [], ◌∷◌, ◌++◌, map, Bytes, length, get_elem?, arith,
  Bool-cases, inl, inr, bytes_eq, bytes_beq_iff, ◌==◌,
}
use glu_core.Prelude.Map.{lookup, lookup-insert}
use glu_core.Types.{GluSignature, GluExportEntry, ipc_wrapper}
use glu_core.Handles.{find_entry}
use glu_core.Handles.Scan.{last_named, last_named-get}
use glu_core.Handles.Index.{IsIndexed, entry_name}
use glu_core.Handles.Lookup.{find_entry-glucore_register_module}
use glu_core.World.{World, IpcExportMeta}
use glu_core.World.Routes.{base_or_zero, meta_of, Leads, IsRouted}
use glu_core.Process.{entry_of, install}

get_elem?-append-right :
    (xs ys : List IpcExportMeta) (i : ℕ) → get_elem? (xs ++ ys) (length xs + i) ≡ get_elem? ys i
get_elem?-append-right [] ys i = let e : 0 + i ≡ i = omega arith in rw e
get_elem?-append-right (x ∷ xs) ys i =
    let e : suc (length xs) + i ≡ suc (length xs + i) = omega arith in
    rw e (get_elem?-append-right xs ys i)

pub get_elem?-append-left :
    (xs ys : List IpcExportMeta) (i : ℕ) {x : IpcExportMeta}
    → get_elem? xs i ≡ some x
    → get_elem? (xs ++ ys) i ≡ some x
get_elem?-append-left [] ys i h = absurd (cc)
get_elem?-append-left (x ∷ xs) ys zero h = h
get_elem?-append-left (x ∷ xs) ys (suc i) {x = y} h = get_elem?-append-left xs ys i {x = y} h

-- An entry and the metadata of one export stand at one index.
exports-at :
    (fd : ℕ) (k : Bytes) (exports : List (Bytes × GluSignature)) (d : ℕ) {e : GluExportEntry}
    → get_elem? (map entry_of exports) d ≡ some e
    → get_elem? (map (meta_of fd k) exports) d ≡ some (meta_of fd k (e.name, e.signature))
exports-at fd k [] d h = absurd (cc)
exports-at fd k (x ∷ exports) zero h = ground (arith, h)
exports-at fd k (x ∷ exports) (suc d) {e = e} h = exports-at fd k exports d {e = e} h

module _ (fd : ℕ) (name : Bytes) (exports : List (Bytes × GluSignature)) (w : World)
    (ix : IsIndexed w.registry) (r : IsRouted w) where
  abbrev installed : World
  unfolding install
  installed = install fd name exports w

  install-routed :
      (k f : Bytes) (i : ℕ) (e : GluExportEntry)
      → find_entry installed.registry k f ≡ some (i, e)
      → e.wrapper ≡ ipc_wrapper
      → Leads installed.ipc k f i e
  unfolding install
  install-routed k f i e found wrapper =
      let entries = map entry_of exports in
      let entry =
        find_entry-glucore_register_module (record { name = name; entries = entries }) w.registry k
          f ix in
      let socket = lookup-insert name k fd w.ipc.module_sockets in
      let base = lookup-insert name k (length w.ipc.exports) w.ipc.module_base_idx in
      elim (Bool-cases (name == k)) [
        | inl same ↦
            let here : last_named entry_name f 0 entries ≡ some (i, e) =
              ground (arith, same, entry, found) in
            let (d, p, q, named) = last_named-get entry_name f 0 entries {j = i} {x = e} here in
            (
              fd,
              ground (arith, same, socket),
              ground (
                arith,
                same,
                bytes_beq_iff name k,
                base,
                p,
                exports-at fd k exports d {e = e} q,
                named,
                get_elem?-append-right w.ipc.exports (map (meta_of fd k) exports) d,
              ),
            )
        | inr other ↦
            let (fd', before, export) =
              r.routed k f i e (ground (arith, other, entry, found)) wrapper in
            (
              fd',
              ground (arith, other, socket, before),
              ground (
                arith,
                other,
                base,
                get_elem?-append-left w.ipc.exports (map (meta_of fd name) exports)
                    (base_or_zero (lookup k w.ipc.module_base_idx) + i)
                    {x = meta_of fd' k (f, e.signature)} export,
              ),
            )
      ]

-- A registration that succeeds keeps every function that is called through the wrapper of process
-- modules routed to its own module's socket, also where it replaces a module: it overwrites the
-- module's functions, its socket and its first index together. The registry's indexes must describe
-- its modules.
pub install-IsRouted :
    (fd : ℕ) (name : Bytes) (exports : List (Bytes × GluSignature)) (w : World)
    → IsIndexed w.registry
    → IsRouted w
    → IsRouted (install fd name exports w)
unfolding install
install-IsRouted fd name exports w ix r = record {
  routed = λ k f i e found wrapper. install-routed fd name exports w ix r k f i e found wrapper;
}
