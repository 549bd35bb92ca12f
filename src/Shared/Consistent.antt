-- ===== src/Shared/Consistent.antt =====
-- What `dispatch` reads under several locks fits together, whatever other threads do in between.
use glu_core.Prelude.{
  ℕ, ◌+◌, ◌≡◌, refl, sym, none, some, List, [], ◌∷◌, Bytes, get_elem?, bytes_eq, All, ◌∙◌, arith,
}
use glu_core.Prelude.Map.{lookup}
use glu_core.Types.{GluSignature, GluExportEntry, ipc_wrapper}
use glu_core.Handles.{find_entry}
use glu_core.Handles.Index.{IsIndexed}
use glu_core.World.{World}
use glu_core.World.Routes.{base_or_zero, meta_of, IsRouted}
use glu_core.Process.{install}
use glu_core.Shared.{Shared, Action, begins, finishes, begun, finished, act, acts}
use glu_core.Shared.Avoiding.{Avoids, acts-Left, acts-Grows}

-- The two parts of a registration are together the registration of Process.
begins-finishes :
    (fd : ℕ) (name : Bytes) (exports : List (Bytes × GluSignature)) (w : World)
    → acts (begins fd name exports ∷ finishes ∷ []) (record { tables = w; pending = none })
      ≡ some (record { tables = install fd name exports w; pending = none })
unfolding acts act begun finished install
begins-finishes fd name exports w = refl

-- From a state where no registration holds the lock and the tables route the calls of process
-- modules: `dispatch` reads the module's socket there, the function's entry after some actions of
-- other threads, and the module's first index after more of them; the wrapper reads the export at
-- the index that these make after still more. If none of the actions up to the third reading
-- registers that name, and the entry is called through the wrapper of process modules, then the export
-- is the function of that name and signature, in that module, on that socket.
pub readings_agree :
    (m f : Bytes) (w : World) (first second third : List Action) (s₁ s₂ s₃ : Shared) (fd i : ℕ)
    (e : GluExportEntry)
    → IsIndexed w.registry
    → IsRouted w
    → acts first (record { tables = w; pending = none }) ≡ some s₁
    → acts second s₁ ≡ some s₂
    → acts third s₂ ≡ some s₃
    → All (Avoids m) first
    → All (Avoids m) second
    → lookup m w.ipc.module_sockets ≡ some fd
    → find_entry s₁.tables.registry m f ≡ some (i, e)
    → e.wrapper ≡ ipc_wrapper
    → get_elem? s₃.tables.ipc.exports (base_or_zero (lookup m s₂.tables.ipc.module_base_idx) + i)
      ≡ some (meta_of fd m (f, e.signature))
readings_agree m f w first second third s₁ s₂ s₃ fd i e ix r run₁ run₂ run₃ av₁ av₂ socket entry
      wrapper =
    let s₀ : Shared = record { tables = w; pending = none } in
    let (same₁, held₁) = acts-Left m first s₀ s₁ av₁ tt ix run₁ in
    let (same₂, held₂) = acts-Left m second s₁ s₂ av₂ held₁ same₁.indexed run₂ in
    let (fd', socket', led) = r.routed m f i e (sym (same₁.entry f) ∙ entry) wrapper in
    let one : fd' ≡ fd = ground (arith, socket, socket') in
    let base : lookup m s₂.tables.ipc.module_base_idx ≡ lookup m w.ipc.module_base_idx =
      same₂.base ∙ same₁.base in
    let x = meta_of fd m (f, e.signature) in
    let n = base_or_zero (lookup m w.ipc.module_base_idx) + i in
    let export : get_elem? w.ipc.exports n ≡ some x = rw one at led in
    let kept = (acts-Grows third s₂ s₃ run₃).exports n x (
      (acts-Grows second s₁ s₂ run₂).exports n x
        ((acts-Grows first s₀ s₁ run₁).exports n x export)) in
    rw base kept
