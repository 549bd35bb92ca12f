-- ===== src/Shared/Avoiding.antt =====
-- What actions of other threads keep, where they leave a module alone.
use mathlib.Core.Path.{subst}
use glu_core.Prelude.{
  ℕ, ◌≡◌, refl, false, Option, none, some, List, [], ◌∷◌, map, Bytes, length, get_elem?, bytes_eq,
  arith, ◌==◌, All, Option-cases, inl, inr, ◌∙◌,
}
use glu_core.Prelude.Map.{lookup, lookup-insert}
use glu_core.Types.{GluModule}
use glu_core.Handles.{find_entry, glucore_register_module}
use glu_core.Handles.Index.{IsIndexed, glucore_register_module-IsIndexed}
use glu_core.Handles.Lookup.{find_entry-glucore_register_module}
use glu_core.World.{World, IpcExportMeta}
use glu_core.World.Routes.{meta_of}
use glu_core.Process.{entry_of}
use glu_core.Process.Installs.{get_elem?-append-left}
use glu_core.Shared.{
  Pending, Shared, Action, registers, begins, finishes, begun, finished, act, acts,
}

-- The action does not register the name `m`.
abbrev pub Avoids : Bytes → Action → Type 0
Avoids m (registers md) = (md.name == m) ≡ false
Avoids m (begins fd name exports) = (name == m) ≡ false
Avoids m finishes = Unit

abbrev pub PendingAvoids : Bytes → Option Pending → Type 0
PendingAvoids m none = Unit
PendingAvoids m (some p) = (p.module_name == m) ≡ false

-- What is known of the module `m` is the same.
pub record Same (m : Bytes) (w w' : World) : Type 0 where
  pub entry : (f : Bytes) → find_entry w'.registry m f ≡ find_entry w.registry m f
  pub base : lookup m w'.ipc.module_base_idx ≡ lookup m w.ipc.module_base_idx
  pub indexed : IsIndexed w'.registry

-- Exports are never taken away.
pub record Grows (w w' : World) : Type 0 where
  pub exports :
      (i : ℕ) (x : IpcExportMeta)
      → get_elem? w.ipc.exports i ≡ some x
      → get_elem? w'.ipc.exports i ≡ some x

act-Grows : (a : Action) (s s' : Shared) → act a s ≡ some s' → Grows s.tables s'.tables
unfolding act begun finished
act-Grows (registers md) s s' e = record { exports = λ i x h. ground (arith, e, h) }
act-Grows (begins fd name exports) s s' e = elim (Option-cases s.pending) [
  | inl free ↦ record {
    exports = λ i x h. ground (
      arith,
      e,
      free,
      get_elem?-append-left s.tables.ipc.exports (map (meta_of fd name) exports) i {x = x} h,
    );
  }
  | inr (p, held) ↦ absurd (ground (arith, e, held))
]
act-Grows finishes s s' e = elim (Option-cases s.pending) [
  | inl free ↦ absurd (ground (arith, e, free))
  | inr (p, held) ↦ record { exports = λ i x h. ground (arith, e, held, h) }
]

-- What a state has to keep while the module `m` is left alone.
abbrev pub Left : Bytes → World → Shared → Type 0
Left m w s = Same m w s.tables × PendingAvoids m s.pending

registered_other :
    (m f : Bytes) (md : GluModule) (w : World)
    → (md.name == m) ≡ false
    → IsIndexed w.registry
    → find_entry (glucore_register_module md w.registry) m f ≡ find_entry w.registry m f
registered_other m f md w other ix =
    ground (arith, find_entry-glucore_register_module md w.registry m f ix, other)

Left-finished :
    (m : Bytes) (p : Pending) (w : World)
    → (p.module_name == m) ≡ false
    → IsIndexed w.registry
    → Left m w (record { tables = finished p w; pending = none })
unfolding finished
Left-finished m p w other ix = (
  record {
    entry = λ f. refl;
    base = ground (arith, lookup-insert p.module_name m p.base_idx w.ipc.module_base_idx, other);
    indexed = ix;
  },
  tt,
)

act-Left :
    (m : Bytes) (a : Action) (s s' : Shared)
    → Avoids m a
    → PendingAvoids m s.pending
    → IsIndexed s.tables.registry
    → act a s ≡ some s'
    → Left m s.tables s'
unfolding act begun
act-Left m (registers md) s s' av pa ix e =
    let after : Shared = record {
      tables = record (s.tables) { registry = glucore_register_module md s.tables.registry };
      pending = s.pending;
    } in
    let same : after ≡ s' = ground (arith, e) in
    subst (Left m s.tables) same (
      record {
        entry = λ f. registered_other m f md s.tables av ix;
        base = refl;
        indexed = glucore_register_module-IsIndexed md s.tables.registry ix;
      },
      pa,
    )
act-Left m (begins fd name exports) s s' av pa ix e = elim (Option-cases s.pending) [
  | inl free ↦
      let md : GluModule = record { name = name; entries = map entry_of exports } in
      let after : Shared = record {
        tables = begun fd name exports s.tables;
        pending =
            some
              (record { sock_fd = fd; module_name = name; base_idx = length s.tables.ipc.exports });
      } in
      let same : after ≡ s' = ground (arith, e, free) in
      subst (Left m s.tables) same (
        record {
          entry = λ f. registered_other m f md s.tables av ix;
          base = refl;
          indexed = glucore_register_module-IsIndexed md s.tables.registry ix;
        },
        av,
      )
  | inr (p, held) ↦ absurd (ground (arith, e, held))
]
act-Left m finishes s s' av pa ix e = elim (Option-cases s.pending) [
  | inl free ↦ absurd (ground (arith, e, free))
  | inr (p, held) ↦
      let after : Shared = record { tables = finished p s.tables; pending = none } in
      let same : after ≡ s' = ground (arith, e, held) in
      subst (Left m s.tables) same (Left-finished m p s.tables (rw held at pa) ix)
]

Same-trans : {m : Bytes} {w₁ w₂ w₃ : World} → Same m w₁ w₂ → Same m w₂ w₃ → Same m w₁ w₃
Same-trans h k = record {
  entry = λ f. k.entry f ∙ h.entry f;
  base = k.base ∙ h.base;
  indexed = k.indexed;
}

pub acts-Left :
    (m : Bytes) (as' : List Action) (s s' : Shared)
    → All (Avoids m) as'
    → PendingAvoids m s.pending
    → IsIndexed s.tables.registry
    → acts as' s ≡ some s'
    → Left m s.tables s'
unfolding acts
acts-Left m [] s s' av pa ix e =
    let same : s ≡ s' = ground (arith, e) in
    subst (Left m s.tables) same (record { entry = λ f. refl; base = refl; indexed = ix }, pa)
acts-Left m (a ∷ as') s s' av pa ix e = elim (Option-cases (act a s)) [
  | inl stuck ↦ absurd (ground (arith, stuck, e))
  | inr (t, next) ↦
      let (here, held) = act-Left m a s t av.0 pa ix next in
      let (there, held') = acts-Left m as' t s' av.1 held here.indexed (rw (next, acts) at e) in
      (Same-trans here there, held')
]

pub acts-Grows :
    (as' : List Action) (s s' : Shared) → acts as' s ≡ some s' → Grows s.tables s'.tables
unfolding acts
acts-Grows [] s s' e = record { exports = λ i x h. ground (arith, e, h) }
acts-Grows (a ∷ as') s s' e = elim (Option-cases (act a s)) [
  | inl stuck ↦ absurd (ground (arith, stuck, e))
  | inr (t, next) ↦
      let here = act-Grows a s t next in
      let there = acts-Grows as' t s' (rw (next, acts) at e) in
      record { exports = λ i x h. there.exports i x (here.exports i x h) }
]
