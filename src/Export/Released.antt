-- ===== src/Export/Released.antt =====
-- The allocation that a result was packed into, and its release by the caller.
use glu_core.Prelude.{ℕ, ◌≡◌, some, nat_eq}
use glu_core.Prelude.Map.{lookup}
use glu_core.Types.{GluSlice}
use glu_core.Memory.{Memory, glucore_free_buffer}
use glu_core.Fctp.Content.{Content}
use glu_core.World.{World}
use glu_core.Export.Native.{Native}

-- `s` can be released, which leaves the blocks of `before`.
abbrev pub ReleasesTo : Memory → GluSlice → Memory → Type 0
ReleasesTo m s before =
    (m' : Memory) × (glucore_free_buffer s.ptr s.len m ≡ some m')
    × ((p : ℕ) → lookup p m'.blocks ≡ lookup p before.blocks)
