-- ===== src/Program/Adds.antt =====
-- The links that compiled code adds.
use mathlib.Core.Path.{subst}
use glu_core.Prelude.{
  ℕ, ◌≡◌, ◌⊎◌, true, Option, none, some, Bytes, arith, Bool-cases, inl, inr, bytes_eq,
  bytes_beq_iff,
}
use glu_core.Types.{GluResult, GluSlice}
use glu_core.Router.{is_link_allowed_bytes, glucore_add_link}
use glu_core.Router.Links.{is_link_allowed-add_link}
use glu_core.World.{World}
use glu_core.World.Later.{Anywhere}
use glu_core.Program.{
  Program, done, crash, wild, set_identity, ask, call, read, alloc, free, add_link, register,
  register_process, Answer,
}

abbrev pub MayAdd : (Bytes → Bytes → Type 0) → Option Bytes → Option Bytes → Type 0
MayAdd P none callee = Unit
MayAdd P (some caller) none = Unit
MayAdd P (some caller) (some callee) = P caller callee

-- The links that the program adds are in `P`, whatever it is answered.
abbrev pub AddsOnly : (Bytes → Bytes → Type 0) → Program → Type 0
AddsOnly P (done r) = Unit
AddsOnly P crash = Unit
AddsOnly P wild = Unit
AddsOnly P (set_identity name p) = AddsOnly P p
AddsOnly P (ask q next) = (a : Answer q) → AddsOnly P (next a)
AddsOnly P (call m f args next) = (r : GluResult) → AddsOnly P (next r)
AddsOnly P (read s next) = (bytes : Bytes) → AddsOnly P (next bytes)
AddsOnly P (alloc bytes next) = (s : GluSlice) → AddsOnly P (next s)
AddsOnly P (free ptr len p) = AddsOnly P p
AddsOnly P (add_link a b p) = MayAdd P a b × AddsOnly P p
AddsOnly P (register m p) = AddsOnly P p
AddsOnly P (register_process spawned os name path command next) = (c : ℕ) → AddsOnly P (next c)

MayAdd-Anywhere : (a b : Option Bytes) → MayAdd Anywhere a b
MayAdd-Anywhere none b = tt
MayAdd-Anywhere (some a) none = tt
MayAdd-Anywhere (some a) (some b) = tt

pub AddsOnly-Anywhere : (p : Program) → AddsOnly Anywhere p
AddsOnly-Anywhere (done r) = tt
AddsOnly-Anywhere crash = tt
AddsOnly-Anywhere wild = tt
AddsOnly-Anywhere (set_identity name p) = AddsOnly-Anywhere p
AddsOnly-Anywhere (ask q next) = λ a. AddsOnly-Anywhere (next a)
AddsOnly-Anywhere (call m f args next) = λ r. AddsOnly-Anywhere (next r)
AddsOnly-Anywhere (read s next) = λ bytes. AddsOnly-Anywhere (next bytes)
AddsOnly-Anywhere (alloc bytes next) = λ s. AddsOnly-Anywhere (next s)
AddsOnly-Anywhere (free ptr len p) = AddsOnly-Anywhere p
AddsOnly-Anywhere (add_link a b p) = (MayAdd-Anywhere a b, AddsOnly-Anywhere p)
AddsOnly-Anywhere (register m p) = AddsOnly-Anywhere p
AddsOnly-Anywhere (register_process spawned os name path command next) =
    λ c. AddsOnly-Anywhere (next c)

pub add_link-MayAdd :
    (P : Bytes → Bytes → Type 0) (x y : Option Bytes) (w : World) (a b : Bytes)
    → MayAdd P x y
    → is_link_allowed_bytes (glucore_add_link x y w.links) a b ≡ true
    → (is_link_allowed_bytes w.links a b ≡ true) ⊎ P a b
add_link-MayAdd P none y w a b p h = inl (unfold glucore_add_link in h)
add_link-MayAdd P (some x) none w a b p h = inl (unfold glucore_add_link in h)
add_link-MayAdd P (some x) (some y) w a b p h =
    let added = is_link_allowed-add_link w.links x y a b in
    elim (Bool-cases (is_link_allowed_bytes w.links a b)) [
      | inl there ↦ inl there
      | inr new ↦
          let from : x ≡ a = ground (arith, added, h, new, bytes_beq_iff x a) in
          let to : y ≡ b = ground (arith, added, h, new, bytes_beq_iff y b) in
          inr (subst (λ z. P z b) from (subst (P x) to p))
    ]

pub add_link-grows :
    (x y : Option Bytes) (w : World) (a b : Bytes)
    → is_link_allowed_bytes w.links a b ≡ true
    → is_link_allowed_bytes (glucore_add_link x y w.links) a b ≡ true
add_link-grows none y w a b h = unfold glucore_add_link in h
add_link-grows (some x) none w a b h = unfold glucore_add_link in h
add_link-grows (some x) (some y) w a b h =
    ground (arith, is_link_allowed-add_link w.links x y a b, h)
