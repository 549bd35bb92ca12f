-- ===== src/Physics/Abi/Search.antt =====
-- Which core the search finds.
use mathlib.Core.Path.{subst}
use glu_core.Prelude.{
  ℕ, ◌≡◌, sym, ◌∙◌, ◌↔◌, ◌⊎◌, none, some, List, [], ◌∷◌, Bytes, codes, arith, inl, inr,
  Option-cases,
}
use glu_core.Outcome.{ok, panic}
use glu_core.Physics.Abi.{Loader, CoreAbi, open_candidate, symbols, resolve, abi}

module _ (loader : Loader) where
  -- `c` is an image that is loaded, or is not but can be.
  abbrev pub Opens : Bytes → ℕ → Type 0
  Opens c h =
      (loader.dlopen c 0x105 ≡ some h)
      ⊎ ((loader.dlopen c 0x105 ≡ none) × (loader.dlopen c 0x101 ≡ some h))

  -- The core's two functions are in the image.
  abbrev pub HasCore : ℕ → CoreAbi → Type 0
  HasCore h a =
      (loader.dlsym h (codes "glucore_call") ≡ some a.call)
      × (loader.dlsym h (codes "glucore_set_caller_identity") ≡ some a.set_caller)

  -- `c` can be opened, and has them.
  abbrev pub Offers : Bytes → CoreAbi → Type 0
  Offers c a = (h : ℕ) × Opens c h × HasCore h a

  open_candidate_iff : (c : Bytes) (h : ℕ) → (open_candidate loader c ≡ some h) ↔ Opens c h
  unfolding open_candidate
  open_candidate_iff c h = elim (Option-cases (loader.dlopen c 0x105)) [
    | inl e ↦ ground (arith, e)
    | inr (h', e) ↦ ground (arith, e)
  ]

  symbols_iff : (h : ℕ) (a : CoreAbi) → (symbols loader h ≡ some a) ↔ HasCore h a
  unfolding symbols
  symbols_iff h a = ground arith

  offer-cases :
      (c : Bytes) (cs : List Bytes)
      → ((a : CoreAbi) × Offers c a × (resolve loader (c ∷ cs) ≡ some a))
        ⊎ (((a : CoreAbi) → ¬ Offers c a) × (resolve loader (c ∷ cs) ≡ resolve loader cs))
  unfolding resolve
  offer-cases c cs = elim (Option-cases (open_candidate loader c)) [
    | inl closed ↦ inr (
      λ a (h, opens, core). absurd (ground (arith, closed, (open_candidate_iff c h).1 opens)),
      rw (closed, resolve),
    )
    | inr (h, opened) ↦ elim (Option-cases (symbols loader h)) [
      | inl missing ↦ inr (
        λ a (h', opens, core).
            let same : h ≡ h' = ground (arith, opened, (open_candidate_iff c h').1 opens) in
            absurd (ground (arith, missing, same, (symbols_iff h' a).1 core)),
        rw (opened, missing, resolve),
      )
      | inr (a, there) ↦ inl (
        a,
        (h, (open_candidate_iff c h).0 opened, (symbols_iff h a).0 there),
        rw (opened, there, resolve),
      )
    ]
  ]

  Offers-unique : (c : Bytes) (a b : CoreAbi) → Offers c a → Offers c b → a ≡ b
  Offers-unique c a b (h, opens, core) (h', opens', core') =
      let same : h ≡ h' =
        ground (arith, (open_candidate_iff c h).1 opens, (open_candidate_iff c h').1 opens') in
      ground (arith, same, (symbols_iff h a).1 core, (symbols_iff h' b).1 core')

  -- `a` is offered by a candidate, and nothing is by those before it.
  abbrev pub FirstOffer : List Bytes → CoreAbi → Type 0
  FirstOffer [] a = ⊥
  FirstOffer (c ∷ cs) a = Offers c a ⊎ (((b : CoreAbi) → ¬ Offers c b) × FirstOffer cs a)

  resolve-FirstOffer :
      (cs : List Bytes) (a : CoreAbi) → resolve loader cs ≡ some a → FirstOffer cs a
  resolve-FirstOffer [] a e = absurd (unfold resolve in (cc))
  resolve-FirstOffer (c ∷ cs) a e = elim (offer-cases c cs) [
    | inl (b, offers, found) ↦
        let same : b ≡ a = ground (arith, found, e) in inl (subst (Offers c) same offers)
    | inr (nothing, on) ↦ inr (nothing, resolve-FirstOffer cs a (sym on ∙ e))
  ]

  FirstOffer-resolve :
      (cs : List Bytes) (a : CoreAbi) → FirstOffer cs a → resolve loader cs ≡ some a
  FirstOffer-resolve [] a first = absurd first
  FirstOffer-resolve (c ∷ cs) a (inl offers) = elim (offer-cases c cs) [
    | inl (b, offers', found) ↦ rw (Offers-unique c b a offers' offers) at found
    | inr (nothing, on) ↦ absurd (nothing a offers)
  ]
  FirstOffer-resolve (c ∷ cs) a (inr (before, first)) = elim (offer-cases c cs) [
    | inl (b, offers, found) ↦ absurd (before b offers)
    | inr (nothing, on) ↦ on ∙ FirstOffer-resolve cs a first
  ]

  kept_iff :
      (cs : List Bytes) (a : CoreAbi)
      → (abi loader cs none ≡ (ok a, some a)) ↔ (resolve loader cs ≡ some a)
  unfolding abi
  kept_iff cs a = ground arith

  lost_iff : (cs : List Bytes) → (abi loader cs none ≡ (panic, none)) ↔ (resolve loader cs ≡ none)
  unfolding abi
  lost_iff cs = ground arith

  -- The first use of the core's interface finds, and keeps, exactly the first candidate that is an
  -- image, already loaded or else loaded now, with both of the core's functions; it panics exactly
  -- where no candidate is that, and keeps nothing.
  pub abi_finds :
      (cs : List Bytes)
      → ((a : CoreAbi) → (abi loader cs none ≡ (ok a, some a)) ↔ FirstOffer cs a)
        × ((abi loader cs none ≡ (panic, none)) ↔ ((a : CoreAbi) → ¬ FirstOffer cs a))
  unfolding abi
  abi_finds cs = (
    λ a. (
      λ kept. resolve-FirstOffer cs a ((kept_iff cs a).0 kept),
      λ first. (kept_iff cs a).1 (FirstOffer-resolve cs a first),
    ),
    (
      λ lost a first. absurd (ground (arith, (lost_iff cs).0 lost, FirstOffer-resolve cs a first)),
      λ nothing. (lost_iff cs).1 (elim (Option-cases (resolve loader cs)) [
        | inl e ↦ e
        | inr (b, e) ↦ absurd (nothing b (resolve-FirstOffer cs b e))
      ]),
    ),
  )
