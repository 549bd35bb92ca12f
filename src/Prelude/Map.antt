-- ===== src/Prelude/Map.antt =====
-- Rust's `HashMap` as an association list and `HashSet` as a list. The program iterates over them
-- only to count, so the order of entries does not matter.
use Prim.Native.Nat.{◌+◌}
use mathlib.Core.Path.{◌≡◌, refl}
use mathlib.Core.Bool.{Bool, true, false, ◌||◌}
use mathlib.Core.Option.{Option, none, some}
use mathlib.Core.List.{List, [], ◌∷◌}
use native.Mathlib.Omega.{arith}
use glu_core.Prelude.Tests.{Eq, ◌==◌, if◌then◌else◌}
use glu_core.Prelude.Lists.{length}

abbrev pub Map {ℓ κ} : Type ℓ → Type κ → Type (ℓ ⊔ κ)
Map K V = List (K × V)

module _ {ℓ κ} {K : Type ℓ} {V : Type κ} ⦃e : Eq K⦄ where
  -- `m.get(&k)`
  unfoldable pub lookup : K → Map K V → Option V
  lookup k [] = none
  lookup k ((key, v) ∷ entries) = let later = lookup k entries in if key == k then some v else later

  -- `m.insert(k, v)`: an old value is overwritten.
  unfoldable pub insert : K → V → Map K V → Map K V
  insert k new [] = (k, new) ∷ []
  insert k new ((key, v) ∷ entries) =
      let kept = insert k new entries in if key == k then (k, new) ∷ entries else (key, v) ∷ kept

  -- `m.remove(&k)`
  unfoldable pub remove : K → Map K V → Map K V
  remove k [] = []
  remove k ((key, v) ∷ entries) =
      let kept = remove k entries in if key == k then kept else (key, v) ∷ kept

  pub lookup-insert :
      (put asked : K) (new : V) (entries : Map K V)
      → lookup asked (insert put new entries)
        ≡ (if put == asked then some new else lookup asked entries)
  unfolding lookup insert
  lookup-insert put asked new [] = refl
  lookup-insert put asked new ((key, v) ∷ entries) = ground (
    arith,
    e.test_iff put asked,
    e.test_iff key put,
    e.test_iff key asked,
    lookup-insert put asked new entries,
  )

  pub lookup-remove :
      (gone asked : K) (entries : Map K V)
      → lookup asked (remove gone entries) ≡ (if gone == asked then none else lookup asked entries)
  unfolding lookup remove
  lookup-remove gone asked [] = ground arith
  lookup-remove gone asked ((key, v) ∷ entries) = ground (
    arith,
    e.test_iff gone asked,
    e.test_iff key gone,
    e.test_iff key asked,
    lookup-remove gone asked entries,
  )

module _ {ℓ} {A : Type ℓ} ⦃e : Eq A⦄ where
  -- `s.contains(&a)`
  unfoldable pub contains : List A → A → Bool
  contains [] a = false
  contains (x ∷ xs) a = x == a || contains xs a

  -- `s.insert(a)`
  unfoldable pub add : A → List A → List A
  unfolding contains
  add a xs = if contains xs a then xs else a ∷ xs

  pub eq_refl : (a : A) → (a == a) ≡ true
  eq_refl a = (e.test_iff a a).1 refl

  pub contains-add : (a b : A) (xs : List A) → contains (add a xs) b ≡ (a == b || contains xs b)
  unfolding add
  contains-add a b xs = ground (arith, e.test_iff a b)

  pub length-add :
      (a : A) (xs : List A)
      → length (add a xs) ≡ (if contains xs a then length xs else length xs + 1)
  unfolding add
  length-add a xs = ground arith
