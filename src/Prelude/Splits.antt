-- ===== src/Prelude/Splits.antt =====
-- A list in two pieces, under the library's names over native numbers, and the slices of Lists of a
-- list that is in two pieces.
use Prim.Native.Nat.{ℕ, zero, suc, ◌+◌, ◌≤◌, min}
use mathlib.Core.Path.{◌≡◌, refl}
use mathlib.Core.List.{List, [], ◌∷◌, ◌++◌}
use mathlib.Core.Option.{Option, none, some}
use mathlib.Core.Logic.{inl, inr}
use native.Mathlib.Omega.{arith}
use glu_core.Prelude.Tests.{Option-cases}
use glu_core.Prelude.Lists.{length, take?, drop?}

module _ {ℓ} {A : Type ℓ} where
  abbrev pub take : ℕ → List A → List A
  take zero xs = []
  take (suc n) [] = []
  take (suc n) (x ∷ xs) = x ∷ take n xs

  abbrev pub drop : ℕ → List A → List A
  drop zero xs = xs
  drop (suc n) [] = []
  drop (suc n) (x ∷ xs) = drop n xs

  -- `prefix` in front of what is there, if anything is.
  abbrev pub before : List A → Option (List A) → Option (List A)
  before prefix none = none
  before prefix (some xs) = some (prefix ++ xs)

  pub take-drop : (n : ℕ) (xs : List A) → take n xs ++ drop n xs ≡ xs
  take-drop zero xs = refl
  take-drop (suc n) [] = refl
  take-drop (suc n) (x ∷ xs) = rw (take-drop n xs)

  pub length-take : (n : ℕ) (xs : List A) → length (take n xs) ≡ min n (length xs)
  length-take zero xs = omega arith
  length-take (suc n) [] = omega arith
  length-take (suc n) (x ∷ xs) = omega (arith, length-take n xs)

  pub length-drop : (n : ℕ) (xs : List A) → length (drop n xs) + min n (length xs) ≡ length xs
  length-drop zero xs = omega arith
  length-drop (suc n) [] = omega arith
  length-drop (suc n) (x ∷ xs) = omega (arith, length-drop n xs)

  pub take?-pieces :
      (xs ys : List A) (m : ℕ) → take? (length xs + m) (xs ++ ys) ≡ before xs (take? m ys)
  take?-pieces [] ys m = elim (Option-cases (take? m ys)) [
    | inl e ↦ ground (arith, e)
    | inr (zs, e) ↦ ground (arith, e)
  ]
  take?-pieces (x ∷ xs) ys m =
      let shift : length (x ∷ xs) + m ≡ suc (length xs + m) = omega arith in
      elim (Option-cases (take? m ys)) [
        | inl e ↦ rw shift (ground (arith, take?-pieces xs ys m, e))
        | inr (zs, e) ↦ rw shift (ground (arith, take?-pieces xs ys m, e))
      ]

  pub drop?-pieces : (xs ys : List A) (m : ℕ) → drop? (length xs + m) (xs ++ ys) ≡ drop? m ys
  drop?-pieces [] ys m = let e : 0 + m ≡ m = omega arith in rw e
  drop?-pieces (x ∷ xs) ys m =
      let shift : length (x ∷ xs) + m ≡ suc (length xs + m) = omega arith in
      rw shift (drop?-pieces xs ys m)

  -- As much as there is, or less.
  pub take?-take : (n : ℕ) (xs : List A) → n ≤ length xs → take? n xs ≡ some (take n xs)
  take?-take zero xs h = refl
  take?-take (suc n) [] h = absurd (omega arith)
  take?-take (suc n) (x ∷ xs) h = ground (arith, take?-take n xs (omega arith))

  pub drop?-drop : (n : ℕ) (xs : List A) → n ≤ length xs → drop? n xs ≡ some (drop n xs)
  drop?-drop zero xs h = refl
  drop?-drop (suc n) [] h = absurd (omega arith)
  drop?-drop (suc n) (x ∷ xs) h = drop?-drop n xs (omega arith)

  pub take-nil : (n : ℕ) (xs : List A) {k : ℕ} → k ≡ suc n → take k xs ≡ [] → xs ≡ []
  take-nil n [] e h = refl
  take-nil n (x ∷ xs) e h = absurd (ground (arith, e, h))
