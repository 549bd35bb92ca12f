-- ===== src/Prelude/Lists.antt =====
-- Lists measured and indexed by native numbers, under the library's names, and slices that fail
-- where Rust's slice indexing panics.
use Prim.Native.Nat.{ℕ, zero, suc, ◌+◌, ◌<◌, ◌≤◌}
use mathlib.Core.Path.{◌≡◌, refl}
use mathlib.Core.List.{List, [], ◌∷◌, ◌++◌}
use mathlib.Core.Option.{Option, none, some}
use mathlib.Core.Logic.{inl, inr}
use native.Mathlib.Omega.{arith}
use glu_core.Prelude.Tests.{Option-cases, eqb, if◌then◌else◌}

module _ {ℓ} {A : Type ℓ} where
  abbrev pub length : List A → ℕ
  length [] = 0
  length (x ∷ xs) = suc (length xs)

  abbrev pub get_elem? : List A → ℕ → Option A
  get_elem? [] i = none
  get_elem? (x ∷ xs) zero = some x
  get_elem? (x ∷ xs) (suc i) = get_elem? xs i

  -- `&l[..n]` and `&l[n..]`, or nothing where Rust panics.
  abbrev pub take? : ℕ → List A → Option (List A)
  take? zero xs = some []
  take? (suc n) [] = none
  take? (suc n) (x ∷ xs) = elim (take? n xs) [ none ↦ none | some ys ↦ some (x ∷ ys) ]

  abbrev pub drop? : ℕ → List A → Option (List A)
  drop? zero xs = some xs
  drop? (suc n) [] = none
  drop? (suc n) (x ∷ xs) = drop? n xs

  abbrev pub All {κ} : (A → Type κ) → List A → Type κ
  All P [] = Unit {κ}
  All P (x ∷ xs) = P x × All P xs

module _ {ℓ} {A : Type ℓ} where
  pub length-append : (xs ys : List A) → length (xs ++ ys) ≡ length xs + length ys
  length-append [] ys = omega arith
  length-append (x ∷ xs) ys = omega (arith, length-append xs ys)

  pub take?-append : (xs ys : List A) → take? (length xs) (xs ++ ys) ≡ some xs
  take?-append [] ys = refl
  take?-append (x ∷ xs) ys = ground (arith, take?-append xs ys)

  pub drop?-append : (xs ys : List A) → drop? (length xs) (xs ++ ys) ≡ some ys
  drop?-append [] ys = refl
  drop?-append (x ∷ xs) ys = drop?-append xs ys

  -- Dropping in two steps.
  pub drop?-drop? :
      (n m : ℕ) (xs : List A) {ys : List A} → drop? n xs ≡ some ys → drop? (n + m) xs ≡ drop? m ys
  drop?-drop? zero m xs h = ground arith
  drop?-drop? (suc n) m [] h = ground arith
  drop?-drop? (suc n) m (x ∷ xs) {ys} h =
      let e : suc n + m ≡ suc (n + m) = omega arith in rw e (drop?-drop? n m xs {ys = ys} h)

  pub length-drop? :
      (n : ℕ) (xs : List A) {ys : List A} → drop? n xs ≡ some ys → length xs ≡ n + length ys
  length-drop? zero xs h = ground arith
  length-drop? (suc n) [] h = ground arith
  length-drop? (suc n) (x ∷ xs) {ys} h = omega (arith, length-drop? n xs {ys = ys} h)

  pub length-take? : (n : ℕ) (xs : List A) {ys : List A} → take? n xs ≡ some ys → n ≤ length xs
  length-take? zero xs h = omega arith
  length-take? (suc n) [] h = ground arith
  length-take? (suc n) (x ∷ xs) h = elim (Option-cases (take? n xs)) [
    | inl e ↦ ground (arith, e, h)
    | inr (zs, e) ↦ omega (arith, length-take? n xs {ys = zs} e)
  ]

  pub get_elem?-drop? :
      (n : ℕ) (xs : List A) {y : A} {ys : List A}
      → drop? n xs ≡ some (y ∷ ys)
      → get_elem? xs n ≡ some y
  get_elem?-drop? zero [] h = ground arith
  get_elem?-drop? zero (x ∷ xs) h = ground arith
  get_elem?-drop? (suc n) [] h = ground arith
  get_elem?-drop? (suc n) (x ∷ xs) h = get_elem?-drop? n xs h

  pub get_elem?-drop?-none : (n : ℕ) (xs : List A) → drop? n xs ≡ some [] → get_elem? xs n ≡ none
  get_elem?-drop?-none zero [] h = refl
  get_elem?-drop?-none zero (x ∷ xs) h = ground (arith, h)
  get_elem?-drop?-none (suc n) [] h = refl
  get_elem?-drop?-none (suc n) (x ∷ xs) h = get_elem?-drop?-none n xs h

  pub get_elem?_range : (xs : List A) (i : ℕ) {x : A} → get_elem? xs i ≡ some x → i < length xs
  get_elem?_range [] i h = ground arith
  get_elem?_range (x ∷ xs) zero h = omega arith
  get_elem?_range (x ∷ xs) (suc i) {x = y} h = omega (arith, get_elem?_range xs i {x = y} h)

  pub get_elem?-some : (xs : List A) (i : ℕ) → i < length xs → (x : A) × (get_elem? xs i ≡ some x)
  get_elem?-some [] i h = absurd (omega arith)
  get_elem?-some (x ∷ xs) zero h = (x, refl)
  get_elem?-some (x ∷ xs) (suc i) h = get_elem?-some xs i (omega arith)

  pub get_elem?_end : (xs ys : List A) (y : A) → get_elem? (xs ++ (y ∷ ys)) (length xs) ≡ some y
  get_elem?_end [] ys y = refl
  get_elem?_end (x ∷ xs) ys y = get_elem?_end xs ys y

  pub get_elem?_snoc :
      (xs : List A) (y : A) (i : ℕ)
      → get_elem? (xs ++ (y ∷ [])) i ≡ (if eqb (length xs) i then some y else get_elem? xs i)
  get_elem?_snoc [] y zero = refl
  get_elem?_snoc [] y (suc i) = ground arith
  get_elem?_snoc (x ∷ xs) y zero = ground arith
  get_elem?_snoc (x ∷ xs) y (suc i) = ground (arith, get_elem?_snoc xs y i)

  pub get_elem?-append :
      (xs ys : List A) (i : ℕ) → i < length xs → get_elem? (xs ++ ys) i ≡ get_elem? xs i
  get_elem?-append [] ys i h = absurd (omega arith)
  get_elem?-append (x ∷ xs) ys zero h = refl
  get_elem?-append (x ∷ xs) ys (suc i) h = get_elem?-append xs ys i (omega arith)

  pub get_elem?-append_right :
      (xs ys : List A) (i : ℕ) → get_elem? (xs ++ ys) (length xs + i) ≡ get_elem? ys i
  get_elem?-append_right [] ys i = ground arith
  get_elem?-append_right (x ∷ xs) ys i = ground (arith, get_elem?-append_right xs ys i)

  pub All-append {κ} : (P : A → Type κ) (xs ys : List A) → All P xs → All P ys → All P (xs ++ ys)
  All-append P [] ys hx hy = hy
  All-append P (x ∷ xs) ys hx hy = (hx.0, All-append P xs ys hx.1 hy)
