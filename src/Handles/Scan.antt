-- ===== src/Handles/Scan.antt =====
-- The last item of a name in a list: what an index that is overwritten stands for.
use glu_core.Prelude.{
  ℕ, zero, suc, ◌+◌, ◌≤◌, ◌≡◌, Option, none, some, List, [], ◌∷◌, ◌++◌, Bytes, length, get_elem?,
  bytes_eq, ◌==◌, if◌then◌else◌, arith, Bool-cases, Option-cases, inl, inr, bytes_beq_iff, All,
  refl,
}

abbrev pub or_else {ℓ} : {A : Type ℓ} → Option A → Option A → Option A
or_else none b = b
or_else (some a) b = some a

module _ {A : Type 0} (name : A → Bytes) where
  -- The last item of that name, with its position counted from `i`.
  unfoldable pub last_named : Bytes → ℕ → List A → Option (ℕ × A)
  last_named k i [] = none
  last_named k i (x ∷ xs) =
      or_else (last_named k (i + 1) xs) (if name x == k then some (i, x) else none)

  pub last_named-append :
      (k : Bytes) (i : ℕ) (xs : List A) (y : A)
      → last_named k i (xs ++ (y ∷ []))
        ≡ (if name y == k then some (i + length xs, y) else last_named k i xs)
  unfolding last_named
  last_named-append k i [] y = ground arith
  last_named-append k i (x ∷ xs) y = ground (arith, last_named-append k (i + 1) xs y)

  -- It is an item of the list, and has the name.
  pub last_named-get :
      (k : Bytes) (i : ℕ) (xs : List A) {j : ℕ} {x : A}
      → last_named k i xs ≡ some (j, x)
      → (d : ℕ) × (j ≡ i + d) × (get_elem? xs d ≡ some x) × (name x ≡ k)
  unfolding last_named
  last_named-get k i [] h = absurd (cc)
  last_named-get k i (x ∷ xs) {j} {x = y} h = elim (Option-cases (last_named k (i + 1) xs)) [
    | inl e ↦ elim (Bool-cases (name x == k)) [
      | inl same ↦ (
        0,
        ground (arith, e, same, h),
        ground (arith, e, same, h),
        ground (arith, e, same, h, bytes_beq_iff (name x) k),
      )
      | inr other ↦ absurd (ground (arith, e, other, h))
    ]
    | inr ((j', z), e) ↦
        let (d, p, q, r) = last_named-get k (i + 1) xs {j = j'} {x = z} e in
        (suc d, ground (arith, e, p, h), ground (arith, e, q, h), ground (arith, e, r, h))
  ]

  -- An item that has the name is found, or a later one is.
  pub last_named-found :
      (k : Bytes) (i d : ℕ) (xs : List A) {x : A}
      → get_elem? xs d ≡ some x
      → name x ≡ k
      → (p : ℕ × A) × (last_named k i xs ≡ some p) × (i + d ≤ p.0) × (name p.1 ≡ k)
  unfolding last_named
  last_named-found k i d [] h e = absurd (cc)
  last_named-found k i zero (x ∷ xs) {x = y} h e = elim (Option-cases (last_named k (i + 1) xs)) [
    | inl e' ↦ (
      (i, x),
      ground (arith, e', h, e, bytes_beq_iff (name x) k),
      omega arith,
      ground (arith, h, e),
    )
    | inr ((j, z), e') ↦
        let (d', p, q, r) = last_named-get k (i + 1) xs {j = j} {x = z} e' in
        ((j, z), ground (arith, e'), omega (arith, p), r)
  ]
  last_named-found k i (suc d) (x ∷ xs) {x = y} h e =
      let (p, a, b, c) = last_named-found k (i + 1) d xs {x = y} h e in
      (p, ground (arith, a), omega arith, c)

  -- Where no other item has the name, the item is found.
  pub last_named-only :
      (k : Bytes) (xs : List A) (i : ℕ) (x : A)
      → get_elem? xs i ≡ some x
      → name x ≡ k
      → ((j : ℕ) (y : A) → get_elem? xs j ≡ some y → name y ≡ k → j ≡ i)
      → last_named k 0 xs ≡ some (i, x)
  last_named-only k xs i x h e only =
      let ((j, y), found, later, same) = last_named-found k 0 i xs {x = x} h e in
      let (d, at_d, get, named) = last_named-get k 0 xs {j = j} {x = y} found in
      let here : d ≡ i = only d y get named in ground (arith, found, at_d, here, get, h)

  pub last_named-none :
      (k : Bytes) (i : ℕ) (xs : List A) → All (λ x. ¬ (name x ≡ k)) xs → last_named k i xs ≡ none
  unfolding last_named
  last_named-none k i [] others = refl
  last_named-none k i (x ∷ xs) (other, others) = elim (Bool-cases (name x == k)) [
    | inl same ↦ absurd (other ((bytes_beq_iff (name x) k).0 same))
    | inr differ ↦ ground (arith, differ, last_named-none k (i + 1) xs others)
  ]

  -- The item behind which no other has the name.
  pub last_named-last :
      (k : Bytes) (i : ℕ) (before : List A) (x : A) (after : List A)
      → name x ≡ k
      → All (λ y. ¬ (name y ≡ k)) after
      → (j : ℕ) × (last_named k i (before ++ (x ∷ after)) ≡ some (j, x))
  unfolding last_named
  last_named-last k i [] x after same others =
      (i, ground (arith, same, bytes_beq_iff (name x) k, last_named-none k (i + 1) after others))
  last_named-last k i (y ∷ before) x after same others =
      let (j, found) = last_named-last k (i + 1) before x after same others in
      (j, ground (arith, found))
