-- ===== src/Physics/Maps/Pieces.antt =====
-- How a text that was put together is taken apart again: lines, pieces and padding.
use glu_core.Prelude.{
  ℕ, zero, suc, ◌≡◌, refl, Bool, true, false, ◌||◌, none, some, [], ◌∷◌, ◌++◌, arith, eqb, All, ap,
}
use glu_core.Physics.Maps.{Text, is_whitespace, lines, split_once, splitn, trim_start}

-- No character of the text is a separator.
abbrev pub Free : (ℕ → Bool) → Text → Type 0
Free sep s = All (λ c. sep c ≡ false) s

abbrev pub is_break : ℕ → Bool
is_break c = eqb c 10 || eqb c 13

pub split_once-Free :
    (sep : ℕ → Bool) (s : Text) (d : ℕ) (t : Text)
    → Free sep s
    → sep d ≡ true
    → split_once sep (s ++ (d ∷ t)) ≡ (s, some t)
unfolding split_once
split_once-Free sep [] d t free h = rw h
split_once-Free sep (c ∷ s) d t free h = rw (free.0, split_once-Free sep s d t free.1 h)

pub split_once-whole : (sep : ℕ → Bool) (s : Text) → Free sep s → split_once sep s ≡ (s, none)
unfolding split_once
split_once-whole sep [] free = refl
split_once-whole sep (c ∷ s) free = rw (free.0, split_once-whole sep s free.1)

pub splitn-Free :
    (sep : ℕ → Bool) (n : ℕ) (s : Text) (d : ℕ) (t : Text)
    → Free sep s
    → sep d ≡ true
    → splitn sep (suc (suc n)) (s ++ (d ∷ t)) ≡ s ∷ splitn sep (suc n) t
unfolding splitn
splitn-Free sep n s d t free h =
    let cut = split_once-Free sep s d t free h in
    let piece : (split_once sep (s ++ (d ∷ t))).0 ≡ s = ap (λ p. p.0) cut in rw (cut, splitn, piece)

pub lines-Free : (s t : Text) → Free is_break s → lines (s ++ (10 ∷ t)) ≡ s ∷ lines t
unfolding lines
lines-Free [] t free = refl
lines-Free (c ∷ s) t free =
    let lf : eqb c 10 ≡ false = ground (arith, free.0) in
    let cr : eqb c 13 ≡ false = ground (arith, free.0) in rw (lf, cr, lines-Free s t free.1)

pub Free-weaken :
    (sep sep' : ℕ → Bool) (s : Text)
    → ((c : ℕ) → sep c ≡ false → sep' c ≡ false)
    → Free sep s
    → Free sep' s
Free-weaken sep sep' [] weaker free = free
Free-weaken sep sep' (c ∷ s) weaker free = (weaker c free.0, Free-weaken sep sep' s weaker free.1)

pub is_break-is_whitespace : (c : ℕ) → is_whitespace c ≡ false → is_break c ≡ false
is_break-is_whitespace c h = ground (arith, h)

abbrev pub spaces : ℕ → Text
spaces zero = []
spaces (suc n) = 32 ∷ spaces n

pub trim_start-spaces : (n : ℕ) (s : Text) → trim_start (spaces n ++ s) ≡ trim_start s
unfolding trim_start
trim_start-spaces zero s = refl
trim_start-spaces (suc n) s = trim_start-spaces n s

pub spaces-Free : (n : ℕ) → Free is_break (spaces n)
spaces-Free zero = tt
spaces-Free (suc n) = (refl, spaces-Free n)
