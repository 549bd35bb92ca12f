-- ===== src/Physics/Maps.antt =====
-- `coreffi::self_so_path_linux`: the path of the module's own file, from the text of
-- /proc/self/maps. A text is its code points, and /proc/self/maps the parameter `maps`.
pub mod Pieces
pub mod Found
use glu_core.Prelude.{
  ℕ, zero, suc, ◌+◌, ◌-◌, ◌*◌, ◌^◌, Bool, true, false, not, ◌&&◌, ◌||◌, Option, none, some, List,
  [], ◌∷◌, leb, ltb, eqb, if◌then◌else◌,
}

abbrev pub Text : Type 0
Text = List ℕ

-- `char::is_whitespace`
abbrev pub is_whitespace : ℕ → Bool
is_whitespace c =
    (leb 9 c && leb c 13)
    || eqb c 32
    || eqb c 0x85
    || eqb c 0xA0
    || eqb c 0x1680
    || (leb 0x2000 c && leb c 0x200A)
    || eqb c 0x2028
    || eqb c 0x2029
    || eqb c 0x202F
    || eqb c 0x205F
    || eqb c 0x3000

abbrev pub is_dash : ℕ → Bool
is_dash c = eqb c 45

abbrev pub put_first : ℕ → List Text → List Text
put_first c [] = (c ∷ []) ∷ []
put_first c (l ∷ ls) = (c ∷ l) ∷ ls

abbrev pub starts_with : ℕ → Text → Bool
starts_with c [] = false
starts_with c (d ∷ cs) = eqb d c

-- `str::lines`: a line ends with a line feed, or with a carriage return and a line feed.
unfoldable pub lines : Text → List Text
lines [] = []
lines (c ∷ cs) =
    let rest = lines cs in
    if eqb c 10 then [] ∷ rest else if eqb c 13 && starts_with 10 cs then rest else put_first c rest

-- The text up to the first separator, and the text behind it if there is one.
unfoldable pub split_once : (ℕ → Bool) → Text → Text × Option Text
split_once sep [] = ([], none)
split_once sep (c ∷ cs) =
    let rest = split_once sep cs in if sep c then ([], some cs) else (c ∷ rest.0, rest.1)

-- `splitn(n, sep)`: the last of the `n` pieces is all that is left.
unfoldable pub splitn : (ℕ → Bool) → ℕ → Text → List Text
splitn sep zero s = []
splitn sep (suc zero) s = s ∷ []
splitn sep (suc (suc n)) s = elim ((split_once sep s).1) [
  | none ↦ s ∷ []
  | some rest ↦ (split_once sep s).0 ∷ splitn sep (suc n) rest
]

unfoldable pub hex_digit : ℕ → Option ℕ
hex_digit c =
    if leb 48 c && leb c 57
    then some (c - 48)
    else if leb 97 c && leb c 102
    then some (c - 87)
    else if leb 65 c && leb c 70
    then some (c - 55)
    else none

-- The digits behind those that make up `n`.
unfoldable pub hex_from : ℕ → Text → Option ℕ
hex_from n [] = some n
hex_from n (c ∷ cs) = elim (hex_digit c) [ none ↦ none | some d ↦ hex_from (n * 16 + d) cs ]

-- Without the sign, which has to be a plus.
unfoldable pub unsigned : Text → Text
unsigned [] = []
unsigned (c ∷ cs) = if eqb c 43 then cs else c ∷ cs

abbrev pub in_usize : Option ℕ → Option ℕ
in_usize none = none
in_usize (some n) = if ltb n (2 ^ 64) then some n else none

abbrev pub non_empty : Text → Bool
non_empty [] = false
non_empty (c ∷ cs) = true

-- `usize::from_str_radix(s, 16).ok()`
unfoldable pub from_str_radix : Text → Option ℕ
from_str_radix s = if non_empty (unsigned s) then in_usize (hex_from 0 (unsigned s)) else none

unfoldable pub trim_start : Text → Text
trim_start [] = []
trim_start (c ∷ cs) = let rest = trim_start cs in if is_whitespace c then rest else c ∷ cs

unfoldable pub trim_end : Text → Text
trim_end [] = []
trim_end (c ∷ cs) =
    let rest = trim_end cs in if is_whitespace c && not (non_empty rest) then [] else c ∷ rest

-- What a turn of the loop does: `continue` or its end, the `return` of a path, or a `?` that returns
-- `None`.
pub data Turn : Type 0 where
  next_line : Turn
  found : Text → Turn
  gives_up : Turn

unfoldable pub on_path : Text → Turn
on_path piece =
    let path = trim_end (trim_start piece) in if starts_with 47 path then found path else next_line

abbrev pub both : Option ℕ → Option ℕ → Option (ℕ × ℕ)
both (some a) (some b) = some (a, b)
both (some a) none = none
both none b = none

unfoldable pub on_pieces : List Text → Turn
on_pieces (offset ∷ dev ∷ inode ∷ path ∷ more) = on_path path
on_pieces _ = gives_up

-- The pieces behind the permissions: the offset, the device, the inode and the path.
unfoldable pub on_range : ℕ → Option (ℕ × ℕ) → List Text → Turn
on_range self_addr none pieces = gives_up
on_range self_addr (some (start, end)) pieces =
    if leb start self_addr && ltb self_addr end then on_pieces pieces else next_line

-- The first two pieces of `range.split('-')` as numbers.
unfoldable pub bounds : Text → Option (ℕ × ℕ)
bounds range = elim ((split_once is_dash range).1) [
  | none ↦ none
  | some rest ↦
      both (from_str_radix ((split_once is_dash range).0))
        (from_str_radix ((split_once is_dash rest).0))
]

unfoldable pub on_parts : ℕ → List Text → Turn
on_parts self_addr [] = gives_up
on_parts self_addr (range ∷ []) = gives_up
on_parts self_addr (range ∷ perms ∷ pieces) =
    if starts_with 114 perms then on_range self_addr (bounds range) pieces else next_line

unfoldable pub on_lines : ℕ → List Text → Option Text
on_lines self_addr [] = none
on_lines self_addr (line ∷ ls) =
    let rest = on_lines self_addr ls in
    elim (on_parts self_addr (splitn is_whitespace 6 line)) [
      | next_line ↦ rest
      | found path ↦ some path
      | gives_up ↦ none
    ]

-- `maps` is none where the file cannot be read, or is not UTF-8.
unfoldable pub self_so_path_linux : ℕ → Option Text → Option Text
self_so_path_linux self_addr none = none
self_so_path_linux self_addr (some maps) = on_lines self_addr (lines maps)
