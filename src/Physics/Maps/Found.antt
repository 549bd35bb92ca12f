-- ===== src/Physics/Maps/Found.antt =====
-- The path that is found in a text of the kernel's form.
use glu_core.Prelude.{
  ℕ, ◌≡◌, refl, Bool, true, false, ◌&&◌, Option, none, some, List, [], ◌∷◌, ◌++◌, arith, leb, ltb,
  All, Bool-cases, inl, inr, if◌then◌else◌, ap,
}
use glu_core.Physics.Maps.{
  Text, is_whitespace, is_dash, starts_with, lines, split_once, splitn, from_str_radix, trim_start,
  trim_end, next_line, found, on_path, on_pieces, on_range, bounds, on_parts, on_lines,
  self_so_path_linux,
}
use glu_core.Physics.Maps.Pieces.{
  Free, is_break, is_break-is_whitespace, split_once-Free, split_once-whole, splitn-Free,
  lines-Free, Free-weaken, spaces, trim_start-spaces, spaces-Free,
}

-- A line of /proc/self/maps: the range `low`-`high` of the addresses from `start` to `end`, the
-- permissions, the offset, the device, the inode, and behind a padding the path, if there is one.
pub record Mapping : Type 0 where
  pub low : Text
  pub start : ℕ
  pub high : Text
  pub end : ℕ
  pub perms : Text
  pub offset : Text
  pub dev : Text
  pub inode : Text
  pub padding : ℕ
  pub path : Text

abbrev pub range_of : Mapping → Text
range_of m = m.low ++ (45 ∷ m.high)

abbrev pub line_of : Mapping → Text
line_of m =
    range_of m
    ++ (32
        ∷ (m.perms
            ++ (32
                ∷ (m.offset
                    ++ (32 ∷ (m.dev ++ (32 ∷ (m.inode ++ (32 ∷ (spaces m.padding ++ m.path))))))))))

-- The fields are what the line's form asks for: numbers in hexadecimal, fields without spaces, and a
-- path of one line that begins and ends without them.
pub record IsMapping (m : Mapping) : Type 0 where
  pub low_number : from_str_radix m.low ≡ some m.start
  pub high_number : from_str_radix m.high ≡ some m.end
  pub low_no_dash : Free is_dash m.low
  pub high_no_dash : Free is_dash m.high
  pub low_no_space : Free is_whitespace m.low
  pub high_no_space : Free is_whitespace m.high
  pub perms_no_space : Free is_whitespace m.perms
  pub offset_no_space : Free is_whitespace m.offset
  pub dev_no_space : Free is_whitespace m.dev
  pub inode_no_space : Free is_whitespace m.inode
  pub path_one_line : Free is_break m.path
  pub path_begins : trim_start m.path ≡ m.path
  pub path_ends : trim_end m.path ≡ m.path

unfoldable pub text_of_maps : List Mapping → Text
text_of_maps [] = []
text_of_maps (m ∷ ms) = line_of m ++ (10 ∷ text_of_maps ms)

-- The mapping can be read, has the address, and is of a file.
abbrev pub is_own : ℕ → Mapping → Bool
is_own self_addr m =
    starts_with 114 m.perms
    && ((leb m.start self_addr && ltb self_addr m.end) && starts_with 47 m.path)

-- The path of the first mapping of that kind.
unfoldable pub first_own : ℕ → List Mapping → Option Text
first_own self_addr [] = none
first_own self_addr (m ∷ ms) = elim (is_own self_addr m) [
  | true ↦ some m.path
  | false ↦ first_own self_addr ms
]

Free-append : (sep : ℕ → Bool) (s t : Text) → Free sep s → Free sep t → Free sep (s ++ t)
Free-append sep [] t f g = g
Free-append sep (c ∷ s) t f g = (f.0, Free-append sep s t f.1 g)

module _ (m : Mapping) (h : IsMapping m) where
  range-Free : Free is_whitespace (range_of m)
  range-Free = Free-append is_whitespace m.low (45 ∷ m.high) h.low_no_space (refl, h.high_no_space)

  pub splitn-line_of :
      splitn is_whitespace 6 (line_of m)
      ≡ range_of m ∷ m.perms ∷ m.offset ∷ m.dev ∷ m.inode ∷ (spaces m.padding ++ m.path) ∷ []
  unfolding splitn
  splitn-line_of = rw (
    splitn-Free is_whitespace 4 (range_of m) 32 _ range-Free refl,
    splitn-Free is_whitespace 3 m.perms 32 _ h.perms_no_space refl,
    splitn-Free is_whitespace 2 m.offset 32 _ h.offset_no_space refl,
    splitn-Free is_whitespace 1 m.dev 32 _ h.dev_no_space refl,
    splitn-Free is_whitespace 0 m.inode 32 _ h.inode_no_space refl,
  )

  pub bounds-range_of : bounds (range_of m) ≡ some (m.start, m.end)
  unfolding bounds
  bounds-range_of =
      let cut = split_once-Free is_dash m.low 45 m.high h.low_no_dash refl in
      let low : (split_once is_dash (range_of m)).0 ≡ m.low = ap (λ p. p.0) cut in
      let rest = split_once-whole is_dash m.high h.high_no_dash in
      rw (cut, bounds, rest, low, h.low_number, h.high_number)

  line_of-Free : Free is_break (line_of m)
  line_of-Free =
      let plain : (s : Text) → Free is_whitespace s → Free is_break s =
        λ s free. Free-weaken is_whitespace is_break s is_break-is_whitespace free in
      let joined : (s t : Text)
          → Free is_whitespace s
          → Free is_break t
          → Free is_break (s ++ (32 ∷ t)) =
        λ s t free rest. Free-append is_break s (32 ∷ t) (plain s free) (refl, rest) in
      joined _ _ range-Free (
        joined _ _ h.perms_no_space (
          joined _ _ h.offset_no_space (
            joined _ _ h.dev_no_space (
              joined _ _ h.inode_no_space (
                Free-append is_break (spaces m.padding) m.path (spaces-Free m.padding)
                  h.path_one_line)))))

  trimmed : trim_end (trim_start (spaces m.padding ++ m.path)) ≡ m.path
  trimmed = rw (trim_start-spaces m.padding m.path, h.path_begins) h.path_ends

  on_parts-line_of :
      (self_addr : ℕ)
      → on_parts self_addr (splitn is_whitespace 6 (line_of m))
        ≡ (if is_own self_addr m then found m.path else next_line)
  unfolding on_parts on_range on_pieces on_path
  on_parts-line_of self_addr = rw splitn-line_of (ground (arith, bounds-range_of, trimmed))

on_lines-line_of :
    (self_addr : ℕ) (m : Mapping) (ls : List Text)
    → IsMapping m
    → on_lines self_addr (line_of m ∷ ls)
      ≡ (if is_own self_addr m then some m.path else on_lines self_addr ls)
unfolding on_lines
on_lines-line_of self_addr m ls h = elim (Bool-cases (is_own self_addr m)) [
  | inl own ↦ rw (on_parts-line_of m h self_addr, own, on_lines)
  | inr other ↦ rw (on_parts-line_of m h self_addr, other, on_lines)
]

-- On a text of the kernel's form: the path is that of the first mapping that can be read, contains
-- the address and is of a file, and there is none if no mapping is that.
pub self_so_path_linux_lem :
    (self_addr : ℕ) (ms : List Mapping)
    → All IsMapping ms
    → self_so_path_linux self_addr (some (text_of_maps ms)) ≡ first_own self_addr ms
unfolding self_so_path_linux text_of_maps first_own lines on_lines
self_so_path_linux_lem self_addr [] hs = refl
self_so_path_linux_lem self_addr (m ∷ ms) hs =
    let one = on_lines-line_of self_addr m (lines (text_of_maps ms)) hs.0 in
    let rest = self_so_path_linux_lem self_addr ms hs.1 in
    let cut = lines-Free (line_of m) (text_of_maps ms) (line_of-Free m hs.0) in
    elim (Bool-cases (is_own self_addr m)) [
      | inl own ↦ rw (cut, one, own, first_own)
      | inr other ↦ rw (cut, one, other, first_own) rest
    ]
