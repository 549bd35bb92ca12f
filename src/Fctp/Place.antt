-- ===== src/Fctp/Place.antt =====
-- Where the decoder puts the arguments that it reads, as a function, and what is then in memory.
use glu_core.Prelude.{
  ℕ, ◌+◌, ◌≡◌, List, [], ◌∷◌, ◌++◌, Bytes, length, to_le, arith, append_assoc, codes, length-append,
  length-to_le,
}
use glu_core.Outcome.{ok}
use glu_core.Types.{
  GluTypeTag, GluValue, int, float, string, buffer, handle, void, tag_byte, of_word, of_slice,
}
use glu_core.Types.Tags.{from_u8-tag_byte}
use glu_core.Memory.{Memory, to_vec}
use glu_core.Reader.{copy}
use glu_core.Reader.At.{
  at, At, At-append, At-cons, read_u64_le-At, read_len_bytes-At, next_byte_or-At,
}
use glu_core.Fctp.Decode.{read_value, read_args}
use glu_core.Fctp.Content.{
  Content, word, text, empty, FitsTag, Describes, content_bytes, args_bytes,
}

unfoldable pub place : Content → Memory → GluValue × Memory
place (word w) m = (of_word w, m)
place (text bs) m = (of_slice (to_vec bs m).0, (to_vec bs m).1)
place empty m = (of_word 0, m)

abbrev pub place_all : List Content → Memory → List GluValue × Memory
place_all [] m = ([], m)
place_all (c ∷ contents) m =
    let rest = place_all contents (place c m).1 in ((place c m).0 ∷ rest.0, rest.1)

module _ (msg : Bytes) (off : ℕ) (m : Memory) where
  text_offset : (bs : Bytes) → off + length (to_le 4 (length bs) ++ bs) ≡ off + 4 + length bs
  text_offset bs = omega (arith, length-append (to_le 4 (length bs)) bs, length-to_le 4 (length bs))

  read_value_lem :
      (t : GluTypeTag) (c : Content) (ys : Bytes)
      → FitsTag t c
      → At msg off (content_bytes c ++ ys)
      → read_value msg t (at off m)
        ≡ (ok (place c m).0, at (off + length (content_bytes c)) (place c m).1)
  unfolding read_value content_bytes place copy
  read_value_lem int (word w) ys f h = rw (read_u64_le-At msg off m w ys f h, length-to_le)
  read_value_lem float (word w) ys f h = rw (read_u64_le-At msg off m w ys f h, length-to_le)
  read_value_lem string (text bs) ys f h =
      rw (text_offset bs, read_len_bytes-At msg off m bs ys f (rw append_assoc at h))
  read_value_lem buffer (text bs) ys f h =
      rw (text_offset bs, read_len_bytes-At msg off m bs ys f (rw append_assoc at h))
  read_value_lem handle empty ys f h = ground arith
  read_value_lem void empty ys f h = ground arith
  read_value_lem t c ys f h = absurd f

-- The loop reads back every argument that was written.
pub read_args_lem :
    (msg : Bytes) (tags : List GluTypeTag) (off : ℕ) (m m' : Memory) (args : List GluValue)
    (contents : List Content) (ys : Bytes)
    → Describes m' args tags contents
    → At msg off (args_bytes tags contents ++ ys)
    → read_args msg (length args) (at off m) ≡ (
      ok ((place_all contents m).0, tags),
      at (off + length (args_bytes tags contents)) (place_all contents m).1,
    )
unfolding read_args
read_args_lem msg [] off m m' [] [] ys d h = ground arith
read_args_lem msg (t ∷ tags) off m m' (a ∷ args) (c ∷ contents) ys d h =
    let h' : At msg off (tag_byte t ∷ (content_bytes c ++ (args_bytes tags contents ++ ys))) =
      rw append_assoc at h in
    let h₁ =
      At-cons msg off (tag_byte t) (content_bytes c ++ (args_bytes tags contents ++ ys)) h' in
    let e : off + length (args_bytes (t ∷ tags) (c ∷ contents))
        ≡ off + 1 + length (content_bytes c) + length (args_bytes tags contents) =
      omega (arith, length-append (content_bytes c) (args_bytes tags contents)) in
    rw (
      e,
      next_byte_or-At msg off m (codes "missing arg tag") (tag_byte t)
          (content_bytes c ++ (args_bytes tags contents ++ ys)) h',
      from_u8-tag_byte t,
      read_value_lem msg (off + 1) m t c (args_bytes tags contents ++ ys) d.1 h₁,
      read_args_lem msg tags (off + 1 + length (content_bytes c)) (place c m).1 m' args contents ys
          d.2 (At-append msg (off + 1) (content_bytes c) (args_bytes tags contents ++ ys) h₁),
    )
read_args_lem msg tags off m m' args contents ys d h = absurd d
