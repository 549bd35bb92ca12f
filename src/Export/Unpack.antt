-- ===== src/Export/Unpack.antt =====
-- What the parameters of an exported function are given.
use glu_core.Prelude.{
  true, false, Bool-cases, ℕ, ◌+◌, ◌≡◌, ◌≢◌, refl, Option, none, some, List, [], ◌∷◌, ◌++◌, map,
  Bytes, get_elem?, drop?, arith, ◌∙◌, Option-cases, inl, inr, get_elem?-drop?,
  get_elem?-drop?-none, drop?-drop?,
}
use glu_core.Types.{GluValue}
use glu_core.Utf8.{from_utf8_lossy, is_utf8}
use glu_core.Memory.{from_raw_parts, slice_of}
use glu_core.Fctp.Encode.{argument_bytes}
use glu_core.Fctp.Content.{Content, word, text, empty, text_of, content, Describes}
use glu_core.World.{World}
use glu_core.Program.{Dispatch, Program, run_program}
use glu_core.Export.{
  Tag, int_value, float_value, string_owned, string_borrowed, buffer_owned, buffer_borrowed,
  nothing, tag_to_core_variant,
}
use glu_core.Export.Native.{Value, Values}
use glu_core.Export.Wrapper.{read_slice, unpack_value, unpack, unpack_all}

-- The parameter's value for an argument that says `c`: an owned text is decoded, lossily, and a
-- borrowed one has to be UTF-8.
unfoldable pub value_of : (t : Tag) → Content → Option (Value t)
value_of int_value (word w) = some w
value_of float_value (word w) = some w
value_of string_owned (text bs) = some (from_utf8_lossy bs)
value_of string_borrowed (text bs) = elim (is_utf8 bs) [ true ↦ some bs | false ↦ none ]
value_of buffer_owned (text bs) = some bs
value_of buffer_borrowed (text bs) = some bs
value_of nothing empty = some tt
value_of _ _ = none

abbrev pair_up :
    (t : Tag) (ts : List Tag) → Option (Value t) → Option (Values ts) → Option (Values (t ∷ ts))
pair_up t ts (some x) (some xs) = some (x, xs)
pair_up t ts (some x) none = none
pair_up t ts none xs = none

abbrev pub values_of : (params : List Tag) → List Content → Option (Values params)
values_of [] [] = some tt
values_of (t ∷ params) (c ∷ contents) = pair_up t params (value_of t c) (values_of params contents)
values_of _ _ = none

pair_up-some :
    (t : Tag) (ts : List Tag) (o : Option (Value t)) (os : Option (Values ts)) (x : Value t)
    (xs : Values ts)
    → pair_up t ts o os ≡ some (x, xs)
    → (o ≡ some x) × (os ≡ some xs)
pair_up-some t ts (some y) (some ys) x xs h = (ground (arith, h), ground (arith, h))
pair_up-some t ts (some y) none x xs h = absurd (cc)
pair_up-some t ts none os x xs h = absurd (cc)

unpack-none :
    (dispatch : Dispatch) (w : World) (t : Tag) (next : Option (Value t) → Program)
    → t ≢ nothing
    → run_program dispatch (unpack t none next) w ≡ run_program dispatch (next none) w
unfolding unpack
unpack-none dispatch w nothing next ne = absurd (ne refl)
unpack-none dispatch w int_value next ne = refl
unpack-none dispatch w _ next ne = refl

module _ (dispatch : Dispatch) (w : World) where
  read_slice_lem :
      (v : GluValue) (bs : Bytes) (next : Bytes → Program)
      → text_of (argument_bytes w.mem v) ≡ some (text bs)
      → run_program dispatch (read_slice v next) w ≡ run_program dispatch (next bs) w
  unfolding read_slice argument_bytes run_program
  read_slice_lem v bs next h = elim (Option-cases (slice_of v)) [
    | inl e ↦ absurd (ground (arith, e, h))
    | inr (s, e) ↦
        let there : from_raw_parts w.mem s ≡ some bs = ground (arith, e, h) in
        rw (e, read_slice) (rw (there, run_program))
  ]

  unpack_lem :
      (t : Tag) (v : GluValue) (c : Content) (x : Value t) (next : Option (Value t) → Program)
      → content w.mem (tag_to_core_variant t) v ≡ some c
      → value_of t c ≡ some x
      → run_program dispatch (unpack t (some v) next) w ≡ run_program dispatch (next (some x)) w
  unfolding unpack unpack_value content tag_to_core_variant value_of
  unpack_lem int_value v (word n) x next h e = ground arith
  unpack_lem float_value v (word n) x next h e = ground arith
  unpack_lem string_owned v (text bs) x next h e = read_slice_lem v bs _ h ∙ ground (arith, e)
  unpack_lem string_borrowed v (text bs) x next h e = elim (Bool-cases (is_utf8 bs)) [
    | inl valid ↦ read_slice_lem v bs _ h ∙ ground (arith, valid, e)
    | inr invalid ↦ absurd (ground (arith, invalid, e))
  ]
  unpack_lem buffer_owned v (text bs) x next h e = read_slice_lem v bs _ h ∙ ground (arith, e)
  unpack_lem buffer_borrowed v (text bs) x next h e = read_slice_lem v bs _ h ∙ ground (arith, e)
  unpack_lem nothing v empty x next h e = refl
  unpack_lem _ v c x next h e = absurd (cc)

  -- The unpackers from parameter `i` on, where `rest` is what `args` holds from there on.
  pub unpack_all_lem :
      (params : List Tag) (i : ℕ) (args rest extra : List GluValue) (contents : List Content)
      (vs : Values params) (next : Option (Values params) → Program)
      → drop? i args ≡ some (rest ++ extra)
      → Describes w.mem rest (map tag_to_core_variant params) contents
      → values_of params contents ≡ some vs
      → run_program dispatch (unpack_all params i args next) w
        ≡ run_program dispatch (next (some vs)) w
  unfolding unpack_all
  unpack_all_lem [] i args [] extra [] vs next h d e = refl
  unpack_all_lem (t ∷ params) i args (v ∷ rest) extra (c ∷ contents) (x, xs) next h d e =
      let (ex, exs) = pair_up-some t params (value_of t c) (values_of params contents) x xs e in
      let here : get_elem? args i ≡ some v = get_elem?-drop? i args h in
      rw here (
        unpack_lem t v c x _ d.0 ex
        ∙ unpack_all_lem params (i + 1) args rest extra contents xs _ (drop?-drop? i 1 args h) d.2
            exs)
  unpack_all_lem params i args rest extra contents vs next h d e = absurd d

  -- An argument that is not there makes its unpacker panic, and the ones behind it are not run.
  pub unpack_missing_lem :
      (known : List Tag) (t : Tag) (more : List Tag) (i : ℕ) (args rest : List GluValue)
      (contents : List Content) (vs : Values known)
      (next : Option (Values (known ++ (t ∷ more))) → Program)
      → t ≢ nothing
      → drop? i args ≡ some rest
      → Describes w.mem rest (map tag_to_core_variant known) contents
      → values_of known contents ≡ some vs
      → run_program dispatch (unpack_all (known ++ (t ∷ more)) i args next) w
        ≡ run_program dispatch (next none) w
  unfolding unpack_all
  unpack_missing_lem [] t more i args [] [] vs next ne h d e =
      let gone : get_elem? args i ≡ none = get_elem?-drop?-none i args h in
      rw gone (unpack-none dispatch w t _ ne)
  unpack_missing_lem (t' ∷ known) t more i args (v ∷ rest) (c ∷ contents) (x, xs) next ne h d e =
      let (ex, exs) = pair_up-some t' known (value_of t' c) (values_of known contents) x xs e in
      let here : get_elem? args i ≡ some v = get_elem?-drop? i args h in
      rw here (
        unpack_lem t' v c x _ d.0 ex
        ∙ unpack_missing_lem known t more (i + 1) args rest contents xs _ ne
            (drop?-drop? i 1 args h) d.2 exs)
  unpack_missing_lem known t more i args rest contents vs next ne h d e = absurd d
