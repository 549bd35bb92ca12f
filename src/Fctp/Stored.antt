-- ===== src/Fctp/Stored.antt =====
-- The decoded arguments in memory: each has the content that was read, and a later allocation
-- does not disturb an earlier one.
use glu_core.Prelude.{◌≡◌, refl, some, List, [], ◌∷◌, Bytes, arith, inl, inr, Option-cases}
use glu_core.Types.{GluTypeTag, GluValue, int, float, string, buffer, handle, void}
use glu_core.Memory.{Memory, IsSound, slice_of}
use glu_core.Memory.Alloc.{Keeps, from_raw_parts-to_vec, to_vec-IsSound, from_raw_parts-to_vec_old}
use glu_core.Fctp.Encode.{argument_bytes}
use glu_core.Fctp.Content.{text_of, Content, word, text, empty, content, FitsTag, Describes}
use glu_core.Fctp.Place.{place, place_all}

pub place-IsSound : (c : Content) (m : Memory) → IsSound m → IsSound (place c m).1
unfolding place
place-IsSound (word w) m s = s
place-IsSound (text bs) m s = to_vec-IsSound bs m s
place-IsSound empty m s = s

place-Keeps : (c : Content) (m : Memory) → IsSound m → Keeps m (place c m).1
unfolding place
place-Keeps (word w) m s = λ sl old h. h
place-Keeps (text bs) m s = λ sl old h. from_raw_parts-to_vec_old bs m sl s h
place-Keeps empty m s = λ sl old h. h

pub place_all-IsSound :
    (contents : List Content) (m : Memory) → IsSound m → IsSound (place_all contents m).1
place_all-IsSound [] m s = s
place_all-IsSound (c ∷ contents) m s =
    place_all-IsSound contents (place c m).1 (place-IsSound c m s)

pub place_all-Keeps :
    (contents : List Content) (m : Memory) → IsSound m → Keeps m (place_all contents m).1
place_all-Keeps [] m s = λ sl old h. h
place_all-Keeps (c ∷ contents) m s = λ sl old h.
    place_all-Keeps contents (place c m).1 (place-IsSound c m s) sl old (place-Keeps c m s sl old h)

argument_bytes-Keeps :
    (m m' : Memory) (v : GluValue) (bs : Bytes)
    → Keeps m m'
    → argument_bytes m v ≡ some bs
    → argument_bytes m' v ≡ some bs
unfolding argument_bytes slice_of
argument_bytes-Keeps m m' v bs k h = elim (Option-cases v.second) [
  | inl e ↦ ground (arith, e, h)
  | inr (n, e) ↦ ground (arith, e, h, k (record { ptr = v.first; len = n }) bs)
]

text_of-Keeps :
    (m m' : Memory) (v : GluValue) (c : Content)
    → Keeps m m'
    → text_of (argument_bytes m v) ≡ some c
    → text_of (argument_bytes m' v) ≡ some c
text_of-Keeps m m' v c k h = elim (Option-cases (argument_bytes m v)) [
  | inl e ↦ ground (arith, e, h)
  | inr (bs, e) ↦ ground (arith, e, h, argument_bytes-Keeps m m' v bs k e)
]

content-Keeps :
    (m m' : Memory) (t : GluTypeTag) (v : GluValue) (c : Content)
    → Keeps m m'
    → content m t v ≡ some c
    → content m' t v ≡ some c
unfolding content
content-Keeps m m' int v c k h = h
content-Keeps m m' float v c k h = h
content-Keeps m m' string v c k h = text_of-Keeps m m' v c k h
content-Keeps m m' buffer v c k h = text_of-Keeps m m' v c k h
content-Keeps m m' handle v c k h = h
content-Keeps m m' void v c k h = h

content-place :
    (t : GluTypeTag) (c : Content) (m : Memory)
    → FitsTag t c
    → content (place c m).1 t (place c m).0 ≡ some c
unfolding content place argument_bytes slice_of
content-place int (word w) m f = refl
content-place float (word w) m f = refl
content-place string (text bs) m f = rw (from_raw_parts-to_vec bs m)
content-place buffer (text bs) m f = rw (from_raw_parts-to_vec bs m)
content-place handle empty m f = refl
content-place void empty m f = refl
content-place t c m f = absurd f

-- The placed arguments are, in the memory after the last of them, the contents.
pub Describes-place_all :
    (m₀ : Memory) (args : List GluValue) (tags : List GluTypeTag) (contents : List Content)
    (m : Memory)
    → IsSound m
    → Describes m₀ args tags contents
    → Describes (place_all contents m).1 (place_all contents m).0 tags contents
Describes-place_all m₀ [] [] [] m s d = tt
Describes-place_all m₀ (a ∷ args) (t ∷ tags) (c ∷ contents) m s d = (
  content-Keeps (place c m).1 (place_all contents (place c m).1).1 t (place c m).0 c
      (place_all-Keeps contents (place c m).1 (place-IsSound c m s)) (content-place t c m d.1),
  d.1,
  Describes-place_all m₀ args tags contents (place c m).1 (place-IsSound c m s) d.2,
)
Describes-place_all m₀ args tags contents m s d = absurd d
