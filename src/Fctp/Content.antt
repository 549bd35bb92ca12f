-- ===== src/Fctp/Content.antt =====
-- What an argument says, apart from where it is stored: the view under which a value that was sent
-- and the value that was received are compared.
use glu_core.Prelude.{
  ℕ, ◌%◌, ◌^◌, ◌<◌, ◌≡◌, refl, Option, none, some, List, [], ◌∷◌, ◌++◌, Bytes, length, to_le, arith,
  append_assoc, append-nil, ap, sym, ◌∙◌,
}
use glu_core.Types.{GluTypeTag, GluValue, int, float, string, buffer, handle, void, tag_byte}
use glu_core.Memory.{Memory}
use glu_core.Fctp.Encode.{argument_bytes, encode_arg, encode_args, write_len_bytes}

pub data Content : Type 0 where
  word : ℕ → Content
  text : Bytes → Content
  empty : Content

abbrev pub text_of : Option Bytes → Option Content
text_of none = none
text_of (some bs) = some (text bs)

-- The content of a value that is read as `tag` says; `none` is undefined behaviour.
unfoldable pub content : Memory → GluTypeTag → GluValue → Option Content
content m int v = some (word v.first)
content m float v = some (word v.first)
content m string v = text_of (argument_bytes m v)
content m buffer v = text_of (argument_bytes m v)
content m handle v = some empty
content m void v = some empty

-- The content is one of that tag, within the range of its encoding.
abbrev pub FitsTag : GluTypeTag → Content → Type 0
FitsTag int (word w) = w < 2 ^ 64
FitsTag float (word w) = w < 2 ^ 64
FitsTag string (text bs) = length bs < 2 ^ 32
FitsTag buffer (text bs) = length bs < 2 ^ 32
FitsTag handle empty = Unit
FitsTag void empty = Unit
FitsTag _ _ = ⊥

-- `args` are, under `tags`, the values `contents`.
abbrev pub Describes : Memory → List GluValue → List GluTypeTag → List Content → Type 0
Describes m [] [] [] = Unit
Describes m (a ∷ args) (t ∷ tags) (c ∷ contents) =
    (content m t a ≡ some c) × FitsTag t c × Describes m args tags contents
Describes m _ _ _ = ⊥

unfoldable pub content_bytes : Content → Bytes
content_bytes (word w) = to_le 8 w
content_bytes (text bs) = to_le 4 (length bs) ++ bs
content_bytes empty = []

-- Tag and value of each argument in turn.
abbrev pub args_bytes : List GluTypeTag → List Content → Bytes
args_bytes (t ∷ tags) (c ∷ contents) = tag_byte t ∷ (content_bytes c ++ args_bytes tags contents)
args_bytes _ _ = []

pub write_len_bytes_lem :
    (buf bs : Bytes)
    → length bs < 2 ^ 32
    → write_len_bytes buf bs ≡ buf ++ (to_le 4 (length bs) ++ bs)
unfolding write_len_bytes
write_len_bytes_lem buf bs h =
    let e : length bs % 2 ^ 32 ≡ length bs = omega arith in rw (e, append_assoc)

encode_arg_lem :
    (m : Memory) (payload : Bytes) (a : GluValue) (t : GluTypeTag) (c : Content)
    → content m t a ≡ some c
    → FitsTag t c
    → encode_arg m payload a t ≡ some (payload ++ (tag_byte t ∷ content_bytes c))
unfolding encode_arg content content_bytes
encode_arg_lem m payload a int (word w) h f =
    ground (arith, append_assoc payload (tag_byte int ∷ []) (to_le 8 w))
encode_arg_lem m payload a float (word w) h f =
    ground (arith, append_assoc payload (tag_byte float ∷ []) (to_le 8 w))
encode_arg_lem m payload a string (text bs) h f = ground (
  arith,
  write_len_bytes_lem (payload ++ (tag_byte string ∷ [])) bs,
  append_assoc payload (tag_byte string ∷ []) (to_le 4 (length bs) ++ bs),
)
encode_arg_lem m payload a buffer (text bs) h f = ground (
  arith,
  write_len_bytes_lem (payload ++ (tag_byte buffer ∷ [])) bs,
  append_assoc payload (tag_byte buffer ∷ []) (to_le 4 (length bs) ++ bs),
)
encode_arg_lem m payload a handle empty h f = refl
encode_arg_lem m payload a void empty h f = refl
encode_arg_lem m payload a t c h f = absurd f

-- The arguments are written one after the other, tag and value interleaved.
pub encode_args_lem :
    (m : Memory) (payload : Bytes) (args : List GluValue) (tags : List GluTypeTag)
    (contents : List Content)
    → Describes m args tags contents
    → encode_args m payload args tags ≡ some (payload ++ args_bytes tags contents)
unfolding encode_args
encode_args_lem m payload [] [] [] d = ap some (sym (append-nil payload))
encode_args_lem m payload (a ∷ args) (t ∷ tags) (c ∷ contents) d =
    rw (encode_arg_lem m payload a t c d.0 d.1, encode_args)
      (encode_args_lem m (payload ++ (tag_byte t ∷ content_bytes c)) args tags contents d.2
        ∙ rw append_assoc)
encode_args_lem m payload args tags contents d = absurd d
