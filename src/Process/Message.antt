-- ===== src/Process/Message.antt =====
-- The registration message, as a process module lays it out, against its parser.
use glu_core.Prelude.{
  ℕ, ◌+◌, ◌^◌, ◌<◌, ◌≡◌, refl, true, false, List, [], ◌∷◌, ◌++◌, map, Bytes, length, All, arith,
  bytes_eq, leb, length-drop?,
}
use glu_core.Outcome.{ok}
use glu_core.Types.{GluTypeTag, GluSignature, tag_byte}
use glu_core.Types.Tags.{from_u8-tag_byte}
use glu_core.Memory.{Memory}
use glu_core.Utf8.{is_utf8}
use glu_core.Utf8.Lossy.{from_utf8_lossy_valid}
use glu_core.Reader.At.{at, At, At-cons, At-len_bytes, len_bytes, next_byte-At, read_len_bytes-At}
use glu_core.Process.{
  read_tag, read_tags, read_export, read_exports, exports_after, parse_registration,
}

abbrev pub export_bytes : Bytes × GluSignature → Bytes → Bytes
export_bytes (f, sig) ys =
    len_bytes f (tag_byte sig.return_type ∷ (length sig.params ∷ (map tag_byte sig.params ++ ys)))

abbrev pub exports_bytes : List (Bytes × GluSignature) → Bytes
exports_bytes [] = []
exports_bytes (e ∷ es) = export_bytes e (exports_bytes es)

-- The name behind its length, the number of exports, and for each one its name behind its length, the
-- tag of its result, and the number and the tags of its parameters.
abbrev pub registration_bytes : Bytes → List (Bytes × GluSignature) → Bytes
registration_bytes name es = len_bytes name (length es ∷ exports_bytes es)

-- The name is UTF-8 and its length a u32, and the number of parameters is a byte.
abbrev pub FitsExport : Bytes × GluSignature → Type 0
FitsExport (f, sig) = (is_utf8 f ≡ true) × (length f < 2 ^ 32) × (length sig.params < 256)

module _ (msg : Bytes) (m : Memory) where
  read_tag-At :
      (off : ℕ) (t : GluTypeTag) (ys : Bytes)
      → At msg off (tag_byte t ∷ ys)
      → read_tag msg (at off m) ≡ (ok t, at (off + 1) m)
  unfolding read_tag
  read_tag-At off t ys h = rw (next_byte-At msg off m (tag_byte t) ys h, from_u8-tag_byte t)

  read_tags_lem :
      (off : ℕ) (ts : List GluTypeTag) (ys : Bytes)
      → At msg off (map tag_byte ts ++ ys)
      → (off' : ℕ) × (read_tags msg (length ts) (at off m) ≡ (ok ts, at off' m)) × At msg off' ys
  unfolding read_tags
  read_tags_lem off [] ys h = (off, refl, h)
  read_tags_lem off (t ∷ ts) ys h =
      let (off', e, h') =
        read_tags_lem (off + 1) ts ys (At-cons msg off (tag_byte t) (map tag_byte ts ++ ys) h) in
      (off', rw (read_tag-At off t (map tag_byte ts ++ ys) h, e), h')

  read_export_lem :
      (off : ℕ) (e : Bytes × GluSignature) (ys : Bytes)
      → FitsExport e
      → At msg off (export_bytes e ys)
      → (off' : ℕ) × (read_export msg (at off m) ≡ (ok e, at off' m)) × At msg off' ys
  unfolding read_export
  read_export_lem off (f, sig) ys fits h =
      let params = map tag_byte sig.params ++ ys in
      let rest = length sig.params ∷ params in
      let h₁ = At-len_bytes msg off f (tag_byte sig.return_type ∷ rest) h in
      let h₂ = At-cons msg (off + 4 + length f) (tag_byte sig.return_type) rest h₁ in
      let h₃ = At-cons msg (off + 4 + length f + 1) (length sig.params) params h₂ in
      let (off', e, h') = read_tags_lem (off + 4 + length f + 1 + 1) sig.params ys h₃ in
      (
        off',
        rw (
          read_len_bytes-At msg off m f (tag_byte sig.return_type ∷ rest) fits.1 h,
          read_tag-At (off + 4 + length f) sig.return_type rest h₁,
          next_byte-At msg (off + 4 + length f + 1) m (length sig.params) params h₂,
          e,
          from_utf8_lossy_valid f fits.0,
        ),
        h',
      )

  read_exports_lem :
      (off : ℕ) (es : List (Bytes × GluSignature))
      → All FitsExport es
      → At msg off (exports_bytes es)
      → (off' : ℕ) × (read_exports msg (length es) (at off m) ≡ (ok es, at off' m)) × At msg off' []
  unfolding read_exports
  read_exports_lem off [] fits h = (off, refl, h)
  read_exports_lem off (e ∷ es) fits h =
      let (off₁, e₁, h₁) = read_export_lem off e (exports_bytes es) fits.0 h in
      let (off₂, e₂, h₂) = read_exports_lem off₁ es fits.1 h₁ in (off₂, rw (e₁, e₂), h₂)

-- A registration message is read back, to its end: the name and every export, with its signature, for
-- at most 255 exports with at most 255 parameters each, and names that are valid UTF-8, shorter than 2^32 bytes.
pub parse_registration_lem :
    (name : Bytes) (es : List (Bytes × GluSignature)) (m : Memory)
    → length name < 2 ^ 32
    → is_utf8 name ≡ true
    → length es < 256
    → All FitsExport es
    → parse_registration (registration_bytes name es) (at 0 m) ≡ (
      ok (record { module_name = name; exports = es }),
      at (length (registration_bytes name es)) m,
    )
unfolding parse_registration exports_after
parse_registration_lem name es m h u n fits =
    let msg = registration_bytes name es in
    let h₁ = At-len_bytes msg 0 name (length es ∷ exports_bytes es) refl in
    let h₂ = At-cons msg (0 + 4 + length name) (length es) (exports_bytes es) h₁ in
    let (off, e, last) = read_exports_lem msg m (0 + 4 + length name + 1) es fits h₂ in
    let end : length msg ≡ off = omega (arith, length-drop? off msg last) in
    let more : leb (length msg) (0 + 4 + length name) ≡ false =
      ground (arith, length-drop? (0 + 4 + length name) msg h₁) in
    rw (
      read_len_bytes-At msg 0 m name (length es ∷ exports_bytes es) h refl,
      from_utf8_lossy_valid name u,
      more,
      next_byte-At msg (0 + 4 + length name) m (length es) (exports_bytes es) h₁,
      e,
      end,
    )
