-- ===== src/Types.antt =====
-- core/src/types.rs: the universal types, on a 64-bit little-endian target.
-- A `GluValue` is a union of 16 bytes, two words: `float` (its IEEE bits) and `int` (its two's
-- complement) share the first word with a slice's pointer, and a slice's length is the second.
-- Writing `float` or `int` leaves the second word uninitialised, which is `none` here.
pub mod Tags
use glu_core.Prelude.{
  ℕ, ◌≡◌, Option, none, some, List, [], ◌∷◌, Bytes, codes, ◌++◌, show_dec, eqb, if◌then◌else◌,
}
use glu_core.Outcome.{Outcome, ok, err}

pub data GluTypeTag : Type 0 where
  int float string buffer handle void : GluTypeTag

pub record GluSlice : Type 0 where
  pub ptr : ℕ
  pub len : ℕ

pub record GluValue : Type 0 where
  pub first : ℕ
  pub second : Option ℕ

-- `GluValue { int: v }` and `GluValue { float: v }`
abbrev pub of_word : ℕ → GluValue
of_word v = record { first = v; second = none }

-- `GluValue { string: s }` and `GluValue { buffer: s }`
abbrev pub of_slice : GluSlice → GluValue
of_slice s = record { first = s.ptr; second = some s.len }

pub data GluStatus : Type 0 where
  ok_status runtime invalid_args not_found link_denied : GluStatus

-- `message` is a null pointer or a C string, given by its bytes: it is leaked and never changes.
pub record GluResult : Type 0 where
  pub status : GluStatus
  pub value : GluValue
  pub message : Option Bytes

pub record GluSignature : Type 0 where
  pub params : List GluTypeTag
  pub return_type : GluTypeTag

-- `GluSignatureFFI::empty()`; the pointer and count are the list that they describe.
unfoldable pub empty_signature : GluSignature
empty_signature = record { params = []; return_type = void }

-- A function pointer: `ipc_dispatch_wrapper` of core/src/runtime.rs, or a function that a module
-- compiled in this process exports, by its address.
pub data GluWrapper : Type 0 where
  ipc_wrapper : GluWrapper
  exported : ℕ → GluWrapper

pub record GluExportEntry : Type 0 where
  pub name : Bytes
  pub wrapper : GluWrapper
  pub signature : GluSignature

-- `entries` and `count` are the list that they describe.
pub record GluModule : Type 0 where
  pub name : Bytes
  pub entries : List GluExportEntry

-- `tag as u8`
unfoldable pub tag_byte : GluTypeTag → ℕ
tag_byte int = 0
tag_byte float = 1
tag_byte string = 2
tag_byte buffer = 3
tag_byte handle = 4
tag_byte void = 5

unfoldable pub from_u8 : ℕ → Outcome GluTypeTag
from_u8 v =
    if eqb v 0
    then ok int
    else if eqb v 1
    then ok float
    else if eqb v 2
    then ok string
    else if eqb v 3
    then ok buffer
    else if eqb v 4
    then ok handle
    else if eqb v 5
    then ok void
    else if eqb v 0xFF
    then ok void
    else err (codes "unknown GluTypeTag byte " ++ show_dec v)
