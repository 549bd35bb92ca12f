-- ===== src/Physics/Abi.antt =====
-- `coreffi::abi`: the search for the core that is already loaded in the process, on Linux. The
-- dynamic loader is a parameter: what `dlopen` answers to a name and a mode, and `dlsym` to a handle
-- and a symbol; `none` is the null pointer.
pub mod Search
use Prim.Native.Nat.{bit_or}
use glu_core.Prelude.{
  ℕ, Bool, true, false, ◌||◌, Option, none, some, List, [], ◌∷◌, ◌++◌, Bytes, codes, eqb,
  if◌then◌else◌,
}
use glu_core.Outcome.{Outcome, ok, panic}
use glu_core.Utf8.{is_utf8}

pub record Loader : Type 0 where
  pub dlopen : Bytes → ℕ → Option ℕ
  pub dlsym : ℕ → Bytes → Option ℕ

pub record CoreAbi : Type 0 where
  pub call : ℕ
  pub set_caller : ℕ

abbrev pub rtld_noload : ℕ
rtld_noload = 0x4

abbrev pub rtld_lazy : ℕ
rtld_lazy = 0x1

abbrev pub rtld_global : ℕ
rtld_global = 0x100

abbrev pub core_fname : Bytes
core_fname = codes "libglucore_core.so"

abbrev ends_with_slash : Bytes → Bool
ends_with_slash [] = false
ends_with_slash (b ∷ []) = eqb b 47
ends_with_slash (b ∷ c ∷ bs) = ends_with_slash (c ∷ bs)

abbrev is_empty : Bytes → Bool
is_empty [] = true
is_empty (b ∷ bs) = false

-- `Path::join` with a relative path
unfoldable pub join : Bytes → Bytes → Bytes
join dir name = if is_empty dir || ends_with_slash dir then dir ++ name else dir ++ (47 ∷ name)

-- `if let Some(s) = p.to_str() { candidates.push(CString::new(s).unwrap()) }`; a path of the system
-- has no zero byte.
abbrev push : Bytes → List Bytes
push p = if is_utf8 p then p ∷ [] else []

abbrev from_cwd : Option Bytes → List Bytes
from_cwd none = []
from_cwd (some cwd) =
    push (join (join (join cwd (codes "target")) (codes "release")) core_fname)
    ++ push
        (join (join (join (join cwd (codes "..")) (codes "target")) (codes "release")) core_fname)

abbrev from_dir : Option Bytes → List Bytes
from_dir none = []
from_dir (some dir) = push (join dir core_fname)

-- The names to try: `cwd` is the current directory, and `dir` the folder of the module's own file.
unfoldable pub candidates : Option Bytes → Option Bytes → List Bytes
candidates cwd dir = core_fname ∷ (from_cwd cwd ++ from_dir dir)

module _ (loader : Loader) where
  -- First the image that is already there, then a new one.
  unfoldable pub open_candidate : Bytes → Option ℕ
  open_candidate c = elim (loader.dlopen c (bit_or (bit_or rtld_lazy rtld_noload) rtld_global)) [
    | some h ↦ some h
    | none ↦ loader.dlopen c (bit_or rtld_lazy rtld_global)
  ]

  abbrev pub both_symbols : Option ℕ → Option ℕ → Option CoreAbi
  both_symbols (some p_call) (some p_setc) = some (record { call = p_call; set_caller = p_setc })
  both_symbols (some p_call) none = none
  both_symbols none p_setc = none

  unfoldable pub symbols : ℕ → Option CoreAbi
  symbols h =
      both_symbols (loader.dlsym h (codes "glucore_call"))
        (loader.dlsym h (codes "glucore_set_caller_identity"))

  -- `for c in &candidates`
  unfoldable pub resolve : List Bytes → Option CoreAbi
  resolve [] = none
  resolve (c ∷ cs) =
      let rest = resolve cs in
      elim (open_candidate c) [
        | none ↦ rest
        | some h ↦ elim (symbols h) [ none ↦ rest | some a ↦ some a ]
      ]

  abbrev initialized : Option CoreAbi → Outcome CoreAbi × Option CoreAbi
  initialized none = (panic, none)
  initialized (some a) = (ok a, some a)

  -- `ABI.get_or_init`, with the lock's content before and after; a panic leaves it empty.
  unfoldable pub abi : List Bytes → Option CoreAbi → Outcome CoreAbi × Option CoreAbi
  abi cs (some a) = (ok a, some a)
  abi cs none = initialized (resolve cs)
