-- ===== src/Examples/Loading.antt =====
-- How the physics module finds its own file and the core.
use glu_core.Prelude.{◌≡◌, ◌↔◌, refl, codes, some, none, ◌&&◌, eqb, if◌then◌else◌, bytes_beq}
use glu_core.Outcome.{ok, panic}
use glu_core.Physics.Maps.{from_str_radix, hex_from, hex_digit, unsigned, trim_start, trim_end}
use glu_core.Physics.Maps.Found.{Mapping, IsMapping}
use glu_core.Physics.Abi.{Loader, CoreAbi, core_fname, candidates, abi}
use glu_core.Physics.Abi.Search.{FirstOffer, abi_finds}

-- "1000-2000 r--p 0 08:01 12   /l.so"
abbrev own_file : Mapping
own_file = record {
  low = codes "1000";
  start = 0x1000;
  high = codes "2000";
  end = 0x2000;
  perms = codes "r--p";
  offset = codes "0";
  dev = codes "08:01";
  inode = codes "12";
  padding = 2;
  path = codes "/l.so";
}

own_file-IsMapping : IsMapping own_file
unfolding from_str_radix unsigned hex_from hex_digit trim_start trim_end
own_file-IsMapping = record {
  low_number = refl;
  high_number = refl;
  low_no_dash = (refl, (refl, (refl, (refl, tt))));
  high_no_dash = (refl, (refl, (refl, (refl, tt))));
  low_no_space = (refl, (refl, (refl, (refl, tt))));
  high_no_space = (refl, (refl, (refl, (refl, tt))));
  perms_no_space = (refl, (refl, (refl, (refl, tt))));
  offset_no_space = (refl, tt);
  dev_no_space = (refl, (refl, (refl, (refl, (refl, tt)))));
  inode_no_space = (refl, (refl, tt));
  path_one_line = (refl, (refl, (refl, (refl, (refl, tt)))));
  path_begins = refl;
  path_ends = refl;
}

-- A loader that has the core open under its plain name.
abbrev loader : Loader
loader = record {
  dlopen = λ c mode. if bytes_beq c core_fname && eqb mode 0x105 then some 9 else none;
  dlsym = λ h symbol. some 0x4000;
}

abi_finds_example :
    ((a : CoreAbi)
      → (abi loader (candidates (some (codes "/home")) none) none ≡ (ok a, some a))
        ↔ FirstOffer loader (candidates (some (codes "/home")) none) a)
    × ((abi loader (candidates (some (codes "/home")) none) none ≡ (panic, none))
        ↔ ((a : CoreAbi) → ¬ FirstOffer loader (candidates (some (codes "/home")) none) a))
abi_finds_example = abi_finds loader (candidates (some (codes "/home")) none)
