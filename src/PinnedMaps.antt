-- ===== src/PinnedMaps.antt =====
-- eBPF_app/common/common_libbpf.c and common_libbpf.h: the table of pins of `bpf_prog_load_xattr_maps`, which
-- is in PinnedMaps/Object.
use thesis_b_cs_tu_berlin.Prelude.{ℕ, ◌==◌, Bool, false, List, [], ◌∷◌}
use thesis_b_cs_tu_berlin.Prelude.Int.{ℤ, pos, negsuc}
pub mod Object

-- The bytes of a string.
abbrev pub Text : Type 0
Text = List ℕ

-- `struct bpf_pinned_map`
pub record PinnedMap : Type 0 where
  pub name : Text
  pub filename : Text
  pub map_fd : ℤ

-- `attr->pinned_maps[i].map_fd = -1`
abbrev pub reset : List PinnedMap → List PinnedMap
reset [] = []
reset (p ∷ ps) = record p { map_fd = negsuc 0 } ∷ reset ps

abbrev pub is_unset : ℤ → Bool
is_unset (negsuc n) = n == 0
is_unset (pos n) = false
