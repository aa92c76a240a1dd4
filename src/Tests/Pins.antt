-- ===== src/Tests/Pins.antt =====
-- The loader with pinned maps at concrete tables.
use thesis_b_cs_tu_berlin.Prelude.{
  ℕ, length, ◌==◌, if◌then◌else◌, ◌≡◌, refl, true, false, none, some, List, [], ◌∷◌, arith,
}
use thesis_b_cs_tu_berlin.Prelude.Int.{pos, negsuc}
use thesis_b_cs_tu_berlin.PinnedMaps.{Text, PinnedMap}
use thesis_b_cs_tu_berlin.PinnedMaps.Object.{
  ProgLoadAttr, LibApi, LoadResult, prepare_programs, use_fd, try_pin, try_pins, open_maps, put_pin,
  put_pins, put_maps, finish_load, with_object, bpf_prog_load_xattr_maps,
}
use thesis_b_cs_tu_berlin.PinnedMaps.Object.Freed.{reads_freed_name}
use thesis_b_cs_tu_berlin.PinnedMaps.Object.Outcome.{IsOutcome, bpf_prog_load_xattr_maps-IsOutcome}

abbrev pin : ℕ → Text → PinnedMap
pin c file = record { name = c ∷ []; filename = file; map_fd = pos 9 }

-- Objects are lists of what was done to them: 1 for `bpf_map__pin`, 2 for `bpf_map__reuse_fd`. Only the pin
-- file "f" opens.
abbrev lib : LibApi
lib = record {
  Obj = List ℕ;
  Prog = ℕ;
  BpfMap = Text;
  open_xattr = λ file type. if length file == 0 then none else some [];
  programs = λ o. 30 ∷ 31 ∷ [];
  maps = λ o. (97 ∷ []) ∷ (98 ∷ []) ∷ [];
  set_program_ifindex = λ o p i. o;
  set_type = λ o p t. o;
  set_expected_attach_type = λ o p t. o;
  map_name = λ o m. m;
  is_offload_neutral = λ m. true;
  set_map_ifindex = λ o m i. o;
  obj_get = λ file. if length file == 1 then pos 5 else negsuc 1;
  reuse_fd = λ o m fd. (true, 2 ∷ o);
  load = λ o. (true, o);
  pin = λ o m file. (true, 1 ∷ o);
  map_fd = λ o m. 20;
  program_fd = λ o p. p;
}

abbrev attr : ProgLoadAttr
attr = record {
  file = some (120 ∷ []);
  prog_type = 6;
  expected_attach_type = 0;
  ifindex = 2;
  pinned_maps = pin 97 (102 ∷ []) ∷ [];
}

-- Another entry behind the one whose file opens.
abbrev two_pins : ProgLoadAttr
two_pins = record attr { pinned_maps = pin 97 (102 ∷ []) ∷ pin 98 (103 ∷ 103 ∷ []) ∷ [] }

bpf_prog_load_xattr_maps-IsOutcome_example :
    (r : LoadResult lib) × (bpf_prog_load_xattr_maps lib attr ≡ some r) × IsOutcome lib attr r
bpf_prog_load_xattr_maps-IsOutcome_example =
    bpf_prog_load_xattr_maps-IsOutcome lib attr (omega arith)

reads_freed_name_example : bpf_prog_load_xattr_maps lib two_pins ≡ none
reads_freed_name_example =
    reads_freed_name lib two_pins (120 ∷ []) [] (97 ∷ []) ((98 ∷ []) ∷ []) [] [] (pin 97 (102 ∷ []))
      (pin 98 (103 ∷ 103 ∷ [])) 4 refl refl refl refl tt (λ o. refl) refl (λ o. refl)

-- The pin is reused, and the first program is handed out.
attr_loads :
    bpf_prog_load_xattr_maps lib attr
    ≡ some (record {
      result = pos 0;
      handed = some (2 ∷ [], 30);
      pinned_maps = record (pin 97 (102 ∷ [])) { map_fd = pos 5 } ∷ [];
      is_closed = false;
    })
unfolding bpf_prog_load_xattr_maps with_object prepare_programs open_maps try_pins try_pin use_fd
    finish_load put_maps put_pins put_pin
attr_loads = refl

-- A pin that does not open is pinned after the load.
not_there_pins :
    bpf_prog_load_xattr_maps lib (record attr { pinned_maps = pin 98 (103 ∷ 103 ∷ []) ∷ [] })
    ≡ some (record {
      result = pos 0;
      handed = some (1 ∷ [], 30);
      pinned_maps = record (pin 98 (103 ∷ 103 ∷ [])) { map_fd = pos 20 } ∷ [];
      is_closed = false;
    })
unfolding bpf_prog_load_xattr_maps with_object prepare_programs open_maps try_pins try_pin use_fd
    finish_load put_maps put_pins put_pin
not_there_pins = refl
