-- ===== src/PinnedMaps/Object.antt =====
-- eBPF_app/common/common_libbpf.c: the whole of `bpf_prog_load_xattr_maps`, with what it does to the
-- object and what it hands out, over libbpf as an interface.
use thesis_b_cs_tu_berlin.Prelude.{
  ℕ, zero, suc, if◌then◌else◌, Bool, true, false, ◌&&◌, Option, none, some, List, [], ◌∷◌,
}
use thesis_b_cs_tu_berlin.Prelude.Int.{ℤ, pos, negsuc}
use thesis_b_cs_tu_berlin.Memory.{strcmp_is_0, ◌>>=◌}
use thesis_b_cs_tu_berlin.PinnedMaps.{Text, PinnedMap, reset, is_unset}
pub mod Outcome
pub mod Freed

-- `struct bpf_prog_load_attr_maps`; `nr_pinned_maps` is the length of the table.
pub record ProgLoadAttr : Type 0 where
  pub file : Option Text
  pub prog_type : ℕ
  pub expected_attach_type : ℕ
  pub ifindex : ℕ
  pub pinned_maps : List PinnedMap

-- What the function calls of libbpf, by the names without their prefixes. A call that changes the object
-- gives the new one; `reuse_fd`, `load` and `pin` also say whether they have worked.
pub record LibApi : Type 1 where
  pub Obj : Type 0
  pub Prog : Type 0
  pub BpfMap : Type 0
  pub open_xattr : Text → ℕ → Option Obj
  pub programs : Obj → List Prog
  pub maps : Obj → List BpfMap
  pub set_program_ifindex : Obj → Prog → ℕ → Obj
  pub set_type : Obj → Prog → ℕ → Obj
  pub set_expected_attach_type : Obj → Prog → ℕ → Obj
  pub map_name : Obj → BpfMap → Text
  pub is_offload_neutral : BpfMap → Bool
  pub set_map_ifindex : Obj → BpfMap → ℕ → Obj
  pub obj_get : Text → ℤ
  pub reuse_fd : Obj → BpfMap → ℕ → Bool × Obj
  pub load : Obj → Bool × Obj
  pub pin : Obj → BpfMap → Text → Bool × Obj
  pub map_fd : Obj → BpfMap → ℕ
  pub program_fd : Obj → Prog → ℕ

module _ (b : LibApi) where
  -- What comes of a call: its result, what it stores at `pobj` and `prog_fd`, the table of pins, and
  -- whether `bpf_object__close` was called.
  pub record LoadResult : Type 0 where
    pub result : ℤ
    pub handed : Option (b.Obj × ℕ)
    pub pinned_maps : List PinnedMap
    pub is_closed : Bool

  -- `bpf_object__for_each_program`
  unfoldable pub prepare_programs : ProgLoadAttr → List b.Prog → b.Obj → b.Obj
  prepare_programs attr [] obj = obj
  prepare_programs attr (p ∷ ps) obj =
      let obj₁ = b.set_program_ifindex obj p attr.ifindex in
      let obj₂ = b.set_type obj₁ p attr.prog_type in
      prepare_programs attr ps (b.set_expected_attach_type obj₂ p attr.expected_attach_type)

  -- What a round of the inner loop leaves: the entry, the string at `mapname` if it is still there, and the
  -- object. A `bpf_map__reuse_fd` that works frees the map's name, to which `mapname` points.
  pub record Tried : Type 0 where
    pub pin_map : PinnedMap
    pub mapname : Option Text
    pub object : b.Obj

  -- A pin of the map's name: `bpf_obj_get` has given this.
  unfoldable pub use_fd : ℤ → b.BpfMap → Text → PinnedMap → b.Obj → Tried
  use_fd (pos (suc n)) m mapname p obj =
      let r = b.reuse_fd obj m (suc n) in
      (record {
        pin_map = record p { map_fd = pos (suc n) };
        mapname = (if r.0 then none else some mapname);
        object = r.1;
      })
  use_fd (pos zero) m mapname p obj = record { pin_map = p; mapname = some mapname; object = obj }
  use_fd (negsuc n) m mapname p obj = record { pin_map = p; mapname = some mapname; object = obj }

  unfoldable pub try_pin : b.BpfMap → Text → PinnedMap → b.Obj → Tried
  try_pin m mapname p obj =
      if strcmp_is_0 mapname p.name
      then use_fd (b.obj_get p.filename) m mapname p obj
      else record { pin_map = p; mapname = some mapname; object = obj }

  -- The inner loop before the load; `none` is a `strcmp` on the freed name.
  unfoldable pub try_pins :
      b.BpfMap → Option Text → List PinnedMap → b.Obj → Option (List PinnedMap × b.Obj)
  try_pins m mapname [] obj = some ([], obj)
  try_pins m none (p ∷ ps) obj = none
  try_pins m (some mapname) (p ∷ ps) obj =
      let tried = try_pin m mapname p obj in
      try_pins m tried.mapname ps tried.object >>= λ rest. some (tried.pin_map ∷ rest.0, rest.1)

  unfoldable pub open_maps :
      ℕ → List b.BpfMap → List PinnedMap → b.Obj → Option (List PinnedMap × b.Obj)
  open_maps ifindex [] pins obj = some (pins, obj)
  open_maps ifindex (m ∷ ms) pins obj =
      let set = if b.is_offload_neutral m then obj else b.set_map_ifindex obj m ifindex in
      try_pins m (some (b.map_name obj m)) pins set >>= λ tried.
      open_maps ifindex ms tried.0 tried.1

  unfoldable pub put_pin : b.BpfMap → Text → PinnedMap → b.Obj → PinnedMap × b.Obj
  put_pin m mapname p obj =
      if strcmp_is_0 mapname p.name && is_unset p.map_fd
      then (let put = b.pin obj m p.filename in
          if put.0 then (record p { map_fd = pos (b.map_fd put.1 m) }, put.1) else (p, put.1))
      else (p, obj)

  -- The inner loop after the load.
  unfoldable pub put_pins : b.BpfMap → Text → List PinnedMap → b.Obj → List PinnedMap × b.Obj
  put_pins m mapname [] obj = ([], obj)
  put_pins m mapname (p ∷ ps) obj =
      let put = put_pin m mapname p obj in
      let rest = put_pins m mapname ps put.1 in (put.0 ∷ rest.0, rest.1)

  unfoldable pub put_maps : List b.BpfMap → List PinnedMap → b.Obj → List PinnedMap × b.Obj
  put_maps [] pins obj = (pins, obj)
  put_maps (m ∷ ms) pins obj =
      let put = put_pins m (b.map_name obj m) pins obj in put_maps ms put.0 put.1

  -- From `bpf_object__load` on.
  unfoldable pub finish_load : Option b.Prog → List b.BpfMap → List PinnedMap → b.Obj → LoadResult
  finish_load none ms pins obj = record {
    result = negsuc 1;
    handed = none;
    pinned_maps = pins;
    is_closed = true;
  }
  finish_load (some first_prog) ms pins obj =
      let loaded = b.load obj in
      let put = put_maps ms pins loaded.1 in
      if loaded.0
      then (record {
        result = pos 0;
        handed = some (put.1, b.program_fd put.1 first_prog);
        pinned_maps = put.0;
        is_closed = false;
      })
      else (record { result = negsuc 21; handed = none; pinned_maps = pins; is_closed = true })

  abbrev pub first_program : List b.Prog → Option b.Prog
  first_program [] = none
  first_program (p ∷ ps) = some p

  unfoldable pub with_object : ProgLoadAttr → b.Obj → Option LoadResult
  with_object attr obj =
      let set = prepare_programs attr (b.programs obj) obj in
      open_maps attr.ifindex (b.maps obj) (reset attr.pinned_maps) set >>= λ found.
      some (finish_load (first_program (b.programs obj)) (b.maps obj) found.0 found.1)

  abbrev pub failed : ℕ → ProgLoadAttr → LoadResult
  failed code attr = record {
    result = negsuc code;
    handed = none;
    pinned_maps = attr.pinned_maps;
    is_closed = false;
  }

  abbrev pub with_opened : ProgLoadAttr → Option b.Obj → Option LoadResult
  with_opened attr none = some (failed 1 attr)
  with_opened attr (some obj) = with_object attr obj

  -- The whole call for an `attr` that is not NULL. The programs and maps of an object are those that it
  -- is opened with.
  unfoldable pub bpf_prog_load_xattr_maps : ProgLoadAttr → Option LoadResult
  bpf_prog_load_xattr_maps attr = elim attr.file [
    | none ↦ some (failed 21 attr)
    | some file ↦ with_opened attr (b.open_xattr file attr.prog_type)
  ]
