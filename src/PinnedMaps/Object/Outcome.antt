-- ===== src/PinnedMaps/Object/Outcome.antt =====
-- What `bpf_prog_load_xattr_maps` comes to, on each of its paths, for a table of one pin or none.
use thesis_b_cs_tu_berlin.Prelude.{
  ℕ, suc, ◌≤◌, length, if◌then◌else◌, Bool-cases, ◌≡◌, refl, ap, inl, inr, true, false, Option,
  none, some, List, [], ◌∷◌, arith,
}
use thesis_b_cs_tu_berlin.Prelude.Int.{pos, negsuc}
use thesis_b_cs_tu_berlin.PinnedMaps.{Text, PinnedMap, reset}
use thesis_b_cs_tu_berlin.PinnedMaps.Object.{
  ProgLoadAttr, LibApi, LoadResult, prepare_programs, try_pin, try_pins, open_maps, finish_load,
  first_program, with_object, failed, with_opened, bpf_prog_load_xattr_maps,
}

module _ (b : LibApi) where
  one_round :
      (m : b.BpfMap) (name : Text) (ps : List PinnedMap) (o : b.Obj)
      → length ps ≤ 1
      → (r : List PinnedMap × b.Obj) × (try_pins b m (some name) ps o ≡ some r) × (length r.0 ≤ 1)
  unfolding try_pins
  one_round m name [] o h = (([], o), refl, h)
  one_round m name (p ∷ []) o h =
      let tried = try_pin b m name p o in ((tried.pin_map ∷ [], tried.object), refl, omega arith)
  one_round m name (p ∷ q ∷ ps) o h = absurd (omega arith)

  all_rounds :
      (ifindex : ℕ) (ms : List b.BpfMap) (ps : List PinnedMap) (o : b.Obj)
      → length ps ≤ 1
      → (r : List PinnedMap × b.Obj) × (open_maps b ifindex ms ps o ≡ some r)
  unfolding open_maps
  all_rounds ifindex [] ps o h = ((ps, o), refl)
  all_rounds ifindex (m ∷ ms) ps o h =
      let set = if b.is_offload_neutral m then o else b.set_map_ifindex o m ifindex in
      let (r, e, few) = one_round m (b.map_name o m) ps set h in
      let (r', e') = all_rounds ifindex ms r.0 r.1 few in (r', rw (e, e') refl)

  length-reset : (ps : List PinnedMap) → length (reset ps) ≡ length ps
  length-reset [] = refl
  length-reset (p ∷ ps) = ap suc (length-reset ps)

  -- An error before there is an object: nothing has changed.
  abbrev pub IsUnopened : ℕ → ProgLoadAttr → LoadResult b → Type 0
  IsUnopened code attr r =
      (r.result ≡ negsuc code)
      × (r.handed ≡ none)
      × (r.pinned_maps ≡ attr.pinned_maps)
      × (r.is_closed ≡ false)

  -- An error with an object, which is closed again.
  abbrev pub IsClosed : ℕ → LoadResult b → Type 0
  IsClosed code r = (r.result ≡ negsuc code) × (r.handed ≡ none) × (r.is_closed ≡ true)

  abbrev pub IsHandedOut : b.Prog → LoadResult b → Type 0
  IsHandedOut first_prog r =
      (r.result ≡ pos 0)
      × ((o : b.Obj) × (r.handed ≡ some (o, b.program_fd o first_prog)))
      × (r.is_closed ≡ false)

  -- The end of a call whose object is `o` past the first two loops, and was opened with these programs.
  abbrev pub IsFinished : List b.Prog → b.Obj → LoadResult b → Type 0
  IsFinished [] o r = IsClosed 1 r
  IsFinished (first_prog ∷ progs) o r =
      if (b.load o).0 then IsHandedOut first_prog r else IsClosed 21 r

  abbrev pub IsTried : ProgLoadAttr → Option b.Obj → LoadResult b → Type 0
  IsTried attr none r = IsUnopened 1 attr r
  IsTried attr (some obj) r =
      (pins : List PinnedMap) × (o : b.Obj) × (open_maps b attr.ifindex (b.maps obj)
          (reset attr.pinned_maps) (prepare_programs b attr (b.programs obj) obj)
        ≡ some (pins, o))
      × IsFinished (b.programs obj) o r

  abbrev pub IsOutcome : ProgLoadAttr → LoadResult b → Type 0
  IsOutcome attr r = elim attr.file [
    | none ↦ IsUnopened 21 attr r
    | some file ↦ IsTried attr (b.open_xattr file attr.prog_type) r
  ]

  finish_lem :
      (progs : List b.Prog) (ms : List b.BpfMap) (pins : List PinnedMap) (o : b.Obj)
      → IsFinished progs o (finish_load b (first_program b progs) ms pins o)
  unfolding finish_load
  finish_lem [] ms pins o = (refl, refl, refl)
  finish_lem (first_prog ∷ progs) ms pins o = elim (Bool-cases (b.load o).0) [
    | inl works ↦ rw works (refl, (_, refl), refl)
    | inr fails ↦ rw fails (refl, refl, refl)
  ]

  with_opened_lem :
      (attr : ProgLoadAttr) (opened : Option b.Obj)
      → length attr.pinned_maps ≤ 1
      → (r : LoadResult b) × (with_opened b attr opened ≡ some r) × IsTried attr opened r
  unfolding with_object
  with_opened_lem attr none h = (failed b 1 attr, refl, (refl, refl, refl, refl))
  with_opened_lem attr (some obj) h =
      let ((pins, o), e) =
        all_rounds attr.ifindex (b.maps obj) (reset attr.pinned_maps)
          (prepare_programs b attr (b.programs obj) obj)
          (omega (arith, length-reset attr.pinned_maps)) in
      (
        finish_load b (first_program b (b.programs obj)) (b.maps obj) pins o,
        rw e refl,
        (pins, o, e, finish_lem (b.programs obj) (b.maps obj) pins o),
      )

  -- With a table of one pin or none, the call comes to an end with no read of freed memory, in one of five
  -- ways. With no file name, or a file that does not open, it fails with -EINVAL or -ENOENT and changes
  -- nothing. An object with no program (-ENOENT), or one that does not load (-EINVAL), is closed again. A
  -- load that works returns 0 and hands out the object, not closed, with the first program's descriptor.
  pub bpf_prog_load_xattr_maps-IsOutcome :
      (attr : ProgLoadAttr)
      → length attr.pinned_maps ≤ 1
      → (r : LoadResult b) × (bpf_prog_load_xattr_maps b attr ≡ some r) × IsOutcome attr r
  unfolding bpf_prog_load_xattr_maps
  bpf_prog_load_xattr_maps-IsOutcome attr h = by_file attr.file
    where
      by_file :
          (f : Option Text)
          → (r : LoadResult b) × (bpf_prog_load_xattr_maps b (record attr { file = f }) ≡ some r)
            × IsOutcome (record attr { file = f }) r
      by_file none = (failed b 21 (record attr { file = none }), refl, (refl, refl, refl, refl))
      by_file (some file) =
          with_opened_lem (record attr { file = some file }) (b.open_xattr file attr.prog_type) h
