-- ===== src/PinnedMaps/Object/Freed.antt =====
-- A map whose pin was opened: its name is freed, and the loop goes on comparing with it.
use thesis_b_cs_tu_berlin.Prelude.{
  ℕ, suc, ◌≡◌, refl, ap, true, false, none, some, List, [], ◌∷◌, ◌++◌, arith,
}
use thesis_b_cs_tu_berlin.Prelude.Int.{pos, negsuc}
use thesis_b_cs_tu_berlin.Memory.{strcmp_is_0}
use thesis_b_cs_tu_berlin.PinnedMaps.{Text, PinnedMap, reset}
use thesis_b_cs_tu_berlin.PinnedMaps.Object.{
  ProgLoadAttr, LibApi, use_fd, try_pin, try_pins, open_maps, with_object, bpf_prog_load_xattr_maps,
}

same_text : (a : Text) → strcmp_is_0 a a ≡ true
same_text [] = refl
same_text (c ∷ a) = ground (arith, same_text a)

-- The rounds for entries of other names.
abbrev pub NoneNamed : Text → List PinnedMap → Type 0
NoneNamed name [] = Unit {0}
NoneNamed name (p ∷ ps) = (strcmp_is_0 name p.name ≡ false) × NoneNamed name ps

module _ (b : LibApi) where
  tries :
      (m : b.BpfMap) (before after : List PinnedMap) (p p₂ : PinnedMap) (n : ℕ) (o : b.Obj)
      → NoneNamed p.name before
      → b.obj_get p.filename ≡ pos (suc n)
      → ((o : b.Obj) → (b.reuse_fd o m (suc n)).0 ≡ true)
      → try_pins b m (some p.name) (before ++ p ∷ p₂ ∷ after) o ≡ none
  unfolding try_pins try_pin use_fd
  tries m [] after p p₂ n o others opens works = rw (same_text p.name, opens, works o) refl
  tries m (q ∷ before) after p p₂ n o others opens works =
      rw (others.0, tries m before after p p₂ n o others.1 opens works) refl

  reset_middle :
      (before after : List PinnedMap) (p p₂ : PinnedMap)
      → reset (before ++ p ∷ p₂ ∷ after)
        ≡ reset before
          ++ record p { map_fd = negsuc 0 } ∷ record p₂ { map_fd = negsuc 0 } ∷ reset after
  reset_middle [] after p p₂ = refl
  reset_middle (q ∷ before) after p p₂ =
      ap (λ t. record q { map_fd = negsuc 0 } ∷ t) (reset_middle before after p p₂)

  reset_names : (name : Text) (ps : List PinnedMap) → NoneNamed name ps → NoneNamed name (reset ps)
  reset_names name [] others = tt
  reset_names name (p ∷ ps) others = (others.0, reset_names name ps others.1)

  -- Let the object's first map have the name of an entry of the table that is not the last one, and of none
  -- before it, let that entry's file open with a positive descriptor, and let `bpf_map__reuse_fd` work on the
  -- map, so that it frees the map's name. Then the call reads the freed name. That setting the types and
  -- interfaces keeps the map's name is assumed.
  pub reads_freed_name :
      (attr : ProgLoadAttr) (file : Text) (obj : b.Obj) (m : b.BpfMap) (ms : List b.BpfMap)
      (before after : List PinnedMap) (p p₂ : PinnedMap) (n : ℕ)
      → attr.file ≡ some file
      → b.open_xattr file attr.prog_type ≡ some obj
      → b.maps obj ≡ m ∷ ms
      → attr.pinned_maps ≡ before ++ p ∷ p₂ ∷ after
      → NoneNamed p.name before
      → ((o : b.Obj) → b.map_name o m ≡ p.name)
      → b.obj_get p.filename ≡ pos (suc n)
      → ((o : b.Obj) → (b.reuse_fd o m (suc n)).0 ≡ true)
      → bpf_prog_load_xattr_maps b attr ≡ none
  unfolding bpf_prog_load_xattr_maps with_object open_maps
  reads_freed_name attr file obj m ms before after p p₂ n has_file opened first_map table others
        named opens works =
      rw
        (
          has_file,
          opened,
          first_map,
          table,
          reset_middle before after p p₂,
          named _,
          tries m (reset before) (reset after) (record p { map_fd = negsuc 0 })
              (record p₂ { map_fd = negsuc 0 }) n _ (reset_names p.name before others) opens works,
        )
        refl
