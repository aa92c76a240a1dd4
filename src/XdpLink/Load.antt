-- ===== src/XdpLink/Load.antt =====
-- `load_bpf_and_xdp_attach` and the functions that it loads an object file with.
use thesis_b_cs_tu_berlin.Prelude.{
  ℕ, zero, suc, ◌/◌, ◌%◌, length, leb, ◌==◌, if◌then◌else◌, Option-cases, ◌≡◌, refl, ◌⊎◌, inl, inr,
  Bool, Option, none, some, List, [], ◌∷◌, ◌++◌,
}
use thesis_b_cs_tu_berlin.Prelude.Int.{ℤ, pos, negsuc}
use thesis_b_cs_tu_berlin.XdpLink.{LinkApi, exit_fail_xdp, is_zero, xdp_link_attach}
use thesis_b_cs_tu_berlin.XdpLink.Attach.{IsRefused, IsUnloaded, unloaded, xdp_link_attach_lem}
use thesis_b_cs_tu_berlin.CommandLine.{strncpy}

abbrev pub exit_fail_bpf : ℕ
exit_fail_bpf = 40

-- `PATH_MAX`
abbrev pub path_max : ℕ
path_max = 4096

-- `cfg->xdp_flags & XDP_FLAGS_HW_MODE`: bit 3.
abbrev pub has_hw_mode : ℕ → Bool
has_hw_mode flags = flags / 8 % 2 == 1

-- The bytes of a string.
abbrev pub Text : Type 0
Text = List ℕ

-- What the code calls of libbpf: the objects, their programs and maps in order, and the calls by their
-- names without the prefixes. An error or a NULL is `none` where nothing but a pointer comes back.
pub record ObjectApi : Type 1 where
  pub Obj : Type 0
  pub Prog : Type 0
  pub BpfMap : Type 0
  pub programs : Obj → List Prog
  pub maps : Obj → List BpfMap
  pub open_xattr : Text → Option Obj
  pub prog_load_xattr : Text → ℕ → Option Obj
  pub set_program : Obj → Prog → ℕ → Obj
  pub is_offload_neutral : BpfMap → Bool
  pub set_map_ifindex : Obj → BpfMap → ℕ → Obj
  pub map_name : BpfMap → Text
  pub obj_get : Text → ℤ
  pub reuse_fd : Obj → BpfMap → ℕ → ℤ × Obj
  pub load : Obj → ℤ × Obj
  pub find_program_by_title : Obj → Text → Option Prog
  pub title : Prog → Text
  pub program_fd : Obj → Prog → ℤ

-- The fields of `struct config` that are read; `progsec` up to its closing zero.
pub record LoadConfig : Type 0 where
  pub xdp_flags : ℕ
  pub ifindex : ℕ
  pub reuse_pinned : Bool
  pub pin_dir : Text
  pub filename : Text
  pub progsec : Text

abbrev pub first_of {ℓ} : {A : Type ℓ} → List A → Option A
first_of [] = none
first_of (x ∷ xs) = some x

module _ (b : ObjectApi) where
  -- The two `for_each` loops of `open_bpf_object`.
  abbrev pub set_programs : ℕ → List b.Prog → b.Obj → b.Obj
  set_programs ifindex [] obj = obj
  set_programs ifindex (p ∷ ps) obj = set_programs ifindex ps (b.set_program obj p ifindex)

  abbrev pub set_maps : ℕ → List b.BpfMap → b.Obj → b.Obj
  set_maps ifindex [] obj = obj
  set_maps ifindex (m ∷ ms) obj =
      set_maps ifindex ms (if b.is_offload_neutral m then obj else b.set_map_ifindex obj m ifindex)

  unfoldable pub open_bpf_object : Text → ℕ → Option b.Obj
  open_bpf_object file ifindex = elim (b.open_xattr file) [
    | none ↦ none
    | some obj ↦
        let set = set_maps ifindex (b.maps obj) (set_programs ifindex (b.programs obj) obj) in
        elim (first_of (b.programs obj)) [ none ↦ none | some first_prog ↦ some set ]
  ]

  -- One round of `reuse_maps`, from the opened pin on; `none` stands for each of its error results.
  abbrev pub reuse_opened : b.BpfMap → b.Obj → ℤ → Option b.Obj
  reuse_opened m obj (negsuc n) = none
  reuse_opened m obj (pos fd) =
      let r = b.reuse_fd obj m fd in if is_zero r.0 then some r.1 else none

  abbrev pub reuse_one : Text → b.BpfMap → b.Obj → Option b.Obj
  reuse_one path m obj =
      let buf = path ++ 47 ∷ b.map_name m in
      if leb path_max (length buf) then none else reuse_opened m obj (b.obj_get buf)

  unfoldable pub reuse_maps : Text → List b.BpfMap → b.Obj → Option b.Obj
  reuse_maps path [] obj = some obj
  reuse_maps path (m ∷ ms) obj = elim (reuse_one path m obj) [
    | none ↦ none
    | some obj' ↦ reuse_maps path ms obj'
  ]

  abbrev loaded_or_none : ℤ × b.Obj → Option b.Obj
  loaded_or_none r = if is_zero r.0 then some r.1 else none

  unfoldable pub load_bpf_object_file_reuse_maps : Text → ℕ → Text → Option b.Obj
  unfolding open_bpf_object reuse_maps
  load_bpf_object_file_reuse_maps file ifindex pin_dir = elim (open_bpf_object file ifindex) [
    | none ↦ none
    | some obj ↦ elim (reuse_maps pin_dir (b.maps obj) obj) [
      | none ↦ none
      | some obj' ↦ loaded_or_none (b.load obj')
    ]
  ]

  -- `load_bpf_object_file` is libbpf's call, with a message on an error.
  unfoldable pub load_object : LoadConfig → Option b.Obj
  unfolding load_bpf_object_file_reuse_maps
  load_object cfg =
      let offload_ifindex = if has_hw_mode cfg.xdp_flags then cfg.ifindex else 0 in
      if cfg.reuse_pinned
      then load_bpf_object_file_reuse_maps cfg.filename offload_ifindex cfg.pin_dir
      else b.prog_load_xattr cfg.filename offload_ifindex

  abbrev pub chosen_program : b.Obj → Text → Option b.Prog
  chosen_program obj [] = first_of (b.programs obj)
  chosen_program obj (c ∷ progsec) = b.find_program_by_title obj (c ∷ progsec)

-- The function exits, or returns the object; `cfg->progsec` then has these bytes.
pub data Loaded (Obj : Type 0) : Type 0 where
  exits : ℕ → Loaded Obj
  returns : Obj → (progsec : Text) → Loaded Obj

module _ (k : LinkApi) (b : ObjectApi) where
  -- Past the copy of the program's title, with its file descriptor.
  abbrev pub attach_fd : LoadConfig → k.Link → b.Obj → List ℕ → ℤ → Loaded b.Obj × k.Link
  attach_fd cfg l obj progsec (negsuc n) = (exits exit_fail_bpf, l)
  attach_fd cfg l obj progsec (pos zero) = (exits exit_fail_bpf, l)
  attach_fd cfg l obj progsec (pos (suc n)) =
      let r = xdp_link_attach k l cfg.ifindex cfg.xdp_flags (suc n) in
      (if r.0 == 0 then returns obj progsec else exits r.0, r.1)

  unfoldable pub load_bpf_and_xdp_attach : LoadConfig → k.Link → Loaded b.Obj × k.Link
  load_bpf_and_xdp_attach cfg l = elim (load_object b cfg) [
    | none ↦ (exits exit_fail_bpf, l)
    | some obj ↦ elim (chosen_program b obj cfg.progsec) [
      | none ↦ (exits exit_fail_bpf, l)
      | some prog ↦ attach_fd cfg l obj (strncpy 32 (b.title prog)) (b.program_fd obj prog)
    ]
  ]

  -- The program asked for: the one that libbpf finds under this title, or the first one if it is empty.
  abbrev pub IsAskedFor : b.Obj → Text → b.Prog → Type 0
  IsAskedFor obj [] prog = (rest : List b.Prog) × (b.programs obj ≡ prog ∷ rest)
  IsAskedFor obj (c ∷ title) prog = b.find_program_by_title obj (c ∷ title) ≡ some prog

  chosen-IsAskedFor :
      (obj : b.Obj) (title : Text) (prog : b.Prog)
      → chosen_program b obj title ≡ some prog
      → IsAskedFor obj title prog
  chosen-IsAskedFor obj [] prog e = first (b.programs obj) e
    where
      first :
          (ps : List b.Prog) → first_of ps ≡ some prog → (rest : List b.Prog) × (ps ≡ prog ∷ rest)
      first [] e = cc
      first (p ∷ ps) e = (ps, cc)
  chosen-IsAskedFor obj (c ∷ title) prog e = e

  -- The first try to attach may fail with -EEXIST; then the program of the opposite mode is taken off.
  abbrev pub IsLeft : LoadConfig → k.Link → ℕ → k.Link → Type 0
  IsLeft cfg l fd l' =
      (l' ≡ l)
      ⊎ (IsRefused k l cfg.ifindex cfg.xdp_flags fd
          × IsUnloaded k l cfg.ifindex cfg.xdp_flags
          × (l' ≡ unloaded k l cfg.ifindex cfg.xdp_flags))

  -- A run that returns has attached the program that the object has in the section asked for, or its
  -- first program; one that exits has a code of its own for what went wrong.
  abbrev pub LoadedRight : LoadConfig → k.Link → Loaded b.Obj × k.Link → Type 0
  LoadedRight cfg l r =
      ((obj : b.Obj) × (prog : b.Prog) × (n : ℕ) × (r.0 ≡ returns obj (strncpy 32 (b.title prog)))
        × IsAskedFor obj cfg.progsec prog
        × (b.program_fd obj prog ≡ pos (suc n))
        × (k.attached r.1 cfg.ifindex cfg.xdp_flags ≡ k.id_of (suc n)))
      ⊎ ((r.0 ≡ exits exit_fail_bpf) × (r.1 ≡ l))
      ⊎ ((r.0 ≡ exits exit_fail_xdp) × (fd : ℕ) × IsLeft cfg l fd r.1)

  attach_fd_lem :
      (cfg : LoadConfig) (l : k.Link) (obj : b.Obj) (prog : b.Prog) (fd : ℤ)
      → chosen_program b obj cfg.progsec ≡ some prog
      → b.program_fd obj prog ≡ fd
      → LoadedRight cfg l (attach_fd cfg l obj (strncpy 32 (b.title prog)) fd)
  attach_fd_lem cfg l obj prog (negsuc n) c e = inr (inl (refl, refl))
  attach_fd_lem cfg l obj prog (pos zero) c e = inr (inl (refl, refl))
  attach_fd_lem cfg l obj prog (pos (suc n)) c e =
      elim (xdp_link_attach_lem k l cfg.ifindex cfg.xdp_flags (suc n)) [
        | inl (ok, attached, way) ↦
            inl (obj, prog, n, rw ok refl, chosen-IsAskedFor obj cfg.progsec prog c, e, attached)
        | inr (failed, state) ↦ inr (inr (rw failed refl, suc n, state))
      ]

  -- Loading and attaching: a run that returns has attached the program of the section that was asked for,
  -- or the object's first program where none was, in the mode of the flags, and has put the first 32 bytes of
  -- the program's title into `cfg->progsec`. A run that exits does so with EXIT_FAIL_BPF before it has
  -- touched the interface, or with EXIT_FAIL_XDP when the attaching failed, and then the interface is as it
  -- was or has lost its program of the opposite mode to the call before the second try.
  pub load_bpf_and_xdp_attach_lem :
      (cfg : LoadConfig) (l : k.Link) → LoadedRight cfg l (load_bpf_and_xdp_attach cfg l)
  unfolding load_bpf_and_xdp_attach
  load_bpf_and_xdp_attach_lem cfg l = elim (Option-cases (load_object b cfg)) [
    | inl e ↦ rw (e, load_bpf_and_xdp_attach) (inr (inl (refl, refl)))
    | inr (obj, e) ↦ elim (Option-cases (chosen_program b obj cfg.progsec)) [
      | inl c ↦ rw (e, load_bpf_and_xdp_attach, c) (inr (inl (refl, refl)))
      | inr (prog, c) ↦
          rw (e, load_bpf_and_xdp_attach, c)
            (attach_fd_lem cfg l obj prog (b.program_fd obj prog) c refl)
    ]
  ]
