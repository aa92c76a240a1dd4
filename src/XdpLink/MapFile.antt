-- ===== src/XdpLink/MapFile.antt =====
-- `open_bpf_map_file` and `action2str`.
use thesis_b_cs_tu_berlin.Prelude.{
  ℕ, ◌-◌, get_elem?, take, ltb, if◌then◌else◌, codes, ◌≡◌, refl, sym, ap, subst, ◌∙◌, ◌⊎◌, inl, inr,
  Bool, true, false, Option, none, some, List, [], ◌∷◌, ◌++◌,
}
use thesis_b_cs_tu_berlin.Prelude.Int.{ℤ, pos, negsuc}
use thesis_b_cs_tu_berlin.XdpLink.MapInfo.{MapInfo}
use thesis_b_cs_tu_berlin.XdpLink.Load.{Text, path_max, exit_fail_bpf}

-- What the code calls of libbpf: a descriptor or a negative answer, and the info or an error.
pub record MapFiles : Type 0 where
  pub obj_get : Text → ℤ
  pub get_info_by_fd : ℕ → Option MapInfo

-- What `snprintf(filename, PATH_MAX, "%s/%s", pin_dir, mapname)` leaves in `filename`. Its length is
-- tested for an error only.
abbrev pub map_path : Text → Text → Text
map_path pin_dir mapname = take (path_max - 1) (pin_dir ++ 47 ∷ mapname)

-- The return value, and what is written to `*info`.
abbrev pub with_info : Bool → ℕ → Option MapInfo → ℤ × Option MapInfo
with_info false fd answer = (pos fd, none)
with_info true fd none = (pos exit_fail_bpf, none)
with_info true fd (some info) = (pos fd, some info)

module _ (k : MapFiles) where
  abbrev pub opened : Bool → ℤ → ℤ × Option MapInfo
  opened wants_info (negsuc n) = (negsuc n, none)
  opened wants_info (pos fd) = with_info wants_info fd (k.get_info_by_fd fd)

  unfoldable pub open_bpf_map_file : Text → Text → Bool → ℤ × Option MapInfo
  open_bpf_map_file pin_dir mapname wants_info =
      opened wants_info (k.obj_get (map_path pin_dir mapname))

-- `xdp_action_names`, by the number of the action; the last one is for an unknown action.
abbrev pub xdp_action_names : List Text
xdp_action_names =
    codes "XDP_ABORTED"
    ∷ codes "XDP_DROP"
    ∷ codes "XDP_PASS"
    ∷ codes "XDP_TX"
    ∷ codes "XDP_REDIRECT"
    ∷ codes "XDP_UNKNOWN"
    ∷ []

-- `XDP_ACTION_MAX`: `XDP_REDIRECT + 1 + 1`, and `XDP_REDIRECT` is 4.
abbrev pub action_max : ℕ
action_max = 6

-- `none` is NULL.
unfoldable pub action2str : ℕ → Option Text
action2str action = if ltb action action_max then get_elem? xdp_action_names action else none

magnitude : ℤ → ℕ
magnitude (pos n) = n
magnitude (negsuc n) = n

module _ (k : MapFiles) where
  -- A descriptor of the pinned map with its info, or the number 40 for a map whose info cannot be read.
  abbrev pub Answer : Text → Text → ℕ → Option MapInfo → Type 0
  Answer pin_dir mapname fd info =
      ((k.obj_get (map_path pin_dir mapname) ≡ pos fd) × (info ≡ k.get_info_by_fd fd))
      ⊎ ((fd ≡ exit_fail_bpf)
          × ((held : ℕ) × (k.obj_get (map_path pin_dir mapname) ≡ pos held)
              × (k.get_info_by_fd held ≡ none)
              × (info ≡ none)))

  -- The caller gets a descriptor of the pinned map with its info, unless the answer is negative or 40. 40
  -- is EXIT_FAIL_BPF, the answer where the info of a map that is open cannot be read; it is no negative
  -- number, so a caller that tests for one takes it for the descriptor 40. The name of the pinned file is
  -- cut off at `PATH_MAX - 1` bytes, so two names that agree so far are one file.
  pub open_bpf_map_file_lem :
      (pin_dir mapname : Text) (fd : ℕ)
      → (open_bpf_map_file k pin_dir mapname true).0 ≡ pos fd
      → Answer pin_dir mapname fd (open_bpf_map_file k pin_dir mapname true).1
  unfolding open_bpf_map_file magnitude
  open_bpf_map_file_lem pin_dir mapname fd e =
      by_answer (k.obj_get (map_path pin_dir mapname)) refl e
    where
      by_info :
          (held : ℕ) (o : Option MapInfo)
          → k.obj_get (map_path pin_dir mapname) ≡ pos held
          → k.get_info_by_fd held ≡ o
          → (with_info true held o).0 ≡ pos fd
          → Answer pin_dir mapname fd (with_info true held o).1
      by_info held none a i e = inr (same_fd e, (held, a, i, refl))
        where
          same_fd : pos exit_fail_bpf ≡ pos fd → fd ≡ exit_fail_bpf
          same_fd h = sym (ap magnitude h)
      by_info held (some info) a i e =
          let same : held ≡ fd = ap magnitude e in
          inl (a ∙ ap pos same, subst (λ d. some info ≡ k.get_info_by_fd d) same (sym i))

      by_answer :
          (z : ℤ)
          → k.obj_get (map_path pin_dir mapname) ≡ z
          → (opened k true z).0 ≡ pos fd
          → Answer pin_dir mapname fd (opened k true (k.obj_get (map_path pin_dir mapname))).1
      by_answer (negsuc n) a e = cc
      by_answer (pos held) a e =
          subst (λ z. Answer pin_dir mapname fd (opened k true z).1) (sym a)
            (by_info held (k.get_info_by_fd held) a refl e)
