-- ===== src/EbpfUser/Program/Outcome.antt =====
-- How `main` ends.
use thesis_b_cs_tu_berlin.Prelude.{
  ℕ, suc, get_or, ◌==◌, if◌then◌else◌, ◌≡◌, refl, subst, ◌∙◌, ◌⊎◌, inl, inr, Bool, true, false,
  ◌||◌, some, List,
}
use thesis_b_cs_tu_berlin.Prelude.Int.{ℤ, pos}
use thesis_b_cs_tu_berlin.Params.{num_log_buff}
use thesis_b_cs_tu_berlin.Payload.{Payload}
use thesis_b_cs_tu_berlin.Log.Alloc.{obtained, all_succeed}
use thesis_b_cs_tu_berlin.Log.Closing.{with_log_lem}
use thesis_b_cs_tu_berlin.Bpf.{BpfArray}
use thesis_b_cs_tu_berlin.CommandLine.{Config, Opt, parse_options}
use thesis_b_cs_tu_berlin.XdpLink.{LinkApi}
use thesis_b_cs_tu_berlin.XdpLink.Load.{
  ObjectApi, returns, IsAskedFor, load_bpf_and_xdp_attach, LoadedRight, load_bpf_and_xdp_attach_lem,
}
use thesis_b_cs_tu_berlin.EbpfUser.Main.{measure}
use thesis_b_cs_tu_berlin.EbpfUser.Program.{
  exit_failure, minus_one, initial_config, load_config, uid_timestamps_text, pkt_payload_text,
  Finish, stops, out_of_memory, Run, run_loop, is_negative, with_config, main,
}

-- The options name an interface and an object file, and do not ask to unload.
pub record IsMeasuring (cfg : Config) : Type 0 where
  pub has_interface : (cfg.ifindex == minus_one) ≡ false
  pub no_unload : cfg.do_unload ≡ false
  pub has_file : (get_or cfg.filename 0 0 == 0) ≡ false

module _ (times : BpfArray ℕ) (pkts : BpfArray Payload) (k : LinkApi) (b : ObjectApi)
    (find_map_fd : b.Obj → List ℕ → ℤ) (if_nametoindex : List ℕ → ℕ) (atoi : List ℕ → ℤ) where
  -- Some of the two maps is not in the object.
  abbrev pub map_missing : b.Obj → Bool
  map_missing obj =
      is_negative (find_map_fd obj uid_timestamps_text)
      || is_negative (find_map_fd obj pkt_payload_text)

  module _ (r : Run times pkts) (options : List Opt) (l : k.Link) (cfg : Config)
      (parsed : parse_options if_nametoindex atoi options initial_config ≡ some cfg) where
    configured :
        main times pkts k b find_map_fd if_nametoindex atoi r options l
        ≡ with_config times pkts k b find_map_fd r cfg l
    unfolding main
    configured = rw (parsed, main) refl

    module _ (m : IsMeasuring cfg) (obj : b.Obj) (progsec : List ℕ) (l₁ : k.Link)
        (loads : load_bpf_and_xdp_attach k b (load_config cfg) l ≡ (returns obj progsec, l₁)) where
      loaded_lem : main times pkts k b find_map_fd if_nametoindex atoi r options l ≡ (
          if map_missing obj
          then some (stops exit_failure, l₁)
          else run_loop times pkts k b r (record cfg { progsec = progsec }) true l₁)
      unfolding with_config
      loaded_lem = configured ∙ rw (m.has_interface, m.no_unload, m.has_file, loads) refl

      run_loop_lem :
          map_missing obj ≡ false
          → main times pkts k b find_map_fd if_nametoindex atoi r options l
            ≡ run_loop times pkts k b r (record cfg { progsec = progsec }) true l₁
      run_loop_lem there = loaded_lem ∙ rw there refl

      no_memory_lem :
          all_succeed r.host.alloc num_log_buff 0 ≡ false
          → run_loop times pkts k b r (record cfg { progsec = progsec }) true l₁
            ≡ some (out_of_memory (obtained r.host.alloc num_log_buff 0), l₁)
      unfolding run_loop measure
      no_memory_lem failed = rw ((with_log_lem r.host _).1 failed) refl

      -- The object's program in the section asked for is on the interface.
      abbrev pub StillAttached : Type 0
      StillAttached =
          (prog : b.Prog) × (n : ℕ) × IsAskedFor k b obj (load_config cfg).progsec prog
          × (b.program_fd obj prog ≡ pos (suc n))
          × (k.attached l₁ cfg.ifindex cfg.xdp_flags ≡ k.id_of (suc n))

      from_right : LoadedRight k b (load_config cfg) l (returns obj progsec, l₁) → StillAttached
      from_right (inl (obj', prog, n, e, asked, fd, on)) =
          let same : obj' ≡ obj = cc in
          (
            prog,
            n,
            subst (λ o. IsAskedFor k b o (load_config cfg).progsec prog) same asked,
            subst (λ o. b.program_fd o prog ≡ pos (suc n)) same fd,
            on,
          )
      from_right (inr (inl (e, _))) = cc
      from_right (inr (inr (e, _, _))) = cc

      -- A run that has loaded and attached its program, and then finds no map of one of the two names or
      -- gets no memory for its log, ends without detaching the program: with EXIT_FAILURE, or with -1 and
      -- what it has allocated freed once, the interface still has the program that the object has in the
      -- section asked for.
      pub main_leaves_attached :
          (map_missing obj ≡ true)
            ⊎ ((map_missing obj ≡ false) × (all_succeed r.host.alloc num_log_buff 0 ≡ false))
          → (f : Finish) × (main times pkts k b find_map_fd if_nametoindex atoi r options l
              ≡ some (f, l₁))
            × ((f ≡ stops exit_failure)
                ⊎ (f ≡ out_of_memory (obtained r.host.alloc num_log_buff 0)))
            × StillAttached
      main_leaves_attached bad =
          let right = load_bpf_and_xdp_attach_lem k b (load_config cfg) l in
          let on : StillAttached = from_right (rw loads at right) in
          elim bad [
            | inl missing ↦ (stops exit_failure, loaded_lem ∙ rw missing refl, inl refl, on)
            | inr (there, failed) ↦ (
              out_of_memory (obtained r.host.alloc num_log_buff 0),
              run_loop_lem there ∙ no_memory_lem failed,
              inr refl,
              on,
            )
          ]
