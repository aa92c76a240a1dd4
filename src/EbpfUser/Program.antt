-- ===== src/EbpfUser/Program.antt =====
-- The whole `main` of eBPF_app/eBPF_measure/ebpf_measure_user.c: options, loading, the measurement,
-- the two exports and the detaching.
use thesis_b_cs_tu_berlin.Prelude.{
  ℕ, ◌-◌, ◌^◌, replicate, get_or, ◌==◌, if◌then◌else◌, Bool, true, false, ◌||◌, Option, none, some,
  List, [], ◌∷◌, ◌++◌,
}
use thesis_b_cs_tu_berlin.Prelude.Int.{ℤ, pos, negsuc}
use thesis_b_cs_tu_berlin.Memory.{◌>>=◌}
use thesis_b_cs_tu_berlin.Payload.{Payload}
use thesis_b_cs_tu_berlin.Log.{Exported}
use thesis_b_cs_tu_berlin.Log.Closing.{End, exits, aborts, no_memory, exported, waits, Host}
use thesis_b_cs_tu_berlin.Bpf.{BpfArray}
use thesis_b_cs_tu_berlin.CommandLine.{Config, Opt, parse_options, exit_fail_option}
use thesis_b_cs_tu_berlin.XdpLink.{LinkApi, xdp_link_detach}
use thesis_b_cs_tu_berlin.XdpLink.Load.{
  ObjectApi, LoadConfig, Loaded, returns, load_bpf_and_xdp_attach,
}
use thesis_b_cs_tu_berlin.EbpfUser.Main.{export_times, measure}
pub mod Outcome
pub mod Early

abbrev pub exit_failure : ℕ
exit_failure = 1

-- -1 in the 32 bits of an `int`.
abbrev pub minus_one : ℕ
minus_one = 2 ^ 32 - 1

-- The string in a `char` array.
abbrev pub c_string : List ℕ → List ℕ
c_string [] = []
c_string (c ∷ cs) = if c == 0 then [] else c ∷ c_string cs

-- "xdp_sock", "uid_timestamps" and "pkt_payload"
abbrev pub xdp_sock_text : List ℕ
xdp_sock_text = 120 ∷ 100 ∷ 112 ∷ 95 ∷ 115 ∷ 111 ∷ 99 ∷ 107 ∷ []

abbrev pub uid_timestamps_text : List ℕ
uid_timestamps_text =
    117 ∷ 105 ∷ 100 ∷ 95 ∷ 116 ∷ 105 ∷ 109 ∷ 101 ∷ 115 ∷ 116 ∷ 97 ∷ 109 ∷ 112 ∷ 115 ∷ []

abbrev pub pkt_payload_text : List ℕ
pkt_payload_text = 112 ∷ 107 ∷ 116 ∷ 95 ∷ 112 ∷ 97 ∷ 121 ∷ 108 ∷ 111 ∷ 97 ∷ 100 ∷ []

-- `cfg` as it is initialised.
abbrev pub initial_config : Config
initial_config = record {
  xdp_flags = 0;
  ifindex = minus_one;
  ifname_buf = replicate 16 0;
  redirect_ifindex = 0;
  redirect_ifname_buf = replicate 16 0;
  do_unload = false;
  reuse_maps = false;
  filename = replicate 512 0;
  progsec = xdp_sock_text ++ replicate 24 0;
  src_mac = replicate 18 0;
  dest_mac = replicate 18 0;
  xsk_bind_flags = 0;
  xsk_if_queue = pos 0;
  xsk_poll_mode = false;
  verbose = true;
}

-- What `load_bpf_and_xdp_attach` reads of it. No option of this program sets `pin_dir`.
abbrev pub load_config : Config → LoadConfig
load_config cfg = record {
  xdp_flags = cfg.xdp_flags;
  ifindex = cfg.ifindex;
  reuse_pinned = cfg.reuse_maps;
  pin_dir = [];
  filename = c_string cfg.filename;
  progsec = c_string cfg.progsec;
}

-- How `main` ends: with an exit code before it has a log, with a failed allocation and the pointers that
-- it has freed, or with EXIT_OK past both exports.
pub data Finish : Type 0 where
  stops : ℕ → Finish
  out_of_memory : List ℕ → Finish
  done : Exported → (freed time_lines : List ℕ) → Finish

abbrev pub is_negative : ℤ → Bool
is_negative (pos n) = false
is_negative (negsuc n) = true

-- What the run meets past the loading: the memory, whether each file opens, the rounds of the loop as
-- they find the payload map, and the time map at the end.
module _ (times : BpfArray ℕ) (pkts : BpfArray Payload) where
  pub record Run : Type 0 where
    pub host : Host
    pub rounds : List (pkts.Map × ℕ)
    pub times_opens : Bool
    pub time_map : times.Map

module _ (times : BpfArray ℕ) (pkts : BpfArray Payload) (k : LinkApi) (b : ObjectApi) where
  -- The second export and the clean-up, whose result is not looked at. `none` is a write to the NULL that
  -- `fopen` has returned; `measure` ends in none of the last two ways.
  abbrev pub finish_run : Run times pkts → Config → Bool → k.Link → End → Option (Finish × k.Link)
  finish_run r cfg loaded l (exported file out freed) =
      if r.times_opens
      then some (
        done out freed (if loaded then export_times times r.time_map else []),
        (xdp_link_detach k l cfg.ifindex cfg.xdp_flags 0).1,
      )
      else none
  finish_run r cfg loaded l (no_memory freed) = some (out_of_memory freed, l)
  finish_run r cfg loaded l (exits code) = some (stops code, l)
  finish_run r cfg loaded l aborts = none
  finish_run r cfg loaded l (waits log) = none

  -- From the allocation on. With no program loaded both map descriptors are still 0, which is no map, and
  -- every lookup fails.
  unfoldable pub run_loop : Run times pkts → Config → Bool → k.Link → Option (Finish × k.Link)
  run_loop r cfg loaded l =
      measure pkts r.host (if loaded then r.rounds else []) >>= finish_run r cfg loaded l

  -- `find_map_fd` is `bpf_map__fd` of what `bpf_object__find_map_by_name` has found.
  module _ (find_map_fd : b.Obj → List ℕ → ℤ) where
    abbrev pub after_load :
        Run times pkts → Config → Loaded b.Obj → k.Link → Option (Finish × k.Link)
    after_load r cfg (Loaded.exits code) l = some (stops code, l)
    after_load r cfg (returns obj progsec) l =
        if is_negative (find_map_fd obj uid_timestamps_text)
          || is_negative (find_map_fd obj pkt_payload_text)
        then some (stops exit_failure, l)
        else run_loop r (record cfg { progsec = progsec }) true l

    -- Past the command line.
    unfoldable pub with_config : Run times pkts → Config → k.Link → Option (Finish × k.Link)
    unfolding run_loop
    with_config r cfg l =
        if cfg.ifindex == minus_one
        then some (stops exit_fail_option, l)
        else (if cfg.do_unload
            then (let d = xdp_link_detach k l cfg.ifindex cfg.xdp_flags 0 in some (stops d.0, d.1))
            else (if get_or cfg.filename 0 0 == 0
                then run_loop r cfg false l
                else (let q = load_bpf_and_xdp_attach k b (load_config cfg) l in
                    after_load r cfg q.0 q.1)))

    unfoldable pub main :
        (List ℕ → ℕ) → (List ℕ → ℤ) → Run times pkts → List Opt → k.Link → Option (Finish × k.Link)
    unfolding with_config
    main if_nametoindex atoi r options l =
        elim (parse_options if_nametoindex atoi options initial_config) [
          | none ↦ some (stops exit_fail_option, l)
          | some cfg ↦ with_config r cfg l
        ]
