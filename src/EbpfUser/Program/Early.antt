-- ===== src/EbpfUser/Program/Early.antt =====
-- The runs of `main` that load no program.
use thesis_b_cs_tu_berlin.Prelude.{ℕ, ◌==◌, ◌≡◌, Bool, true, false, Option, none, some, List}
use thesis_b_cs_tu_berlin.Prelude.Int.{ℤ}
use thesis_b_cs_tu_berlin.Payload.{Payload}
use thesis_b_cs_tu_berlin.Bpf.{BpfArray}
use thesis_b_cs_tu_berlin.CommandLine.{Config, Opt, exit_fail_option}
use thesis_b_cs_tu_berlin.XdpLink.{LinkApi}
use thesis_b_cs_tu_berlin.XdpLink.Attach.{Detached}
use thesis_b_cs_tu_berlin.XdpLink.Load.{ObjectApi}
use thesis_b_cs_tu_berlin.EbpfUser.Program.{minus_one, stops, Run, main}

module _ (times : BpfArray ℕ) (pkts : BpfArray Payload) (k : LinkApi) (b : ObjectApi)
    (find_map_fd : b.Obj → List ℕ → ℤ) (if_nametoindex : List ℕ → ℕ) (atoi : List ℕ → ℤ) where
  -- `main` ends with this exit code, before it has a log.
  abbrev pub Ends : Run times pkts → List Opt → k.Link → ℕ → k.Link → Type 0
  Ends r options l code l' =
      main times pkts k b find_map_fd if_nametoindex atoi r options l ≡ some (stops code, l')

  abbrev pub EarlyWith :
      Run times pkts → List Opt → k.Link → Config → (no_dev unload : Bool) → Type 0
  EarlyWith r options l cfg true unload = Ends r options l exit_fail_option l
  EarlyWith r options l cfg false true =
      (code : ℕ) × (l' : k.Link) × Ends r options l code l'
      × Detached k l cfg.ifindex cfg.xdp_flags 0 (code, l')
  EarlyWith r options l cfg false false = Unit {0}

  -- The ends that need no program: by what the options are parsed to.
  abbrev pub Early : Run times pkts → List Opt → k.Link → Option Config → Type 0
  Early r options l none = Ends r options l exit_fail_option l
  Early r options l (some cfg) = EarlyWith r options l cfg (cfg.ifindex == minus_one) cfg.do_unload
