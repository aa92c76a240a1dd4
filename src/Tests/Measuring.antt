-- ===== src/Tests/Measuring.antt =====
-- `main` of the eBPF user program at concrete options.
use thesis_b_cs_tu_berlin.Prelude.{
  ℕ, codes, ◌==◌, if◌then◌else◌, ◌≡◌, refl, ◌⊎◌, inl, true, ◌&&◌, some, List, [], ◌∷◌,
}
use thesis_b_cs_tu_berlin.Prelude.Int.{pos, negsuc}
use thesis_b_cs_tu_berlin.Params.{num_log_buff}
use thesis_b_cs_tu_berlin.Log.Alloc.{obtained}
use thesis_b_cs_tu_berlin.CommandLine.{
  Config, Opt, dev, opt_filename, parse_option, parse_options, strncpy,
}
use thesis_b_cs_tu_berlin.XdpLink.{xdp_link_attach}
use thesis_b_cs_tu_berlin.XdpLink.Load.{ObjectApi, returns, load_object, load_bpf_and_xdp_attach}
use thesis_b_cs_tu_berlin.EbpfUser.Program.{
  initial_config, load_config, Finish, stops, out_of_memory, Run, main,
}
use thesis_b_cs_tu_berlin.EbpfUser.Program.Outcome.{
  IsMeasuring, main_leaves_attached, StillAttached,
}
use thesis_b_cs_tu_berlin.EbpfUser.Program.Early.{Early}
use thesis_b_cs_tu_berlin.Tests.Attaching.{kernel, one_program, library}
use thesis_b_cs_tu_berlin.Tests.Programs.{host, times, pkts, polls, stored}

-- A libbpf that finds program 4 under every title.
abbrev titled : ObjectApi
titled = record library { find_program_by_title = λ obj title. some 4 }

-- `--dev a --filename a`
abbrev options : List Opt
options = dev (97 ∷ []) ∷ opt_filename (97 ∷ []) ∷ []

abbrev config : Config
config = record initial_config {
  ifname_buf = strncpy 16 (97 ∷ []);
  ifindex = 7;
  filename = strncpy 512 (97 ∷ []);
}

parsed : parse_options (λ n. 7) (λ a. pos 0) options initial_config ≡ some config
unfolding parse_options parse_option
parsed = refl

config-IsMeasuring : IsMeasuring config
config-IsMeasuring = record { has_interface = refl; no_unload = refl; has_file = refl }

abbrev attached_4 : ℕ → ℕ → ℕ
attached_4 i f = if i == 7 && f == 0 then 4 else one_program i f

abbrev xdp_sock_32 : List ℕ
xdp_sock_32 = strncpy 32 (codes "xdp_sock")

object_1 :
    load_bpf_and_xdp_attach kernel titled (load_config config) one_program
    ≡ (returns 1 xdp_sock_32, attached_4)
unfolding load_bpf_and_xdp_attach load_object xdp_link_attach
object_1 = refl

abbrev a_run : Run times pkts
a_run = record { host = host; rounds = polls; times_opens = true; time_map = stored }

-- The object has no map of that name.
main_leaves_attached_example :
    (f : Finish) × (main times pkts kernel titled
        (λ obj name. negsuc 21)
        (λ n. 7)
        (λ a. pos 0)
        a_run
        options
        one_program
      ≡ some (f, attached_4))
    × ((f ≡ stops 1) ⊎ (f ≡ out_of_memory (obtained host.alloc num_log_buff 0)))
    × StillAttached times pkts kernel titled
        (λ obj name. negsuc 21)
        (λ n. 7)
        (λ a. pos 0)
        a_run
        options
        one_program
        config
        parsed
        config-IsMeasuring
        1
        xdp_sock_32
        attached_4
        object_1
main_leaves_attached_example =
    main_leaves_attached times pkts kernel titled (λ obj name. negsuc 21) (λ n. 7) (λ a. pos 0)
      a_run options one_program config parsed config-IsMeasuring 1 xdp_sock_32 attached_4 object_1
      (inl refl)
