-- ===== src/Tests/Programs.antt =====
-- The three receivers' programs, from their start to their end, at concrete inputs.
use thesis_b_cs_tu_berlin.Prelude.{
  ℕ, ◌+◌, ◌-◌, ◌<◌, ltb, leb, if◌then◌else◌, ◌≡◌, refl, sym, ◌∙◌, ◌≢◌, true, false, ◌&&◌, some,
  List, [], ◌∷◌, arith,
}
use thesis_b_cs_tu_berlin.Params.{max_log_entry, num_log_buff}
use thesis_b_cs_tu_berlin.Memory.{Bytes, zeros, le64}
use thesis_b_cs_tu_berlin.Payload.{Payload, decode, encode, is_data_payload}
use thesis_b_cs_tu_berlin.Log.{entry, Exported}
use thesis_b_cs_tu_berlin.Log.Alloc.{obtained, all_succeed}
use thesis_b_cs_tu_berlin.Log.Closing.{File, km_user, exported, Host, Reports}
use thesis_b_cs_tu_berlin.Server.{Round, by_last_uid, still_waiting}
use thesis_b_cs_tu_berlin.Server.Loop.{served, last_time, ending}
use thesis_b_cs_tu_berlin.Server.Main.{main as server_main, IsFileFor, ebpf_text, main-Reports}
use thesis_b_cs_tu_berlin.UserProcessing.Main.{
  main as user_main, Read, IsSafe, noted_in_all, user_main-Reports,
}
use thesis_b_cs_tu_berlin.Client.{initial}
use thesis_b_cs_tu_berlin.Bpf.{BpfArray, fun_array}
use thesis_b_cs_tu_berlin.EbpfUser.Follow.{is_there, IsKeyed}

-- Memory that is not zero, at address 512.
abbrev pub host : Host
host = record { alloc = λ i. some 512; memory = λ b j. 99; opens = true }

pub host_has_memory : all_succeed host.alloc num_log_buff 0 ≡ true
unfolding all_succeed
host_has_memory = refl

abbrev arrival : ℕ → ℕ → Round
arrival uid now = record {
  datagram = encode (record initial { uid = uid });
  received = 1024;
  now = now;
  keep_running = true;
}

abbrev arrivals : List Round
arrivals = arrival 4 10 ∷ arrival 32767 13 ∷ []

arrivals_end : ending arrivals ≡ by_last_uid
unfolding ending decode encode le64
arrivals_end = refl

last≢waiting : by_last_uid ≢ still_waiting
last≢waiting e = cc

main-Reports_example :
    (file : File) × (out : Exported) × IsFileFor ebpf_text file
    × (server_main host false false (ebpf_text ∷ []) arrivals
        ≡ some (exported file out (obtained host.alloc num_log_buff 0)))
    × Reports (λ i. last_time i (served arrivals) (entry host.memory i)) out
main-Reports_example =
    main-Reports host ebpf_text arrivals refl host_has_memory refl
      (λ e. last≢waiting (sym arrivals_end ∙ e))

-- A packet of uid 3 in slot 2.
abbrev one_packet : Bytes
one_packet a =
    if leb 256 a && ltb a 320
    then encode (record initial { uid = 3; created_time = 50 }) (a - 256)
    else 0

one_packet-IsSafe : IsSafe one_packet
one_packet-IsSafe k h out = ground arith

abbrev reads : List Read
reads = (one_packet, λ i. 40 + i) ∷ (zeros, λ i. 90) ∷ []

user_main-Reports_example :
    (out : Exported) × (user_main host false false reads
      ≡ some (exported km_user out (obtained host.alloc num_log_buff 0)))
    × Reports (λ i. noted_in_all reads i (entry host.memory i)) out
user_main-Reports_example =
    user_main-Reports host reads host_has_memory refl (one_packet-IsSafe, ((λ k h out. refl), tt))

abbrev pub pkts : BpfArray Payload
pkts = fun_array Payload (1 + max_log_entry)

abbrev pub all_arrived : pkts.Map
all_arrived k = record initial { uid = k; created_time = 50 }

abbrev pub polls : List (pkts.Map × ℕ)
polls = (all_arrived, 70) ∷ (all_arrived, 71) ∷ (all_arrived, 72) ∷ []

pub all_there : (j : ℕ) → j < 2 → is_there pkts all_arrived j ≡ true
unfolding is_data_payload
all_there j h = ground arith

pub all_arrived-IsKeyed : IsKeyed pkts all_arrived
unfolding is_data_payload
all_arrived-IsKeyed k pl e d u = ground arith

abbrev pub times : BpfArray ℕ
times = fun_array ℕ (1 + max_log_entry)

abbrev pub stored : times.Map
stored k = 1000 + k
