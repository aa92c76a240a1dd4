-- ===== src/Tests/Receivers.antt =====
-- The programs that receive packets, and the client, at concrete inputs.
use thesis_b_cs_tu_berlin.Prelude.{
  ℕ, ◌+◌, ◌-◌, ◌*◌, ◌%◌, ◌^◌, ◌≤◌, ◌<◌, length, get_elem?, ltb, leb, ◌==◌, if◌then◌else◌, ◌≡◌, refl,
  ◌↔◌, true, false, ◌&&◌, ◌||◌, some, List, [], ◌∷◌, arith,
}
use thesis_b_cs_tu_berlin.Params.{pkts_per_buffer, max_log_entry}
use thesis_b_cs_tu_berlin.Memory.{Bytes, zeros, le64}
use thesis_b_cs_tu_berlin.Payload.{Payload, IsWide, decode, encode, is_data_payload}
use thesis_b_cs_tu_berlin.Log.{Log, entry}
use thesis_b_cs_tu_berlin.UserProcessing.{process_buffer}
use thesis_b_cs_tu_berlin.UserProcessing.Slots.{is_empty, overruns, noted, process_buffer_lem}
use thesis_b_cs_tu_berlin.Server.{Round, by_last_uid, serve}
use thesis_b_cs_tu_berlin.Server.Loop.{ending, served, last_time, serve_lem}
use thesis_b_cs_tu_berlin.Client.{
  initial, Action, Outcome, divides_by_zero, elapsed, no_socket, sent_all, main,
}
use thesis_b_cs_tu_berlin.Client.Sends.{sent, payload_at, main_lem}
use thesis_b_cs_tu_berlin.Bpf.{BpfArray, fun_array}
use thesis_b_cs_tu_berlin.EbpfUser.{follow}
use thesis_b_cs_tu_berlin.EbpfUser.Follow.{IsKeyed, follow_stalls}
use thesis_b_cs_tu_berlin.EbpfUser.Checksum.{csum_replace2, not16, csum_replace2_lem}

abbrev no_log : Log
no_log b j = 0

abbrev payload_3 : Payload
payload_3 = record initial { uid = 3; created_time = 50 }

payload_3-IsWide : IsWide payload_3
payload_3-IsWide = omega arith

-- One packet in slot 2, and the rest of the buffer empty.
abbrev read_buffer : Bytes
read_buffer a = if leb 256 a && ltb a 320 then encode payload_3 (a - 256) else 0

read_buffer_rest : (k : ℕ) → k < pkts_per_buffer → overruns k ≡ true → is_empty read_buffer k ≡ true
read_buffer_rest k h o = ground arith

process_buffer_lem_example :
    (log' : Log) × (process_buffer read_buffer (λ i. 100 + i) no_log ≡ some log')
    × ((uid : ℕ)
        → uid < max_log_entry
        → entry log' uid
          ≡ noted read_buffer (λ i. 100 + i) pkts_per_buffer 0 uid (entry no_log uid))
process_buffer_lem_example = process_buffer_lem read_buffer (λ i. 100 + i) no_log read_buffer_rest

-- The packet of slot 2 is noted under its uid.
noted_3 : noted read_buffer (λ i. 100 + i) pkts_per_buffer 0 3 0 ≡ 102
unfolding noted decode encode is_data_payload le64
noted_3 = refl

abbrev late_buffer : Bytes
late_buffer a = if a == 30 * 128 then 1 else 0

abbrev datagram : ℕ → ℕ → Round
datagram uid now = record {
  datagram = encode (record initial { uid = uid });
  received = 1024;
  now = now;
  keep_running = true;
}

abbrev traffic : List Round
traffic = datagram 4 10 ∷ datagram 2 11 ∷ datagram 4 12 ∷ datagram 32767 13 ∷ datagram 5 14 ∷ []

serve_lem_example :
    (log' : Log) × (serve traffic no_log ≡ some (ending traffic, log'))
    × ((uid : ℕ)
        → uid < max_log_entry
        → entry log' uid ≡ last_time uid (served traffic) (entry no_log uid))
serve_lem_example = serve_lem traffic no_log

-- It ends by the last uid, and uid 4 has its second time.
traffic_ends :
    (ending traffic ≡ by_last_uid)
    × (last_time 4 (served traffic) 0 ≡ 12)
    × (last_time 5 (served traffic) 0 ≡ 0)
unfolding ending served last_time decode encode le64
traffic_ends = (refl, refl, refl)

abbrev empty_datagram : Round
empty_datagram = record { datagram = zeros; received = 0; now = 21; keep_running = true }

main_lem_example :
    (main (λ k. k) 0 40000 true ≡ some (no_socket 1))
    × ((actions : List Action) × (out : Outcome) × (main (λ k. k) 0 40000 false
          ≡ some (sent_all actions out))
        × (length (sent actions) ≡ max_log_entry + 1)
        × ((i : ℕ) → i ≤ max_log_entry → get_elem? (sent actions) i ≡ some (payload_at (λ k. k) i))
        × ((out ≡ divides_by_zero) ↔ (elapsed 0 (max_log_entry + 1) < 1_000_000)))
main_lem_example = main_lem (λ k. k) 0 40000 (omega arith)

abbrev pkts : BpfArray Payload
pkts = fun_array Payload (1 + max_log_entry)

-- Uid 0 has arrived, uid 1 is lost, and uid 2 has arrived.
abbrev lossy : pkts.Map
lossy k =
    if k == 0 || k == 2
    then record initial { uid = k; created_time = 50 }
    else record initial { client_uid = 0 }

abbrev polls : List (pkts.Map × ℕ)
polls = (lossy, 70) ∷ (lossy, 71) ∷ (lossy, 72) ∷ []

lossy-IsKeyed : IsKeyed pkts lossy
unfolding is_data_payload
lossy-IsKeyed k pl e d u = ground arith

follow_stalls_example :
    (next' : ℕ) × (log' : Log) × (follow pkts polls 0 no_log ≡ some (next', log'))
    × (next' ≤ 1)
    × ((i : ℕ) → 1 ≤ i → i < max_log_entry → entry log' i ≡ entry no_log i)
unfolding is_data_payload
follow_stalls_example =
    follow_stalls pkts 1 polls 0 no_log (omega arith) (omega arith)
      (lossy-IsKeyed, (lossy-IsKeyed, (lossy-IsKeyed, tt))) (refl, (refl, (refl, tt)))

csum_replace2_lem_example :
    (csum_replace2 0xb861 0x4011 0x3f11 < 2 ^ 16)
    × (not16 (csum_replace2 0xb861 0x4011 0x3f11) % 65535 ≡ (0x3f11 + 0x078d) % 65535)
csum_replace2_lem_example =
    csum_replace2_lem 0xb861 0x4011 0x3f11 0x078d (omega arith) (omega arith) (omega arith) refl
