-- ===== src/Tests/Cache.antt =====
-- The kernel module's cache at concrete packets.
use thesis_b_cs_tu_berlin.Prelude.{
  ℕ, ◌⊎◌, ◌≤◌, ◌+◌, ◌*◌, ◌/◌, ◌%◌, ◌<◌, ltb, ◌==◌, if◌then◌else◌, ◌≡◌, refl, ◌↔◌, inr, true, false,
  Option, none, some, List, [], ◌∷◌, arith,
}
use thesis_b_cs_tu_berlin.Params.{pkt_buffer_size, max_pkt, max_log_entry}
use thesis_b_cs_tu_berlin.Memory.{Bytes, zeros, load8, load16, bswap16}
use thesis_b_cs_tu_berlin.Log.{Log, entry}
use thesis_b_cs_tu_berlin.Log.Entries.{log_after}
use thesis_b_cs_tu_berlin.Km.{Km, SkBuff, is_for_us, rxh_packet_in, ReadReply}
use thesis_b_cs_tu_berlin.Km.Accept.{IsUdp8080}
use thesis_b_cs_tu_berlin.Km.Ring.{Holds}
use thesis_b_cs_tu_berlin.Km.Fill.{filled, packet_slot}
use thesis_b_cs_tu_berlin.Km.Receive.{
  HasPayload, counted, Holds-frame, filled-Holds, packet_uid, rxh_packet_in-Holds,
}
use thesis_b_cs_tu_berlin.Km.Overrun.{rxh_packet_in-none_iff, rxh_packet_in-overrun}
use thesis_b_cs_tu_berlin.Km.Trace.{
  Event, receives, reads, run, loaded, IsHandled, queue_run, Answers, loaded-Holds, run_refines,
}

-- An IPv4 and UDP header for port 8080 with the given length field, then the payload bytes 1, 1, ....
abbrev pub udp_bytes : ℕ → Bytes
udp_bytes len a =
    if a == 0
    then 0x45
    else (if a == 9
        then 17
        else (if a == 22
            then 0x1F
            else (if a == 23
                then 0x90
                else (if a == 24
                    then len / 256
                    else (if a == 25 then len % 256 else (if ltb a 28 then 0 else 1))))))

abbrev pub udp_packet : ℕ → SkBuff
udp_packet n = record {
  linear = record { bytes = udp_bytes (n + 8); size = 28 + n };
  pkt_data = 0;
  network_header = 0;
  transport_header = 20;
}

abbrev pub small : SkBuff
small = udp_packet 16

-- As long as `struct Payload`.
abbrev large : SkBuff
large = udp_packet 1024

abbrev pub no_log : Log
no_log b j = 0

pub small-HasPayload : HasPayload 16 small
unfolding bswap16
small-HasPayload = record {
  len_there = omega arith;
  len_is = refl;
  bytes_there = omega arith;
  uid_there = omega arith;
}

pub small_is_ours : is_for_us small ≡ some true
unfolding is_for_us load8 load16 bswap16
small_is_ours = refl

large-HasPayload : HasPayload 1024 large
unfolding bswap16
large-HasPayload = record {
  len_there = omega arith;
  len_is = refl;
  bytes_there = omega arith;
  uid_there = omega arith;
}

large_is_ours : is_for_us large ≡ some true
unfolding is_for_us load8 load16 bswap16
large_is_ours = refl

-- The module after one packet.
abbrev pub one_held : Km
one_held = filled small 16 0 (counted small 7 (loaded no_log))

pub one_held-Holds : Holds one_held (packet_slot small 16 ∷ [])
one_held-Holds =
    filled-Holds small 16 (counted small 7 (loaded no_log)) []
      (Holds-frame (loaded no_log) [] zeros 1 0 (log_after no_log (packet_uid small) 7)
        (loaded-Holds no_log))
      (omega arith) (omega arith)

rxh_packet_in-Holds_example :
    (s' : Km) × (rxh_packet_in small 7 (loaded no_log) ≡ some s')
    × Holds s' (packet_slot small 16 ∷ [])
    × ((i : ℕ)
        → i < max_log_entry
        → entry s'.log_buffs i ≡ (if i == packet_uid small then 7 else entry no_log i))
    × (s'.count_pkt_overflow ≡ 0)
    × IsUdp8080 small
rxh_packet_in-Holds_example =
    rxh_packet_in-Holds small 16 7 (loaded no_log) [] (loaded-Holds no_log) small-HasPayload
      (omega arith) small_is_ours

abbrev history : List Event
history = receives small 7 ∷ reads 0 true ∷ receives small 9 ∷ reads 0 false ∷ reads 4096 false ∷ []

pub small-IsHandled : (now : ℕ) → IsHandled (receives small now)
unfolding bswap16
small-IsHandled now = inr (small_is_ours, small-HasPayload, omega arith)

run_refines_example :
    (rs : List (Option ReadReply)) × (s' : Km) × (run history (loaded no_log) ≡ some (rs, s'))
    × Answers history [] rs
    × Holds s' (queue_run history [])
run_refines_example =
    run_refines history no_log (small-IsHandled 7, (tt, (small-IsHandled 9, (tt, (tt, tt)))))

rxh_packet_in-none_iff_example :
    (rxh_packet_in large 7 (record (loaded no_log) { current_index = 193 }) ≡ none)
    ↔ (pkt_buffer_size * max_pkt < 193 * pkt_buffer_size + 1024)
rxh_packet_in-none_iff_example =
    rxh_packet_in-none_iff large 1024 7 (record (loaded no_log) { current_index = 193 }) refl
      large-HasPayload large_is_ours

rxh_packet_in-overrun_example :
    (s' : Km) × (rxh_packet_in large 7 (loaded no_log) ≡ some s')
    × ((j : ℕ) → j < 1024 → s'.buff_from_here (0 + j) ≡ udp_bytes 1032 (28 + j))
    × ((a : ℕ) → (a < 0) ⊎ (1024 ≤ a) → s'.buff_from_here a ≡ 0)
    × ((i : ℕ) → s'.status i ≡ (if i == 0 then 1 else 0))
rxh_packet_in-overrun_example =
    rxh_packet_in-overrun large 1024 7 (loaded no_log) refl large-HasPayload large_is_ours
      (omega arith)
