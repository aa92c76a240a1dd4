-- ===== src/Tests/Interleaving.antt =====
-- Received packets between the steps of `read`, two handlers at once and two reads at once, at concrete packets.
use thesis_b_cs_tu_berlin.Prelude.{
  ℕ, suc, ◌+◌, ◌<◌, replicate, get_or, ◌==◌, if◌then◌else◌, ◌≡◌, refl, Bool, false, Option, none,
  some, List, [], ◌∷◌, map, arith,
}
use thesis_b_cs_tu_berlin.Memory.{zeros, Bytes, mem_copy, mem_zero, load8, load16, le64, bswap16}
use thesis_b_cs_tu_berlin.Log.{log_store}
use thesis_b_cs_tu_berlin.Km.{
  SkBuff, is_for_us, is_our_udp, is_our_port, rxh_packet_in, take_packet, find_slot, fill_slot,
  copy_packet, gather_one, clean_up,
}
use thesis_b_cs_tu_berlin.Km.Trace.{Event, receives, reads, AllHandled}
use thesis_b_cs_tu_berlin.Km.Interleave.{
  idle, System, slots, read_step, interleave, interleave_all, started, all_used,
}
use thesis_b_cs_tu_berlin.Km.Interleave.Slots.{count, cached}
use thesis_b_cs_tu_berlin.Km.Interleave.Invariant.{out_of, Inv}
use thesis_b_cs_tu_berlin.Km.Interleave.Safety.{started-Inv, interleave_all-Inv, interleaved_lem}
use thesis_b_cs_tu_berlin.Km.Interleave.Alone.{alone_lem}
use thesis_b_cs_tu_berlin.Km.Readers.{both_read, readers_duplicate}
use thesis_b_cs_tu_berlin.Params.{buffer_size, pkts_per_buffer}
use thesis_b_cs_tu_berlin.Km.Race.{race, find_index, handler_finds, handler_stores}
use thesis_b_cs_tu_berlin.Km.Race.Loses.{both_slots, race_loses}
use thesis_b_cs_tu_berlin.Km.{Km}
use thesis_b_cs_tu_berlin.Km.Ring.{Holds}
use thesis_b_cs_tu_berlin.Tests.Cache.{
  udp_bytes, small, no_log, small-IsHandled, one_held, one_held-Holds, small_is_ours,
  small-HasPayload,
}
use thesis_b_cs_tu_berlin.Km.Window.{slot_of}
use thesis_b_cs_tu_berlin.Km.Fill.{packet_slot}
use thesis_b_cs_tu_berlin.Km.Interleave.Alone.Overtaking.{newest_overtakes}

-- A packet of another first byte than `small`.
abbrev marked : ℕ → SkBuff
marked m = record {
  linear = record { bytes = λ a. if a == 28 then m else udp_bytes 24 a; size = 44 };
  pkt_data = 0;
  network_header = 0;
  transport_header = 20;
}

abbrev schedule : List Event
schedule = receives small 7 ∷ reads 0 false ∷ receives small 9 ∷ reads 0 false ∷ []

schedule-AllHandled : AllHandled schedule
schedule-AllHandled = (small-IsHandled 7, (tt, (small-IsHandled 9, (tt, tt))))

interleave_all-Inv_example :
    (s' : System) × (interleave_all schedule (started no_log) ≡ some s') × Inv s'
interleave_all-Inv_example =
    interleave_all-Inv schedule (started no_log) (started-Inv no_log) schedule-AllHandled

interleaved_lem_example :
    (s' : System) × (interleave_all schedule (started no_log) ≡ some s')
    × ((test : Bytes → Bool)
        → count test s'.stored ≡ cached test (out_of s'.reader) s'.km + count test s'.delivered)
interleaved_lem_example = interleaved_lem schedule no_log schedule-AllHandled

abbrev holding : System
holding = record (started no_log) { km = one_held }

alone_lem_example :
    (n : ℕ) × (s' : System) × (interleave_all (replicate n (reads 0 false)) holding ≡ some s')
    × (s'.reader ≡ idle)
    × (s'.delivered ≡ packet_slot small 16 ∷ [])
    × Holds s'.km []
alone_lem_example =
    alone_lem 0 false holding (packet_slot small 16 ∷ []) one_held-Holds (omega arith) refl

newest_overtakes_example :
    (m : ℕ) × (t : Bytes) × (s' : System) × (interleave_all
        (reads 0 false ∷ receives small 9 ∷ replicate m (reads 0 false))
        holding
      ≡ some s')
    × (s'.delivered ≡ slots t 2)
    × (slot_of t 0 ≡ packet_slot small 16)
    × ((k : ℕ) → k < 1 → k < 31 → slot_of t (suc k) ≡ get_or (packet_slot small 16 ∷ []) k zeros)
newest_overtakes_example =
    newest_overtakes 0 9 small 16 holding (packet_slot small 16 ∷ []) one_held-Holds (omega arith)
      refl small_is_ours small-HasPayload (omega arith) (omega arith)

-- The first byte of each delivered packet.
abbrev firsts : Option System → List ℕ
firsts none = []
firsts (some s) = map (λ b. b 0) s.delivered

-- A packet that comes in before the search looks at its slot is delivered before older ones.
abbrev overtaking : List Event
overtaking =
    receives (marked 1) 7
    ∷ receives (marked 2) 8
    ∷ reads 0 false
    ∷ receives (marked 3) 9
    ∷ replicate 202 (reads 0 false)

overtaking_delivered : firsts (interleave_all overtaking (started no_log)) ≡ 3 ∷ 1 ∷ 2 ∷ []
unfolding interleave_all interleave rxh_packet_in is_for_us is_our_udp is_our_port take_packet
    find_slot fill_slot copy_packet read_step gather_one clean_up slots all_used mem_copy mem_zero
    load8 load16 le64 bswap16 log_store
overtaking_delivered = refl

race_loses_example :
    (s' : Km) × (race small 9 small 9 one_held ≡ some s')
    × Holds s' (packet_slot small 16 ∷ both_slots small 16 small 16 ∷ [])
    × (s'.count_pkt ≡ 3)
    × (s'.count_pkt_overflow ≡ 0)
race_loses_example =
    race_loses small small 16 16 9 9 one_held (packet_slot small 16 ∷ []) one_held-Holds
      small-HasPayload small-HasPayload (omega arith) (omega arith) (omega arith)

-- The first byte of the cache, and the mark of the second slot.
abbrev cache_start : Option Km → List ℕ
cache_start none = []
cache_start (some s) = s.buff_from_here 0 ∷ s.status 1 ∷ []

-- Of two packets at once, the cache holds the second alone.
raced_bytes : cache_start (race (marked 1) 7 (marked 2) 8 (started no_log).km) ≡ 2 ∷ 0 ∷ []
unfolding race handler_finds handler_stores find_index fill_slot copy_packet mem_copy load16 le64
    bswap16 log_store
raced_bytes = refl

readers_duplicate_example :
    (t : Bytes) × (s' : Km) × (both_read false false one_held ≡ (
      record { ret = buffer_size; delivered = some t },
      (record { ret = buffer_size; delivered = some t }, s'),
    ))
    × ((k : ℕ) → k < pkts_per_buffer → slot_of t k ≡ get_or (packet_slot small 16 ∷ []) k zeros)
    × Holds s' []
readers_duplicate_example = readers_duplicate one_held (packet_slot small 16 ∷ []) one_held-Holds
