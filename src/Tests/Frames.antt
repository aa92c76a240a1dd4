-- ===== src/Tests/Frames.antt =====
-- The XDP program and its parsers at concrete frames.
use thesis_b_cs_tu_berlin.Prelude.{
  ℕ, ◌^◌, ◌%◌, ◌+◌, ltb, ◌==◌, if◌then◌else◌, ◌≡◌, ◌⊎◌, refl, ◌≢◌, ◌⊎◌, ◌&&◌, some, [], ◌∷◌, arith,
}
use thesis_b_cs_tu_berlin.Params.{max_log_entry}
use thesis_b_cs_tu_berlin.Memory.{shift, Bytes, Packet, load16, bswap16}
use thesis_b_cs_tu_berlin.Payload.{decode, Payload, IsWide}
use thesis_b_cs_tu_berlin.Client.{initial}
use thesis_b_cs_tu_berlin.Prelude.Int.{pos}
use thesis_b_cs_tu_berlin.Parsing.{HdrCursor, parse_ethhdr_vlan, proto_is_vlan, vlan_loop}
use thesis_b_cs_tu_berlin.Bpf.{BpfArray, fun_array}
use thesis_b_cs_tu_berlin.Xdp.{xdp_pass, Maps, xdp_sock_prog}
use thesis_b_cs_tu_berlin.Xdp.Effect.{
  one_more, payload_at_42, IsMeasured, xdp_sock_prog_measured, xdp_sock_prog_total,
}
use thesis_b_cs_tu_berlin.Xdp.Frame.{frame, IsClientHeader, frame_recorded, frame-IsMeasured}
use thesis_b_cs_tu_berlin.Xdp.Headers.{IsUdpTo8080}
use thesis_b_cs_tu_berlin.Xdp.Tagged.{tagged_frame, tagged_key}

abbrev pub client_header : Bytes
client_header a =
    if a == 12
    then 0x08
    else (if a == 14
        then 0x45
        else (if a == 23
            then 17
            else (if a == 36
                then 0x1F
                else (if a == 37
                    then 0x90
                    else (if a == 38 then 0x04 else (if a == 39 then 0x08 else 0))))))

abbrev tagged_header : Bytes
tagged_header a =
    if a == 12
    then 0x81
    else (if a == 15
        then 5
        else (if a == 16
            then 0x08
            else (if a == 18
                then 0x45
                else (if a == 27
                    then 17
                    else (if a == 40
                        then 0x1F
                        else (if a == 41
                            then 0x90
                            else (if a == 42 then 0x04 else (if a == 43 then 0x08 else 0))))))))

abbrev pub sent_5 : Payload
sent_5 = record initial { uid = 5; created_time = 99 }

abbrev pub times : BpfArray ℕ
times = fun_array ℕ (1 + max_log_entry)

abbrev pub pkts : BpfArray Payload
pkts = fun_array Payload (1 + max_log_entry)

abbrev pub stats : BpfArray ℕ
stats = fun_array ℕ 64

abbrev pub blank_maps : Maps times pkts stats
blank_maps = record { uid_timestamps = λ k. 0; pkt_payload = λ k. initial; xdp_stats = λ k. 3 }

pub client_header-IsClientHeader : IsClientHeader client_header
client_header-IsClientHeader = omega arith

pub sent_5-IsWide : IsWide sent_5
sent_5-IsWide = omega arith

frame_recorded_example :
    (m' : Maps times pkts stats) × (xdp_sock_prog times pkts stats
        (frame client_header sent_5)
        0
        77
        blank_maps
      ≡ some (xdp_pass, m'))
    × (times.lookup m'.uid_timestamps 5 ≡ some 77)
    × (pkts.lookup m'.pkt_payload 5 ≡ some sent_5)
    × ((j : ℕ)
        → j ≢ 5
        → (times.lookup m'.uid_timestamps j ≡ times.lookup blank_maps.uid_timestamps j)
          × (pkts.lookup m'.pkt_payload j ≡ pkts.lookup blank_maps.pkt_payload j))
frame_recorded_example =
    frame_recorded times pkts stats client_header sent_5 0 77 blank_maps
      client_header-IsClientHeader sent_5-IsWide (omega arith) (omega arith) (omega arith)

abbrev pub client_frame : Packet
client_frame = frame client_header sent_5

xdp_sock_prog_measured_example :
    (m' : Maps times pkts stats) × (xdp_sock_prog times pkts stats client_frame 0 77 blank_maps
      ≡ some (xdp_pass, m'))
    × ((j : ℕ)
        → times.lookup m'.uid_timestamps j ≡ (
            if j == (payload_at_42 client_frame).uid % 2 ^ 32 && ltb j times.max_entries
            then some 77
            else times.lookup blank_maps.uid_timestamps j))
    × ((j : ℕ)
        → pkts.lookup m'.pkt_payload j ≡ (
            if j == (payload_at_42 client_frame).uid % 2 ^ 32 && ltb j pkts.max_entries
            then some (payload_at_42 client_frame)
            else pkts.lookup blank_maps.pkt_payload j))
    × ((j : ℕ) → stats.lookup m'.xdp_stats j ≡ one_more 0 j (stats.lookup blank_maps.xdp_stats j))
    × IsUdpTo8080 client_frame
xdp_sock_prog_measured_example =
    xdp_sock_prog_measured times pkts stats client_frame 0 77 blank_maps
      (frame-IsMeasured client_header sent_5 client_header-IsClientHeader)

-- The headers alone.
abbrev headers_only : Packet
headers_only = record { bytes = client_header; size = 42 }

xdp_sock_prog_total_example :
    (m' : Maps times pkts stats) × (xdp_sock_prog times pkts stats headers_only 0 77 blank_maps
      ≡ some (xdp_pass, m'))
    × (IsMeasured headers_only ⊎ (m' ≡ blank_maps))
xdp_sock_prog_total_example = xdp_sock_prog_total times pkts stats headers_only 0 77 blank_maps

tagged_key_example :
    (m' : Maps times pkts stats) × (xdp_sock_prog times pkts stats
        (tagged_frame tagged_header sent_5)
        0
        77
        blank_maps
      ≡ some (xdp_pass, m'))
    × (times.lookup m'.uid_timestamps 0 ≡ some 77)
    × (pkts.lookup m'.pkt_payload 0
        ≡ some (decode (shift (tagged_frame tagged_header sent_5).bytes 42)))
    × ((j : ℕ)
        → j ≢ 0
        → (times.lookup m'.uid_timestamps j ≡ times.lookup blank_maps.uid_timestamps j)
          × (pkts.lookup m'.pkt_payload j ≡ pkts.lookup blank_maps.pkt_payload j))
tagged_key_example =
    tagged_key times pkts stats tagged_header sent_5 0 77 blank_maps (omega arith) (omega arith)
      (omega arith) (omega arith)

abbrev start : HdrCursor
start = record { pos = 0 }

abbrev tagged : Packet
tagged = tagged_frame tagged_header sent_5

-- One tag, with VLAN id 5.
tagged_parse :
    parse_ethhdr_vlan tagged start
    ≡ some (record { cursor = record { pos = 18 }; header = some 0; ret = pos 8 }, 5 ∷ [])
unfolding parse_ethhdr_vlan vlan_loop proto_is_vlan load16 bswap16
tagged_parse = refl
