-- ===== src/Xdp/Tagged.antt =====
-- VLAN-tagged frames: the parser skips the tag, and the program still reads the payload at byte 42.
use thesis_b_cs_tu_berlin.Prelude.{
  ℕ, ◌∙◌, ◌≢◌, some, ◌+◌, ◌-◌, ◌%◌, ◌^◌, ◌<◌, ltb, if◌then◌else◌, ◌≡◌, arith,
}
use thesis_b_cs_tu_berlin.Memory.{Bytes, shift, Packet, load8, load16, le64, bswap16}
use thesis_b_cs_tu_berlin.Payload.{Payload, datagram, decode, encode}
use thesis_b_cs_tu_berlin.Parsing.{
  proto_is_vlan, vlan_loop, parse_ethhdr_vlan, parse_ethhdr, parse_iphdr, parse_udphdr,
}
use thesis_b_cs_tu_berlin.Xdp.{is_ours, Maps, xdp_pass, xdp_sock_prog}
use thesis_b_cs_tu_berlin.Xdp.Effect.{payload_at_42, IsMeasured, xdp_sock_prog_measured}
use thesis_b_cs_tu_berlin.Bpf.{BpfArray}

-- 46 bytes of headers, then the payload.
abbrev pub tagged_frame : Bytes → Payload → Packet
tagged_frame headers pl = record {
  bytes = λ a. if ltb a 46 then headers a else (datagram pl).bytes (a - 46);
  size = 46 + (datagram pl).size;
}

-- The headers of `Frame.IsClientHeader` with one 802.1Q tag.
pub record IsTaggedHeader (h : Bytes) : Type 0 where
  pub tag_hi : h 12 ≡ 0x81
  pub tag_lo : h 13 ≡ 0x00
  pub type_hi : h 16 ≡ 0x08
  pub type_lo : h 17 ≡ 0x00
  pub ihl : h 18 % 16 ≡ 5
  pub protocol : h 27 ≡ 17
  pub dest_hi : h 40 ≡ 0x1F
  pub dest_lo : h 41 ≡ 0x90
  pub len_hi : h 42 ≡ 0x04
  pub len_lo : h 43 ≡ 0x08

tagged-IsMeasured : (h : Bytes) (pl : Payload) → IsTaggedHeader h → IsMeasured (tagged_frame h pl)
unfolding is_ours parse_ethhdr parse_ethhdr_vlan parse_iphdr parse_udphdr vlan_loop proto_is_vlan
    load8 load16 bswap16
tagged-IsMeasured h pl v = (ground arith, omega arith)

-- What the program reads at byte 42 has the client's own id where the uid should be, in its upper half.
wrong_uid :
    (h : Bytes) (pl : Payload)
    → pl.client_uid < 2 ^ 32
    → (payload_at_42 (tagged_frame h pl)).uid % 2 ^ 32 ≡ 0
unfolding decode le64 encode
wrong_uid h pl small = omega arith

module _ (times : BpfArray ℕ) (pkts : BpfArray Payload) (stats : BpfArray ℕ) where
  -- The program records every tagged client frame under key 0, whatever its uid is, if the client's own id
  -- fits in 32 bits and the maps have an entry: that key gets the time, the payload map gets under it what
  -- byte 42 of the packet begins, and the other keys of both maps stay.
  pub tagged_key :
      (h : Bytes) (pl : Payload) (index now : ℕ) (m : Maps times pkts stats)
      → IsTaggedHeader h
      → pl.client_uid < 2 ^ 32
      → 0 < times.max_entries
      → 0 < pkts.max_entries
      → (m' : Maps times pkts stats) × (xdp_sock_prog times pkts stats
            (tagged_frame h pl)
            index
            now
            m
          ≡ some (xdp_pass, m'))
        × (times.lookup m'.uid_timestamps 0 ≡ some now)
        × (pkts.lookup m'.pkt_payload 0 ≡ some (decode (shift (tagged_frame h pl).bytes 42)))
        × ((j : ℕ)
            → j ≢ 0
            → (times.lookup m'.uid_timestamps j ≡ times.lookup m.uid_timestamps j)
              × (pkts.lookup m'.pkt_payload j ≡ pkts.lookup m.pkt_payload j))
  tagged_key h pl index now m v small ht hp =
      let (m', e, time_eq, pkt_eq, _, _) =
        xdp_sock_prog_measured times pkts stats (tagged_frame h pl) index now m
          (tagged-IsMeasured h pl v) in
      (
        m',
        e,
        time_eq 0 ∙ ground (arith, wrong_uid h pl small),
        pkt_eq 0 ∙ ground (arith, wrong_uid h pl small),
        λ j other. (
          time_eq j ∙ ground (arith, wrong_uid h pl small),
          pkt_eq j ∙ ground (arith, wrong_uid h pl small),
        ),
      )
