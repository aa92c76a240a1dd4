-- ===== src/Xdp/Frame.antt =====
-- The frames of client.c, as the XDP program sees them.
use thesis_b_cs_tu_berlin.Prelude.{
  ℕ, ◌+◌, ◌-◌, ◌%◌, ◌^◌, ◌<◌, ltb, if◌then◌else◌, ◌≡◌, ap, fun_ext, ◌∙◌, ◌≢◌, some, arith,
}
use thesis_b_cs_tu_berlin.Memory.{Bytes, Packet, shift, load8, load16, bswap16}
use thesis_b_cs_tu_berlin.Payload.{Payload, datagram, decode, encode, IsWide}
use thesis_b_cs_tu_berlin.Payload.RoundTrip.{decode-encode}
use thesis_b_cs_tu_berlin.Parsing.{
  proto_is_vlan, vlan_loop, parse_ethhdr_vlan, parse_ethhdr, parse_iphdr, parse_udphdr,
}
use thesis_b_cs_tu_berlin.Bpf.{BpfArray}
use thesis_b_cs_tu_berlin.Xdp.{map_key, is_ours, xdp_pass, Maps, xdp_sock_prog}
use thesis_b_cs_tu_berlin.Xdp.Effect.{payload_at_42, IsMeasured, xdp_sock_prog_measured}

-- 42 bytes of headers, then the payload as the client sends it.
abbrev pub frame : Bytes → Payload → Packet
frame headers pl = record {
  bytes = λ a. if ltb a 42 then headers a else (datagram pl).bytes (a - 42);
  size = 42 + (datagram pl).size;
}

-- The headers of an untagged IPv4 frame without options that carries a UDP datagram of 1024 payload
-- bytes to port 8080.
pub record IsClientHeader (h : Bytes) : Type 0 where
  pub type_hi : h 12 ≡ 0x08
  pub type_lo : h 13 ≡ 0x00
  pub ihl : h 14 % 16 ≡ 5
  pub protocol : h 23 ≡ 17
  pub dest_hi : h 36 ≡ 0x1F
  pub dest_lo : h 37 ≡ 0x90
  pub len_hi : h 38 ≡ 0x04
  pub len_lo : h 39 ≡ 0x08

pub frame-IsMeasured : (h : Bytes) (pl : Payload) → IsClientHeader h → IsMeasured (frame h pl)
unfolding is_ours parse_ethhdr parse_ethhdr_vlan parse_iphdr parse_udphdr vlan_loop proto_is_vlan
    load8 load16 bswap16
frame-IsMeasured h pl v = (ground arith, omega arith)

pub frame_payload : (h : Bytes) (pl : Payload) → IsWide pl → payload_at_42 (frame h pl) ≡ pl
frame_payload h pl w = ap decode (fun_ext λ a. beyond a) ∙ decode-encode pl w
  where
    beyond : (a : ℕ) → shift (frame h pl).bytes 42 a ≡ encode pl a
    beyond a = ground (arith, same a)
      where
        same : (a : ℕ) → encode pl (42 + a - 42) ≡ encode pl a
        same a = ap (encode pl) (omega arith)

module _ (times : BpfArray ℕ) (pkts : BpfArray Payload) (stats : BpfArray ℕ) where
  -- A client frame is recorded under its uid, if the uid is a key of both maps and fits in 32 bits: the
  -- time map gets the time, the payload map gets the payload with every field as sent, and the other
  -- keys keep theirs.
  pub frame_recorded :
      (h : Bytes) (pl : Payload) (index now : ℕ) (m : Maps times pkts stats)
      → IsClientHeader h
      → IsWide pl
      → pl.uid < times.max_entries
      → pl.uid < pkts.max_entries
      → pl.uid < 2 ^ 32
      → (m' : Maps times pkts stats) × (xdp_sock_prog times pkts stats (frame h pl) index now m
          ≡ some (xdp_pass, m'))
        × (times.lookup m'.uid_timestamps pl.uid ≡ some now)
        × (pkts.lookup m'.pkt_payload pl.uid ≡ some pl)
        × ((j : ℕ)
            → j ≢ pl.uid
            → (times.lookup m'.uid_timestamps j ≡ times.lookup m.uid_timestamps j)
              × (pkts.lookup m'.pkt_payload j ≡ pkts.lookup m.pkt_payload j))
  frame_recorded h pl index now m v w ht hp h32 =
      let (m', e, time_eq, pkt_eq, _, _) =
        xdp_sock_prog_measured times pkts stats (frame h pl) index now m
          (frame-IsMeasured h pl v) in
      let key : map_key (payload_at_42 (frame h pl)) ≡ pl.uid =
        ap map_key (frame_payload h pl w) ∙ omega arith in
      (
        m',
        e,
        ground (arith, time_eq pl.uid),
        ground (arith, pkt_eq pl.uid, frame_payload h pl w),
        λ j ne. (ground (arith, time_eq j), ground (arith, pkt_eq j)),
      )
