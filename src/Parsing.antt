-- ===== src/Parsing.antt =====
-- eBPF_app/common/parsing_helpers.h: the header parsers of the XDP programs. A pointer into the packet
-- is its offset from `data`, and `data_end` is the packet's size.
use thesis_b_cs_tu_berlin.Prelude.{
  ℕ, zero, suc, ◌+◌, ◌-◌, ◌*◌, ◌/◌, ◌%◌, ◌^◌, ltb, ◌==◌, if◌then◌else◌, Bool, ◌||◌, not, Option,
  none, some, List, [], ◌∷◌, ◌++◌,
}
use thesis_b_cs_tu_berlin.Prelude.Int.{ℤ, pos, negsuc}
use thesis_b_cs_tu_berlin.Memory.{Packet, load8, load16, bswap16, ◌>>=◌}
pub mod Vlan
pub mod Safety

abbrev pub eth_p_8021q : ℕ
eth_p_8021q = 0x8100

abbrev pub eth_p_8021ad : ℕ
eth_p_8021ad = 0x88A8

abbrev pub vlan_max_depth : ℕ
vlan_max_depth = 2

-- The sizes of the header structs.
abbrev pub ethhdr_size : ℕ
ethhdr_size = 14

abbrev pub vlan_hdr_size : ℕ
vlan_hdr_size = 4

abbrev pub iphdr_size : ℕ
iphdr_size = 20

abbrev pub ipv6hdr_size : ℕ
ipv6hdr_size = 40

abbrev pub udphdr_size : ℕ
udphdr_size = 8

abbrev pub tcphdr_size : ℕ
tcphdr_size = 20

abbrev pub icmphdr_size : ℕ
icmphdr_size = 8

abbrev pub icmphdr_common_size : ℕ
icmphdr_common_size = 4

-- `struct hdr_cursor`
pub record HdrCursor : Type 0 where
  pub pos : ℕ

-- What a parser leaves: the cursor, the header pointer if it was stored, and the return value.
pub record Parsed : Type 0 where
  pub cursor : HdrCursor
  pub header : Option ℕ
  pub ret : ℤ

-- `return -1` with nothing changed.
abbrev pub refused : HdrCursor → Parsed
refused nh = record { cursor = nh; header = none; ret = negsuc 0 }

abbrev pub accepted : HdrCursor → ℕ → ℕ → Parsed
accepted nh size r = record {
  cursor = record { pos = nh.pos + size };
  header = some nh.pos;
  ret = pos r;
}

unfoldable pub proto_is_vlan : ℕ → Bool
proto_is_vlan h_proto = h_proto == bswap16 eth_p_8021q || h_proto == bswap16 eth_p_8021ad

-- The loop variables of `parse_ethhdr_vlan`. `ids` are the entries of `vlans->id` that were stored,
-- which `parse_ethhdr` has compiled away.
pub record VlanLoop : Type 0 where
  pub h_proto : ℕ
  pub vlh : ℕ
  pub ids : List ℕ

-- `for (i = 0; i < VLAN_MAX_DEPTH; i++)` with `rounds` rounds left.
unfoldable pub vlan_loop : Packet → ℕ → VlanLoop → Option VlanLoop
vlan_loop p zero st = some st
vlan_loop p (suc rounds) st =
    let next = do
      tci ← load16 p st.vlh
      proto ← load16 p (st.vlh + 2)
      vlan_loop p rounds (record {
        h_proto = proto;
        vlh = st.vlh + vlan_hdr_size;
        ids = st.ids ++ (bswap16 tci % 2 ^ 12) ∷ [];
      })
    in if not (proto_is_vlan st.h_proto)
      then some st
      else (if ltb p.size (st.vlh + vlan_hdr_size) then some st else next)

-- The result and the collected VLAN ids.
unfoldable pub parse_ethhdr_vlan : Packet → HdrCursor → Option (Parsed × List ℕ)
parse_ethhdr_vlan p nh = if ltb p.size (nh.pos + ethhdr_size) then some (refused nh, []) else (do
  h_proto ← load16 p (nh.pos + 12)
  st ←
      vlan_loop p vlan_max_depth
        (record { h_proto = h_proto; vlh = nh.pos + ethhdr_size; ids = [] })
  some (
    record { cursor = record { pos = st.vlh }; header = some nh.pos; ret = ℤ.pos st.h_proto },
    st.ids,
  ))

unfoldable pub parse_ethhdr : Packet → HdrCursor → Option Parsed
parse_ethhdr p nh = parse_ethhdr_vlan p nh >>= λ r. some r.0

unfoldable pub parse_ip6hdr : Packet → HdrCursor → Option Parsed
parse_ip6hdr p nh =
    if ltb p.size (nh.pos + ipv6hdr_size)
    then some (refused nh)
    else (load8 p (nh.pos + 6) >>= λ nexthdr. some (accepted nh ipv6hdr_size nexthdr))

-- The lower half of the first byte is `ihl`.
unfoldable pub parse_iphdr : Packet → HdrCursor → Option Parsed
parse_iphdr p nh = if ltb p.size (nh.pos + iphdr_size) then some (refused nh) else (do
  version_ihl ← load8 p nh.pos
  let hdrsize = version_ihl % 16 * 4
  (if ltb hdrsize iphdr_size || ltb p.size (nh.pos + hdrsize)
      then some (refused nh)
      else (load8 p (nh.pos + 9) >>= λ protocol. some (accepted nh hdrsize protocol))))

unfoldable pub parse_icmp6hdr : Packet → HdrCursor → Option Parsed
parse_icmp6hdr p nh =
    if ltb p.size (nh.pos + icmphdr_size)
    then some (refused nh)
    else (load8 p nh.pos >>= λ icmp6_type. some (accepted nh icmphdr_size icmp6_type))

unfoldable pub parse_icmphdr : Packet → HdrCursor → Option Parsed
parse_icmphdr p nh =
    if ltb p.size (nh.pos + icmphdr_size)
    then some (refused nh)
    else (load8 p nh.pos >>= λ type. some (accepted nh icmphdr_size type))

unfoldable pub parse_icmphdr_common : Packet → HdrCursor → Option Parsed
parse_icmphdr_common p nh =
    if ltb p.size (nh.pos + icmphdr_common_size)
    then some (refused nh)
    else (load8 p nh.pos >>= λ type. some (accepted nh icmphdr_common_size type))

-- `len` is an `int`, so the test `len < 0` sees a length field below 8: the cursor and the header
-- pointer have been stored by then.
unfoldable pub parse_udphdr : Packet → HdrCursor → Option Parsed
parse_udphdr p nh = if ltb p.size (nh.pos + udphdr_size) then some (refused nh) else (do
  len ← load16 p (nh.pos + 4)
  some (
      if ltb (bswap16 len) udphdr_size
      then (record {
        cursor = record { pos = nh.pos + udphdr_size };
        header = some nh.pos;
        ret = negsuc 0;
      })
      else accepted nh udphdr_size (bswap16 len - udphdr_size)))

-- The upper half of byte 12 is `doff`.
unfoldable pub parse_tcphdr : Packet → HdrCursor → Option Parsed
parse_tcphdr p nh = if ltb p.size (nh.pos + tcphdr_size) then some (refused nh) else (do
  doff_byte ← load8 p (nh.pos + 12)
  let len = doff_byte / 16 % 16 * 4
  some (
      if ltb len tcphdr_size || ltb p.size (nh.pos + len) then refused nh else accepted nh len len))
