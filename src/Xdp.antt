-- ===== src/Xdp.antt =====
-- eBPF_app/eBPF_measure/ebpf_measure_kern.c: the XDP program `xdp_sock_prog` and its maps.
use thesis_b_cs_tu_berlin.Prelude.{
  ℕ, ◌+◌, ◌%◌, ◌^◌, leb, ◌==◌, if◌then◌else◌, Bool, false, ◌&&◌, Option, none, some, [],
}
use thesis_b_cs_tu_berlin.Prelude.Int.{ℤ, pos, negsuc}
use thesis_b_cs_tu_berlin.Params.{dest_port, payload_size}
use thesis_b_cs_tu_berlin.Memory.{Packet, shift, load16, bswap16, ◌>>=◌}
use thesis_b_cs_tu_berlin.Payload.{Payload, decode}
use thesis_b_cs_tu_berlin.Parsing.{HdrCursor, Parsed, parse_ethhdr, parse_iphdr, parse_udphdr}
use thesis_b_cs_tu_berlin.Bpf.{BpfArray}
pub mod Accept
pub mod Headers
pub mod Effect
pub mod Frame
pub mod Tagged

abbrev pub eth_p_ip : ℕ
eth_p_ip = 0x0800

abbrev pub ipproto_udp : ℕ
ipproto_udp = 17

abbrev pub xdp_pass : ℕ
xdp_pass = 2

-- `r == k` for a parser's result `r` and an unsigned `k`.
abbrev pub ret_is : ℤ → ℕ → Bool
ret_is (pos n) k = n == k
ret_is (negsuc n) k = false

-- `udphdr->dest == bpf_htons(DEST_PORT)`, through the pointer that `parse_udphdr` has stored.
unfoldable pub dest_is_ours : Packet → Parsed → Option Bool
dest_is_ours p udp = elim udp.header [
  | none ↦ none
  | some udphdr ↦ load16 p (udphdr + 2) >>= λ dest. some (dest == bswap16 dest_port)
]

unfoldable pub udp_is_ours : Packet → HdrCursor → Option Bool
unfolding dest_is_ours
udp_is_ours p nh = parse_udphdr p nh >>= λ udp.
    if ret_is udp.ret payload_size then dest_is_ours p udp else some false

unfoldable pub ip_is_ours : Packet → HdrCursor → Option Bool
unfolding udp_is_ours
ip_is_ours p nh = parse_iphdr p nh >>= λ ip.
    if ret_is ip.ret ipproto_udp then udp_is_ours p ip.cursor else some false

-- The parsing part of `xdp_sock_prog`: does the program go on with the packet?
unfoldable pub is_ours : Packet → Option Bool
unfolding ip_is_ours
is_ours p = parse_ethhdr p (record { pos = 0 }) >>= λ eth.
    if ret_is eth.ret (bswap16 eth_p_ip) then ip_is_ours p eth.cursor else some false

-- `pl = data+42`, and a read of the whole struct through it.
unfoldable pub load_payload : Packet → Option Payload
load_payload p = if leb (42 + payload_size) p.size then some (decode (shift p.bytes 42)) else none

-- The key that a map call reads through `&pl->uid`: the four low bytes of the `unsigned long`.
abbrev pub map_key : Payload → ℕ
map_key pl = pl.uid % 2 ^ 32

module _ (times : BpfArray ℕ) (pkts : BpfArray Payload) (stats : BpfArray ℕ) where
  -- `uid_timestamps`, `pkt_payload`, and this CPU's part of `xdp_stats_map`.
  pub record Maps : Type 0 where
    pub uid_timestamps : times.Map
    pub pkt_payload : pkts.Map
    pub xdp_stats : stats.Map

  -- `if (time_in_map) *time_in_map = now`
  abbrev pub stamp : times.Map → ℕ → ℕ → times.Map
  stamp m key now = elim (times.lookup m key) [ none ↦ m | some old ↦ times.update m key now ]

  -- `if (pkt_count) (*pkt_count)++`, a `__u32`.
  abbrev pub count_up : stats.Map → ℕ → stats.Map
  count_up m index = elim (stats.lookup m index) [
    | none ↦ m
    | some count ↦ stats.update m index ((count + 1) % 2 ^ 32)
  ]

  -- The body below the parsing, for a payload that lies inside the packet.
  unfoldable pub store_payload : Payload → ℕ → ℕ → Maps → Maps
  store_payload pl index now m = record {
    uid_timestamps = stamp m.uid_timestamps (map_key pl) now;
    pkt_payload = pkts.update m.pkt_payload (map_key pl) pl;
    xdp_stats = count_up m.xdp_stats index;
  }

  -- `xdp_sock_prog` on a packet of receive queue `index` at time `now`: the returned action and the
  -- maps. `none` is an access outside the packet.
  unfoldable pub xdp_sock_prog : Packet → ℕ → ℕ → Maps → Option (ℕ × Maps)
  xdp_sock_prog p index now m = is_ours p >>= λ ours.
      if ours && (leb 106 p.size && leb (42 + payload_size) p.size)
      then (load_payload p >>= λ pl. some (xdp_pass, store_payload pl index now m))
      else some (xdp_pass, m)
