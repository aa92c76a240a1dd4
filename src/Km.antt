-- ===== src/Km.antt =====
-- mymodule/kernel_module/intercept-module.c: the packet cache of the kernel module, its receive
-- handler and its `read`.
use thesis_b_cs_tu_berlin.Prelude.{
  ℕ, zero, suc, ◌+◌, ◌-◌, ◌*◌, ◌/◌, ◌%◌, ◌^◌, length, ltb, leb, ◌==◌, if◌then◌else◌, Bool, false,
  ◌&&◌, Option, none, some, List, [], ◌∷◌, ◌++◌,
}
use thesis_b_cs_tu_berlin.Params.{
  buffer_size, pkt_buffer_size, pkts_per_buffer, max_pkt, km_find_buff_slot_max_try, dest_port,
}
use thesis_b_cs_tu_berlin.Memory.{
  Bytes, mem_copy, mem_zero, shift, Packet, load8, load16, le64, bswap16, ◌>>=◌,
}
use thesis_b_cs_tu_berlin.Log.{Log, log_store}
pub mod Accept
pub mod Window
pub mod Ring
pub mod Fill
pub mod Receive
pub mod Gather
pub mod CleanUp
pub mod Deliver
pub mod Overrun
pub mod Trace
pub mod Interleave
pub mod Race
pub mod Readers
pub mod File
pub mod Mapping
pub mod Module
pub mod Lifetime

-- The module's globals. `buff_from_here` has `MAX_PKT` slots of `PKT_BUFFER_SIZE` bytes, `buff_temp`
-- has `BUFFER_SIZE` bytes and `status` has `MAX_PKT` entries.
pub record Km : Type 0 where
  pub buff_from_here : Bytes
  pub buff_temp : Bytes
  pub current_index : ℕ
  pub status : ℕ → ℕ
  pub count_pkt : ℕ
  pub count_pkt_overflow : ℕ
  pub log_buffs : Log

-- A received packet: the linear bytes of the `sk_buff`, and the offsets of its pointers there.
pub record SkBuff : Type 0 where
  pub linear : Packet
  pub pkt_data : ℕ
  pub network_header : ℕ
  pub transport_header : ℕ

abbrev pub update : (ℕ → ℕ) → ℕ → ℕ → ℕ → ℕ
update f i v j = if j == i then v else f j

-- `(unsigned int)ntohs(udp_udphdr->dest) == 8080`
unfoldable pub is_our_port : SkBuff → Option Bool
is_our_port pkt = do
  dest ← load16 pkt.linear (pkt.transport_header + 2)
  some (bswap16 dest == dest_port)

-- `ip_header->protocol` is UDP, and then the port.
unfoldable pub is_our_udp : SkBuff → Option Bool
unfolding is_our_port
is_our_udp pkt = do
  protocol ← load8 pkt.linear (pkt.network_header + 9)
  if protocol == 17 then is_our_port pkt else some false

-- The tests of `rxhPacketIn`, of which each that fails returns at once: does the module take the
-- packet? `ip_header->version` is the upper half of the first byte.
unfoldable pub is_for_us : SkBuff → Option Bool
unfolding is_our_udp
is_for_us pkt = do
  version_ihl ← load8 pkt.linear pkt.network_header
  if version_ihl / 16 == 4 then is_our_udp pkt else some false

-- `(unsigned int)ntohs(udp_udphdr->len) - 8`, in 32 bits.
abbrev pub copy_len : ℕ → ℕ
copy_len len = (bswap16 len + 2 ^ 32 - 8) % 2 ^ 32

-- `memcpy(pos, pkt->data+28, n)`: it must stay in the cache and in the packet.
unfoldable pub copy_packet : SkBuff → ℕ → ℕ → Bytes → Option Bytes
copy_packet pkt slot n buff =
    if leb (slot * pkt_buffer_size + n) (pkt_buffer_size * max_pkt)
      && leb (pkt.pkt_data + 28 + n) pkt.linear.size
    then some
        (mem_copy buff (slot * pkt_buffer_size) (shift pkt.linear.bytes (pkt.pkt_data + 28)) n)
    else none

-- The body of the search loop where it finds `status[write_index] == 0`.
unfoldable pub fill_slot : SkBuff → ℕ → Km → Option Km
fill_slot pkt write_index s = do
  len ← load16 pkt.linear (pkt.transport_header + 4)
  buff ← copy_packet pkt write_index (copy_len len) s.buff_from_here
  some (record s {
    buff_from_here = buff;
    status = update s.status write_index 1;
    current_index = (write_index + 1) % max_pkt;
  })

-- `while (try < KM_FIND_BUFF_SLOT_MAX_TRY)` with `rounds` rounds left: `try` is the limit less
-- `rounds`, so `++try` reaches the limit when the last round ends.
unfoldable pub find_slot : SkBuff → ℕ → ℕ → Km → Option Km
find_slot pkt zero write_index s = some s
find_slot pkt (suc rounds) write_index s =
    let rest = find_slot pkt rounds ((write_index + 1) % max_pkt) (record s {
      count_pkt_overflow =
          if rounds == 0 then (s.count_pkt_overflow + 1) % 2 ^ 64 else s.count_pkt_overflow;
    }) in
    if s.status write_index == 0 then fill_slot pkt write_index s else rest

-- The part of `rxhPacketIn` below the port test, at time `now`.
unfoldable pub take_packet : SkBuff → ℕ → Km → Option Km
take_packet pkt now s = do
  uid ←
      (if leb (pkt.pkt_data + 28 + 16) pkt.linear.size
        then some (le64 pkt.linear.bytes (pkt.pkt_data + 28 + 8))
        else none)
  log ← log_store s.log_buffs uid now
  find_slot pkt km_find_buff_slot_max_try s.current_index
      (record s { count_pkt = (s.count_pkt + 1) % 2 ^ 64; log_buffs = log })

-- `rxhPacketIn`. It returns `RX_HANDLER_PASS` on every path, so the state alone is the result; `none`
-- is an access outside the packet or the cache.
unfoldable pub rxh_packet_in : SkBuff → ℕ → Km → Option Km
rxh_packet_in pkt now s = do ours ← is_for_us pkt; if ours then take_packet pkt now s else some s

-- The search of `read` for packets: the copy of the found ones, and the list of their slots, which
-- holds the entries of `copied_index` that are not -1.
pub record Gathered : Type 0 where
  pub temp : Bytes
  pub copied_index : List ℕ

unfoldable pub gather_one : Km → ℕ → Gathered → Gathered
gather_one s ci g = if s.status ci == 0 then g else (record {
  temp =
      mem_copy g.temp (length g.copied_index * pkt_buffer_size)
        (shift s.buff_from_here (ci * pkt_buffer_size)) pkt_buffer_size;
  copied_index = g.copied_index ++ ci ∷ [];
})

-- `while (copied_pkts < PKTS_PER_BUFFER && try < MAX_PKT)` with `rounds` tries left.
unfoldable pub gather : Km → ℕ → ℕ → Gathered → Gathered
gather s zero ci g = g
gather s (suc rounds) ci g =
    let rest = gather s rounds ((ci + 1) % max_pkt) (gather_one s ci g) in
    if ltb (length g.copied_index) pkts_per_buffer then rest else g

-- The clean-up of the slots that were delivered.
unfoldable pub clean_up : List ℕ → Km → Km
clean_up [] s = s
clean_up (i ∷ rest) s = clean_up rest (record s {
  buff_from_here = mem_zero s.buff_from_here (i * pkt_buffer_size) pkt_buffer_size;
  status = update s.status i 0;
})

-- What `read` hands out: its return value, and the bytes that `copy_to_user` has put in the user's
-- buffer, if it was called and succeeded.
pub record ReadReply : Type 0 where
  pub ret : ℕ
  pub delivered : Option Bytes

-- `read` at offset `off`; `copy_fails` is whether `copy_to_user` leaves bytes uncopied.
unfoldable pub read : ℕ → Bool → Km → ReadReply × Km
read off copy_fails s =
    if leb buffer_size off
    then (record { ret = buffer_size; delivered = none }, s)
    else (let g =
          gather s max_pkt s.current_index
            (record { temp = mem_zero s.buff_temp 0 buffer_size; copied_index = [] }) in
        let filled : Km = record s { buff_temp = g.temp } in
        if copy_fails then (record { ret = buffer_size; delivered = none }, filled) else (
          record { ret = buffer_size; delivered = some g.temp },
          clean_up g.copied_index filled,
        ))
