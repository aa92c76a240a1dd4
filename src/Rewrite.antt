-- ===== src/Rewrite.antt =====
-- eBPF_app/common/rewrite_helpers.h: the VLAN tag taken off and put on, and the address swaps.
use thesis_b_cs_tu_berlin.Prelude.{
  ℕ, ◌+◌, ◌*◌, ◌/◌, ◌%◌, ◌^◌, ◌≤◌, ltb, ◌==◌, if◌then◌else◌, ◌≡◌, not, Option, none, some,
}
use thesis_b_cs_tu_berlin.Prelude.Int.{ℤ, pos, negsuc}
use thesis_b_cs_tu_berlin.Memory.{Bytes, zeros, mem_copy, shift, Packet, load16, bswap16, ◌>>=◌}
use thesis_b_cs_tu_berlin.Parsing.{proto_is_vlan, eth_p_8021q, ethhdr_size, vlan_hdr_size}
pub mod RoundTrip
pub mod Swaps

-- `bpf_xdp_adjust_head`, which the kernel implements: it moves the start of the packet by `delta`, or
-- fails (`none`) and leaves the packet. It cuts bytes off the front as long as an Ethernet header is
-- left, and adds them as long as there is headroom. Bytes that come in at the front are unspecified.
pub record AdjustHead : Type 0 where
  pub adjust_head : Packet → ℤ → Option Packet
  pub cut_works :
      (p : Packet) (n : ℕ)
      → n + ethhdr_size ≤ p.size
      → (q : Packet) × (adjust_head p (pos n) ≡ some q)
  pub cut_front :
      (p q : Packet) (n : ℕ)
      → adjust_head p (pos n) ≡ some q
      → (q.size + n ≡ p.size) × ((a : ℕ) → q.bytes a ≡ p.bytes (n + a))
  pub add_front :
      (p q : Packet) (n : ℕ)
      → adjust_head p (negsuc n) ≡ some q
      → (q.size ≡ p.size + n + 1) × ((a : ℕ) → q.bytes (n + 1 + a) ≡ p.bytes a)

-- `*(__u16 *)(m + a) = v`
unfoldable pub store16 : Bytes → ℕ → ℕ → Bytes
store16 m a v b = if b == a then v % 256 else (if b == a + 1 then v / 256 % 256 else m b)

-- A function's return value and the packet that it leaves.
pub record Rewritten : Type 0 where
  pub ret : ℤ
  pub packet : Packet

-- `return -1`
abbrev pub fails_with : Packet → Rewritten
fails_with p = record { ret = negsuc 0; packet = p }

module _ (k : AdjustHead) where
  -- Past `bpf_xdp_adjust_head`: the old Ethernet header goes to the front, with the inner type.
  unfoldable pub restore_header : Bytes → ℕ → ℕ → Packet → Rewritten
  restore_header eth_cpy tci h_proto q = if ltb q.size ethhdr_size then fails_with q else (record {
    ret = pos (bswap16 tci);
    packet = record q { bytes = store16 (mem_copy q.bytes 0 eth_cpy ethhdr_size) 12 h_proto };
  })

  -- `eth` is the offset of the Ethernet header.
  unfoldable pub vlan_tag_pop : Packet → ℕ → Option Rewritten
  unfolding restore_header
  vlan_tag_pop p eth = load16 p (eth + 12) >>= λ proto.
      if not (proto_is_vlan proto)
      then some (fails_with p)
      else (if ltb p.size (eth + ethhdr_size + vlan_hdr_size) then some (fails_with p) else (do
        tci ← load16 p (eth + ethhdr_size)
        h_proto ← load16 p (eth + ethhdr_size + 2)
        (elim (k.adjust_head p (pos vlan_hdr_size)) [
          | none ↦ some (fails_with p)
          | some q ↦ some (restore_header (shift p.bytes eth) tci h_proto q)
        ])))

  -- Past the copy of the Ethernet header to the front.
  unfoldable pub write_tag : ℕ → Packet → Rewritten
  write_tag vlid q =
      let h_proto = q.bytes 12 + 256 * q.bytes 13 in
      if ltb q.size (ethhdr_size + vlan_hdr_size) then fails_with q else (record {
        ret = pos 0;
        packet = record q {
          bytes =
              store16 (store16 (store16 q.bytes 14 (bswap16 (vlid % 2 ^ 16))) 16 h_proto) 12
                (bswap16 eth_p_8021q);
        };
      })

  unfoldable pub move_header : Bytes → ℕ → Packet → Rewritten
  unfolding write_tag
  move_header eth_cpy vlid q =
      if ltb q.size ethhdr_size
      then fails_with q
      else write_tag vlid (record q { bytes = mem_copy q.bytes 0 eth_cpy ethhdr_size })

  unfoldable pub vlan_tag_push : Packet → ℕ → ℕ → Option Rewritten
  unfolding move_header
  vlan_tag_push p eth vlid =
      if ltb p.size (eth + ethhdr_size) then none else (elim (k.adjust_head p (negsuc 3)) [
        | none ↦ some (fails_with p)
        | some q ↦ some (move_header (shift p.bytes eth) vlid q)
      ])

-- The two copies through a buffer of `n` bytes.
abbrev pub swap_fields : ℕ → ℕ → ℕ → Bytes → Bytes
swap_fields src dst n m =
    let tmp = mem_copy zeros 0 (shift m src) n in
    mem_copy (mem_copy m src (shift m dst) n) dst tmp n

-- `h_dest` and `h_source` are the first six bytes and the next six.
unfoldable pub swap_src_dst_mac : ℕ → Bytes → Bytes
swap_src_dst_mac eth = swap_fields (eth + 6) eth 6

unfoldable pub swap_src_dst_ipv6 : ℕ → Bytes → Bytes
swap_src_dst_ipv6 ipv6 = swap_fields (ipv6 + 8) (ipv6 + 24) 16

unfoldable pub swap_src_dst_ipv4 : ℕ → Bytes → Bytes
swap_src_dst_ipv4 iphdr = swap_fields (iphdr + 12) (iphdr + 16) 4
