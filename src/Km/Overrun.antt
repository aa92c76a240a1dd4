-- ===== src/Km/Overrun.antt =====
-- Payloads longer than a slot: `rxhPacketIn` copies all of a payload, and `struct Payload` has 1024
-- bytes where a slot has 128.
use thesis_b_cs_tu_berlin.Prelude.{
  ℕ, ◌==◌, if◌then◌else◌, ◌⊎◌, ◌+◌, ◌-◌, ◌*◌, ◌≤◌, ◌<◌, ◌≡◌, sym, ap, ◌∙◌, ◌↔◌, true, none, some,
  arith,
}
use native.Mathlib.Decide.{dec_lt}
use thesis_b_cs_tu_berlin.Params.{pkt_buffer_size, max_pkt}
use thesis_b_cs_tu_berlin.Memory.{mem_copy, load16}
use thesis_b_cs_tu_berlin.Memory.Words.{bswap16-lt}
use thesis_b_cs_tu_berlin.Km.{Km, SkBuff, is_for_us, copy_packet, fill_slot, rxh_packet_in}
use thesis_b_cs_tu_berlin.Km.Fill.{filled}
use thesis_b_cs_tu_berlin.Km.Receive.{
  HasPayload, find_slot_free, fill_slot_lem, counted, take_packet_lem,
}

some≢none : {s : Km} → some s ≡ none → ⊥
some≢none e = cc

fill_slot-none :
    (pkt : SkBuff) (n w : ℕ) (s : Km)
    → HasPayload n pkt
    → pkt_buffer_size * max_pkt < w * pkt_buffer_size + n
    → fill_slot pkt w s ≡ none
unfolding fill_slot copy_packet load16
fill_slot-none pkt n w s v h = ground (
  arith,
  bswap16-lt (
      pkt.linear.bytes (pkt.transport_header + 4)
      + 256 * pkt.linear.bytes (pkt.transport_header + 4 + 1)),
)

module _ (pkt : SkBuff) (n now : ℕ) (s : Km) (free : s.status s.current_index ≡ 0)
    (hp : HasPayload n pkt) (ours : is_for_us pkt ≡ some true) where
  filled_next : rxh_packet_in pkt now s ≡ fill_slot pkt s.current_index (counted pkt now s)
  unfolding rxh_packet_in
  filled_next = rw ours (
      take_packet_lem pkt now s hp.uid_there
      ∙ find_slot_free pkt 199 s.current_index (counted pkt now s) free)

  -- When the slot at `current_index` is free, a packet of `n` payload bytes that the module takes makes
  -- the handler write past the end of the cache exactly when the payload, copied to that slot, is longer
  -- than what the cache has from there on.
  pub rxh_packet_in-none_iff :
      (rxh_packet_in pkt now s ≡ none)
      ↔ (pkt_buffer_size * max_pkt < s.current_index * pkt_buffer_size + n)
  rxh_packet_in-none_iff = (
    λ e. elim (dec_lt (pkt_buffer_size * max_pkt) (s.current_index * pkt_buffer_size + n)) [
      | yes long ↦ long
      | no short ↦ absurd (
          some≢none (
            sym (
              filled_next
              ∙ fill_slot_lem pkt n s.current_index (counted pkt now s) hp (omega arith))
            ∙ e))
    ],
    λ long. filled_next ∙ fill_slot-none pkt n s.current_index (counted pkt now s) hp long,
  )

  -- When the slot at `current_index` is free, a payload that ends inside the cache is copied whole from
  -- that slot's start on, over slot boundaries if it is longer than a slot, up to its own end: these bytes
  -- of the cache are the payload's and all others stay. The slot at `current_index` alone is marked, and a
  -- slot behind it that was overwritten keeps its mark.
  pub rxh_packet_in-overrun :
      s.current_index * pkt_buffer_size + n ≤ pkt_buffer_size * max_pkt
      → (s' : Km) × (rxh_packet_in pkt now s ≡ some s')
        × ((j : ℕ)
            → j < n
            → s'.buff_from_here (s.current_index * pkt_buffer_size + j)
              ≡ pkt.linear.bytes (pkt.pkt_data + 28 + j))
        × ((a : ℕ)
            → (a < s.current_index * pkt_buffer_size) ⊎ (s.current_index * pkt_buffer_size + n ≤ a)
            → s'.buff_from_here a ≡ s.buff_from_here a)
        × ((i : ℕ) → s'.status i ≡ (if i == s.current_index then 1 else s.status i))
  unfolding mem_copy
  rxh_packet_in-overrun inside = (
    filled pkt n s.current_index (counted pkt now s),
    filled_next ∙ fill_slot_lem pkt n s.current_index (counted pkt now s) hp inside,
    λ j hj. ground (arith, same j),
    λ a out. ground arith,
    λ i. ground arith,
  )
    where
      same :
          (j : ℕ)
          → pkt.linear.bytes (
              pkt.pkt_data
              + 28
              + (s.current_index * pkt_buffer_size + j - s.current_index * pkt_buffer_size))
            ≡ pkt.linear.bytes (pkt.pkt_data + 28 + j)
      same j = ap pkt.linear.bytes (omega arith)
