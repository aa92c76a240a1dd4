-- ===== src/Km/Race.antt =====
-- mymodule/kernel_module/intercept-module.c: two runs of `rxhPacketIn` at once. Nothing keeps a second CPU
-- out between the test of a slot's status and the mark that takes the slot.
use thesis_b_cs_tu_berlin.Prelude.{
  ℕ, zero, suc, ◌+◌, ◌%◌, ◌^◌, leb, ◌==◌, if◌then◌else◌, Bool-cases, ◌≡◌, refl, ap, ap₂, ◌∙◌, inl,
  inr, false, Option, none, some, arith,
}
use thesis_b_cs_tu_berlin.Params.{max_pkt, km_find_buff_slot_max_try}
use thesis_b_cs_tu_berlin.Memory.{le64, ◌>>=◌}
use thesis_b_cs_tu_berlin.Log.{log_store}
use thesis_b_cs_tu_berlin.Log.Entries.{log_store-after}
use thesis_b_cs_tu_berlin.Km.{Km, SkBuff, fill_slot, find_slot, take_packet}
use thesis_b_cs_tu_berlin.Km.Receive.{dropped, counted, packet_uid}
pub mod Loses

-- The search loop up to the slot that it takes, or its end with none.
unfoldable pub find_index : ℕ → ℕ → Km → Option ℕ
find_index zero write_index s = none
find_index (suc rounds) write_index s =
    let rest = find_index rounds ((write_index + 1) % max_pkt) s in
    if s.status write_index == 0 then some write_index else rest

-- The handler up to the moment at which it has found a slot to be free.
unfoldable pub handler_finds : SkBuff → ℕ → Km → Option (Option ℕ × Km)
handler_finds pkt now s = do
  uid ←
      (if leb (pkt.pkt_data + 28 + 16) pkt.linear.size
        then some (le64 pkt.linear.bytes (pkt.pkt_data + 28 + 8))
        else none)
  log ← log_store s.log_buffs uid now
  let found = find_index km_find_buff_slot_max_try s.current_index s
  let counts : Km = record s { count_pkt = (s.count_pkt + 1) % 2 ^ 64; log_buffs = log }
  some (found, elim found [ none ↦ dropped counts | some w ↦ counts ])

-- And from there on: the copy, the mark and the next index.
unfoldable pub handler_stores : SkBuff → Option ℕ → Km → Option Km
handler_stores pkt none s = some s
handler_stores pkt (some w) s = fill_slot pkt w s

abbrev store_or_drop : SkBuff → Option ℕ → Km → Option Km
store_or_drop pkt none s = some (dropped s)
store_or_drop pkt (some w) s = fill_slot pkt w s

find_slot-find_index :
    (pkt : SkBuff) (rounds w : ℕ) (s : Km)
    → find_slot pkt (suc rounds) w s ≡ store_or_drop pkt (find_index (suc rounds) w s) s
unfolding find_slot find_index
find_slot-find_index pkt zero w s = elim (Bool-cases (s.status w == 0)) [
  | inl free ↦ rw free refl
  | inr used ↦ rw used refl
]
find_slot-find_index pkt (suc rounds) w s = elim (Bool-cases (s.status w == 0)) [
  | inl free ↦ rw free refl
  | inr used ↦
      let not_last : (suc rounds == 0) ≡ false = ground arith in
      rw (used, not_last) (find_slot-find_index pkt rounds ((w + 1) % max_pkt) s)
]

find_index-frame :
    (rounds w : ℕ) (s s' : Km)
    → s.status ≡ s'.status
    → find_index rounds w s ≡ find_index rounds w s'
unfolding find_index
find_index-frame zero w s s' e = refl
find_index-frame (suc rounds) w s s' e =
    ap₂ (λ (status : ℕ → ℕ) (rest : Option ℕ). if status w == 0 then some w else rest) e
      (find_index-frame rounds ((w + 1) % max_pkt) s s' e)

-- One run of the handler is its two halves, one after the other.
pub take_packet-halves :
    (pkt : SkBuff) (now : ℕ) (s : Km)
    → take_packet pkt now s ≡ (handler_finds pkt now s >>= λ r. handler_stores pkt r.0 r.1)
unfolding take_packet handler_finds handler_stores
take_packet-halves pkt now s = elim (Bool-cases (leb (pkt.pkt_data + 28 + 16) pkt.linear.size)) [
  | inr short ↦ rw short refl
  | inl long ↦
      rw (long, log_store-after s.log_buffs (packet_uid pkt) now)
        (find_slot-find_index pkt 199 s.current_index (counted pkt now s)
          ∙ ap (λ f. store_or_drop pkt f (counted pkt now s))
              (find_index-frame 200 s.current_index (counted pkt now s) s refl)
          ∙ halves (find_index 200 s.current_index s))
]
  where
    halves :
        (f : Option ℕ)
        → store_or_drop pkt f (counted pkt now s)
          ≡ handler_stores pkt f
              (elim f [ none ↦ dropped (counted pkt now s) | some w ↦ counted pkt now s ])
    halves none = refl
    halves (some w) = refl

-- Two handlers at once, each of which finds its slot before either takes one.
unfoldable pub race : SkBuff → ℕ → SkBuff → ℕ → Km → Option Km
race pkt₁ now₁ pkt₂ now₂ s = do
  found₁ ← handler_finds pkt₁ now₁ s
  found₂ ← handler_finds pkt₂ now₂ found₁.1
  stored ← handler_stores pkt₁ found₁.0 found₂.1
  handler_stores pkt₂ found₂.0 stored
