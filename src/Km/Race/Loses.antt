-- ===== src/Km/Race/Loses.antt =====
-- mymodule/kernel_module/intercept-module.c, `rxhPacketIn`: what two runs at once that find the same slot leave.
use thesis_b_cs_tu_berlin.Prelude.{
  ℕ, suc, ◌+◌, ◌-◌, ◌*◌, ◌%◌, ◌^◌, ◌≤◌, ◌<◌, length, ltb, if◌then◌else◌, le→leb, ◌≡◌, refl, sym, ap,
  ap₂, subst, fun_ext, ◌∙◌, ◌≢◌, some, List, [], ◌∷◌, ◌++◌, arith,
}
use thesis_b_cs_tu_berlin.Params.{pkt_buffer_size, max_pkt}
use thesis_b_cs_tu_berlin.Memory.{Bytes, mem_copy, shift}
use thesis_b_cs_tu_berlin.Log.Entries.{log_store-after}
use thesis_b_cs_tu_berlin.Km.{Km, SkBuff}
use thesis_b_cs_tu_berlin.Km.Window.{slot_of, window, window_snoc, window_frame, SameSlot}
use thesis_b_cs_tu_berlin.Km.Ring.{IsRing, Holds, oldest}
use thesis_b_cs_tu_berlin.Km.Fill.{filled, packet_slot, filled-IsRing, copy_other}
use thesis_b_cs_tu_berlin.Km.Receive.{
  HasPayload, counted, packet_uid, fill_slot_lem, Holds-frame, length-snoc,
}
use thesis_b_cs_tu_berlin.Km.Race.{find_index, handler_finds, handler_stores, race}

first_free :
    (pkt : SkBuff) (now : ℕ) (s : Km)
    → pkt.pkt_data + 28 + 16 ≤ pkt.linear.size
    → s.status s.current_index ≡ 0
    → handler_finds pkt now s ≡ some (some s.current_index, counted pkt now s)
unfolding handler_finds find_index
first_free pkt now s h free =
    rw (le→leb _ _ h, log_store-after s.log_buffs (packet_uid pkt) now, free) refl

-- A slot that two packets have been copied into.
abbrev pub both_slots : SkBuff → ℕ → SkBuff → ℕ → Bytes
both_slots pkt₁ n₁ pkt₂ n₂ j =
    if ltb j n₂ then pkt₂.linear.bytes (pkt₂.pkt_data + 28 + j) else packet_slot pkt₁ n₁ j

module _ (pkt₁ pkt₂ : SkBuff) (n₁ n₂ : ℕ) (s : Km) (q : List Bytes) (v : Holds s q)
    (fits₁ : n₁ ≤ pkt_buffer_size) (fits₂ : n₂ ≤ pkt_buffer_size) (room : length q < max_pkt) where
  abbrev once : Km
  once = filled pkt₁ n₁ s.current_index s

  abbrev pub twice : Km
  twice = filled pkt₂ n₂ s.current_index once

  once-IsRing : IsRing (suc (length q)) once
  once-IsRing = filled-IsRing pkt₁ n₁ (length q) s v.ring room fits₁

  same_marks : twice.status ≡ once.status
  same_marks = fun_ext λ i. ground arith

  twice_slot : slot_of twice.buff_from_here s.current_index ≡ both_slots pkt₁ n₁ pkt₂ n₂
  unfolding mem_copy
  twice_slot = fun_ext λ j. ground (
    arith,
    clean j,
    ap pkt₁.linear.bytes (cancel pkt₁.pkt_data j),
    ap pkt₂.linear.bytes (cancel pkt₂.pkt_data j),
  )
    where
      clean :
          (j : ℕ)
          → j < pkt_buffer_size
          → s.buff_from_here (s.current_index * pkt_buffer_size + j) ≡ 0
      clean j h =
          subst (λ i. s.buff_from_here (i * pkt_buffer_size + j) ≡ 0)
            (omega (arith, v.ring.index_in)) (v.ring.clean 0 j (omega arith) h)

      cancel :
          (d j : ℕ)
          → d + 28 + (s.current_index * pkt_buffer_size + j - s.current_index * pkt_buffer_size)
            ≡ d + 28 + j
      cancel d j = omega arith

  twice_other : {i : ℕ} → i ≢ s.current_index → SameSlot once.buff_from_here twice.buff_from_here i
  twice_other h =
      copy_other once.buff_from_here (shift pkt₂.linear.bytes (pkt₂.pkt_data + 28)) s.current_index
        n₂ fits₂ h

  free_ne :
      (k : ℕ) → k < max_pkt - suc (length q) → (once.current_index + k) % max_pkt ≢ s.current_index
  free_ne k h = omega (arith, v.ring.index_in)

  twice-IsRing : IsRing (suc (length q)) twice
  twice-IsRing = record {
    index_in = once-IsRing.index_in;
    held_le = once-IsRing.held_le;
    free =
        λ k h. ap (λ m. m ((once.current_index + k) % max_pkt)) same_marks ∙ once-IsRing.free k h;
    used = λ k h h'.
        ap (λ m. m ((once.current_index + k) % max_pkt)) same_marks ∙ once-IsRing.used k h h';
    clean = λ k j h h'. sym (twice_other (free_ne k h) j h') ∙ once-IsRing.clean k j h h';
  }

  oldest-twice : oldest (suc (length q)) twice ≡ oldest (length q) s
  oldest-twice = omega (arith, v.ring.index_in)

  used_ne : (k : ℕ) → k < length q → (oldest (length q) s + k) % max_pkt ≢ s.current_index
  used_ne k h = omega (arith, v.ring.index_in)

  same_older :
      (k : ℕ)
      → k < length q
      → SameSlot s.buff_from_here twice.buff_from_here ((oldest (length q) s + k) % max_pkt)
  same_older k h j hj =
      copy_other s.buff_from_here (shift pkt₁.linear.bytes (pkt₁.pkt_data + 28)) s.current_index n₁
        fits₁ (used_ne k h) j hj
      ∙ twice_other (used_ne k h) j hj

  after_newest : (oldest (length q) s + length q) % max_pkt ≡ s.current_index
  after_newest = omega (arith, v.ring.index_in)

  twice-window :
      window twice.buff_from_here (oldest (suc (length q)) twice) (suc (length q))
      ≡ q ++ both_slots pkt₁ n₁ pkt₂ n₂ ∷ []
  twice-window = rw oldest-twice (
      window_snoc twice.buff_from_here (oldest (length q) s) (length q) (omega arith)
      ∙ ap₂ (λ w p. w ++ p ∷ [])
          (sym (
              window_frame s.buff_from_here twice.buff_from_here (oldest (length q) s) (length q)
                (omega arith) same_older)
            ∙ v.contents)
          (ap (slot_of twice.buff_from_here) after_newest ∙ twice_slot))

  pub twice-Holds : Holds twice (q ++ both_slots pkt₁ n₁ pkt₂ n₂ ∷ [])
  twice-Holds = record {
    ring = subst (λ m. IsRing m twice) (sym (length-snoc q _)) twice-IsRing;
    contents = rw (length-snoc q (both_slots pkt₁ n₁ pkt₂ n₂)) twice-window;
  }

-- Let two packets with payloads that fit a slot come past the handler's tests at once while the cache has
-- room, and let each handler find its slot before the other one marks it. Both take the same slot: the
-- cache's queue gets one entry, of the second copy's bytes and whatever the first one left behind them, both
-- packets count as received, and none counts as lost.
pub race_loses :
    (pkt₁ pkt₂ : SkBuff) (n₁ n₂ now₁ now₂ : ℕ) (s : Km) (q : List Bytes)
    → Holds s q
    → HasPayload n₁ pkt₁
    → HasPayload n₂ pkt₂
    → n₁ ≤ pkt_buffer_size
    → n₂ ≤ pkt_buffer_size
    → length q < max_pkt
    → (s' : Km) × (race pkt₁ now₁ pkt₂ now₂ s ≡ some s')
      × Holds s' (q ++ both_slots pkt₁ n₁ pkt₂ n₂ ∷ [])
      × (s'.count_pkt ≡ (s.count_pkt + 2) % 2 ^ 64)
      × (s'.count_pkt_overflow ≡ s.count_pkt_overflow)
unfolding race handler_stores
race_loses pkt₁ pkt₂ n₁ n₂ now₁ now₂ s q v h₁ h₂ fits₁ fits₂ room = (
  twice pkt₁ pkt₂ n₁ n₂ start q start-Holds fits₁ fits₂ room,
  rw
      (
        first_free pkt₁ now₁ s h₁.uid_there free,
        first_free pkt₂ now₂ (counted pkt₁ now₁ s) h₂.uid_there free,
        fill_slot_lem pkt₁ n₁ s.current_index start h₁ (omega (arith, v.ring.index_in)),
      )
      (fill_slot_lem pkt₂ n₂ s.current_index (filled pkt₁ n₁ s.current_index start) h₂
        (omega (arith, v.ring.index_in))),
  twice-Holds pkt₁ pkt₂ n₁ n₂ start q start-Holds fits₁ fits₂ room,
  omega arith,
  refl,
)
  where
    free : s.status s.current_index ≡ 0
    free =
        subst (λ i. s.status i ≡ 0) (omega (arith, v.ring.index_in)) (v.ring.free 0 (omega arith))

    start : Km
    start = counted pkt₂ now₂ (counted pkt₁ now₁ s)

    start-Holds : Holds start q
    start-Holds =
        Holds-frame s q s.buff_temp start.count_pkt start.count_pkt_overflow start.log_buffs v
