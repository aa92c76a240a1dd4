-- ===== src/Km/Interleave/Late.antt =====
-- The search of a `read` that a packet has reached the cache just before.
use thesis_b_cs_tu_berlin.Prelude.{
  ℕ, zero, suc, ◌+◌, ◌-◌, ◌*◌, ◌%◌, ◌≤◌, ◌<◌, min, length, length-append, get_or, ltb, lt→ltb, ◌≡◌,
  refl, sym, ap, subst, fun_ext, ◌∙◌, true, some, List, [], ◌∷◌, ◌++◌, arith,
}
use thesis_b_cs_tu_berlin.Params.{pkt_buffer_size, max_pkt, pkts_per_buffer, buffer_size}
use thesis_b_cs_tu_berlin.Memory.{Bytes, zeros, mem_zero, shift}
use thesis_b_cs_tu_berlin.Km.{Km, SkBuff, is_for_us, rxh_packet_in, Gathered, gather}
use thesis_b_cs_tu_berlin.Km.Window.{slot_of, get_or-window}
use thesis_b_cs_tu_berlin.Km.Ring.{Holds, IsRing, oldest}
use thesis_b_cs_tu_berlin.Km.Fill.{filled, packet_slot, filled-slot, filled-IsRing}
use thesis_b_cs_tu_berlin.Km.Receive.{
  HasPayload, counted, Holds-frame, filled-Holds, find_slot_lem, take_packet_lem,
}
use thesis_b_cs_tu_berlin.Km.Gather.{
  took, step_used, gather_free, gather_copied, gather_temp, length-indices, newly, copy_at,
}

slot_agree :
    (b b' : Bytes) (i i' : ℕ)
    → ((j : ℕ) → j < pkt_buffer_size → b (i * pkt_buffer_size + j) ≡ b' (i' * pkt_buffer_size + j))
    → slot_of b i ≡ slot_of b' i'
slot_agree b b' i i' h = fun_ext λ j. ground (arith, h j)

get_or-snoc :
    (q : List Bytes) (p : Bytes) (k : ℕ)
    → k < length q
    → get_or (q ++ p ∷ []) k zeros ≡ get_or q k zeros
get_or-snoc [] p k h = elim h [ ]
get_or-snoc (x ∷ q) p zero h = refl
get_or-snoc (x ∷ q) p (suc k) h = get_or-snoc q p k (omega arith)

module _ (pkt : SkBuff) (n now : ℕ) (s : Km) (q : List Bytes) (v : Holds s q)
    (hp : HasPayload n pkt) (fits : n ≤ pkt_buffer_size) (room : length q < max_pkt) where
  -- The state after the packet, and what the search has by then.
  abbrev pub stored_km : Km
  stored_km = filled pkt n s.current_index (counted pkt now s)

  abbrev pub fresh : Gathered
  fresh = record { temp = mem_zero s.buff_temp 0 buffer_size; copied_index = [] }

  counted-Holds : Holds (counted pkt now s) q
  counted-Holds =
      Holds-frame s q s.buff_temp (counted pkt now s).count_pkt s.count_pkt_overflow
        (counted pkt now s).log_buffs v

  stored-Holds : Holds stored_km (q ++ packet_slot pkt n ∷ [])
  stored-Holds = filled-Holds pkt n (counted pkt now s) q counted-Holds room fits

  pub handled : is_for_us pkt ≡ some true → rxh_packet_in pkt now s ≡ some stored_km
  unfolding rxh_packet_in
  handled ours =
      let free_slot : ltb (length q) max_pkt ≡ true = lt→ltb _ _ room in
      rw ours (
        take_packet_lem pkt now s hp.uid_there
        ∙ find_slot_lem pkt n (counted pkt now s) q counted-Holds hp fits
        ∙ rw free_slot refl)

  stored-IsRing : IsRing (suc (length q)) stored_km
  stored-IsRing = filled-IsRing pkt n (length q) (counted pkt now s) counted-Holds.ring room fits

  -- The search finds the new packet first, then the free slots, then the old packets.
  pub searched :
      gather stored_km max_pkt s.current_index fresh
      ≡ gather stored_km (length q) (oldest (length q) s) (took stored_km s.current_index fresh)
  searched =
      step_used stored_km 199 s.current_index fresh (omega arith) (ground arith)
      ∙ gather_free stored_km (max_pkt - suc (length q)) (length q) 199
          ((s.current_index + 1) % max_pkt) (took stored_km s.current_index fresh) (omega arith)
          (omega arith) (omega arith) stored-IsRing.free
      ∙ ap (λ i. gather stored_km (length q) i (took stored_km s.current_index fresh))
          (omega (arith, v.ring.index_in))

  old_used : (i : ℕ) → i < length q → stored_km.status ((oldest (length q) s + i) % max_pkt) ≡ 1
  old_used i h =
      subst (λ k. stored_km.status k ≡ 1) (omega (arith, v.ring.index_in))
        (stored-IsRing.used (max_pkt - suc (length q) + i) (omega arith) (omega arith))

  abbrev pub result : Gathered
  result = gather stored_km (length q) (oldest (length q) s) (took stored_km s.current_index fresh)

  pub result_length : length result.copied_index ≡ suc (min (length q) (pkts_per_buffer - 1))
  result_length =
      ap length (
        gather_copied stored_km (length q) (oldest (length q) s)
          (took stored_km s.current_index fresh) (omega arith) old_used)
      ∙ ap suc (length-indices (oldest (length q) s) (min (length q) (pkts_per_buffer - 1)))

  old_slot :
      (k : ℕ)
      → k < length q
      → slot_of stored_km.buff_from_here ((oldest (length q) s + k) % max_pkt) ≡ get_or q k zeros
  old_slot k hk =
      let all = q ++ packet_slot pkt n ∷ [] in
      let len : length all ≡ suc (length q) =
        omega (arith, length-append q (packet_slot pkt n ∷ [])) in
      let there : ltb k (length all) ≡ true = lt→ltb _ _ (omega (arith, len)) in
      let start = oldest (length all) stored_km in
      let same_slot : (oldest (length q) s + k) % max_pkt ≡ (start + k) % max_pkt =
        omega (arith, len, v.ring.index_in) in
      ap (slot_of stored_km.buff_from_here) same_slot
      ∙ sym (
          get_or-window stored_km.buff_from_here zeros start (length all) k (omega arith)
          ∙ rw there refl)
      ∙ ap (λ w. get_or w k zeros) stored-Holds.contents
      ∙ get_or-snoc q (packet_slot pkt n) k hk

  pub newest_first : slot_of result.temp 0 ≡ packet_slot pkt n
  newest_first =
      slot_agree result.temp stored_km.buff_from_here 0 s.current_index at_start
      ∙ filled-slot pkt n s.current_index (counted pkt now s) fits (λ j h.
        subst (λ i. s.buff_from_here (i * pkt_buffer_size + j) ≡ 0) (omega (arith, v.ring.index_in))
          (v.ring.clean 0 j (omega arith) h))
    where
      at_start :
          (j : ℕ)
          → j < pkt_buffer_size
          → result.temp (0 * pkt_buffer_size + j)
            ≡ stored_km.buff_from_here (s.current_index * pkt_buffer_size + j)
      at_start j h =
          gather_temp stored_km (length q) (oldest (length q) s)
            (took stored_km s.current_index fresh) 0 j (omega arith) h old_used
          ∙ copy_at fresh.temp (shift stored_km.buff_from_here (s.current_index * pkt_buffer_size))
              0 0 j h

  pub then_old :
      (k : ℕ)
      → k < length q
      → k < pkts_per_buffer - 1
      → slot_of result.temp (suc k) ≡ get_or q k zeros
  then_old k hk hb =
      slot_agree result.temp stored_km.buff_from_here (suc k) ((oldest (length q) s + k) % max_pkt)
        at_slot
      ∙ old_slot k hk
    where
      at_slot :
          (j : ℕ)
          → j < pkt_buffer_size
          → result.temp (suc k * pkt_buffer_size + j)
            ≡ stored_km.buff_from_here ((oldest (length q) s + k) % max_pkt * pkt_buffer_size + j)
      at_slot j h =
          gather_temp stored_km (length q) (oldest (length q) s)
            (took stored_km s.current_index fresh) (suc k) j (omega arith) h old_used
          ∙ rw is_new (ap stored_km.buff_from_here (omega arith))
        where
          is_new : newly 1 (length q) (suc k) ≡ true
          is_new = ground arith
