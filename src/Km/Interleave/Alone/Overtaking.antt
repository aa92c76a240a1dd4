-- ===== src/Km/Interleave/Alone/Overtaking.antt =====
-- A packet that comes in between the begin of a `read` and the first round of its search.
use thesis_b_cs_tu_berlin.Prelude.{
  ℕ, suc, ◌-◌, ◌≤◌, ◌<◌, min, length, replicate, get_or, leb, ◌≡◌, sym, ap, subst, true, false,
  some, List, [], ◌∷◌, ◌++◌, arith,
}
use thesis_b_cs_tu_berlin.Params.{pkt_buffer_size, max_pkt, pkts_per_buffer, buffer_size}
use thesis_b_cs_tu_berlin.Memory.{Bytes, zeros, mem_zero}
use thesis_b_cs_tu_berlin.Km.{Km, SkBuff, is_for_us, rxh_packet_in, Gathered, gather, clean_up}
use thesis_b_cs_tu_berlin.Km.Window.{slot_of}
use thesis_b_cs_tu_berlin.Km.Ring.{Holds}
use thesis_b_cs_tu_berlin.Km.Fill.{packet_slot}
use thesis_b_cs_tu_berlin.Km.Receive.{HasPayload}
use thesis_b_cs_tu_berlin.Km.Trace.{receives, reads}
use thesis_b_cs_tu_berlin.Km.Interleave.{
  idle, searching, System, slots, read_step, newly_stored, interleave, interleave_all,
}
use thesis_b_cs_tu_berlin.Km.Interleave.Alone.{Leads, found, search_lem, copied_lem}
use thesis_b_cs_tu_berlin.Km.Interleave.Late.{
  stored_km, fresh, result, handled, searched, result_length, newest_first, then_old,
}

-- The state after a `read` that has delivered what it has found.
abbrev pub read_out : Gathered → System → System
read_out g s = record s {
  km = clean_up g.copied_index (record s.km { buff_temp = g.temp });
  reader = idle;
  delivered = s.delivered ++ slots g.temp (length g.copied_index);
}

leads_on :
    (off : ℕ) (g g' : Gathered) (s : System)
    → g ≡ g'
    → Leads off false (found off false g s) (read_out g' s)
unfolding found
leads_on off g g' s e =
    subst (λ x. Leads off false (found off false x s) (read_out g' s)) (sym e)
      (copied_lem off false g' (record s { km = record s.km { buff_temp = g'.temp } }))

begins_search :
    (off now : ℕ) (pkt : SkBuff) (m : ℕ) (s s' : System) (km' : Km)
    → off < buffer_size
    → s.reader ≡ idle
    → rxh_packet_in pkt now s.km ≡ some km'
    → interleave_all (replicate m (reads off false)) (record s {
      km = km';
      reader =
          searching max_pkt s.km.current_index
            (record { temp = mem_zero s.km.buff_temp 0 buffer_size; copied_index = [] });
      stored = s.stored ++ newly_stored pkt s.km;
    })
      ≡ some s'
    → interleave_all (reads off false ∷ receives pkt now ∷ replicate m (reads off false)) s
      ≡ some s'
unfolding interleave_all interleave read_step
begins_search off now pkt m s s' km' h e takes rest =
    let near : leb buffer_size off ≡ false = ground arith in rw (e, near, takes) rest

-- With packets that fit their slots, a packet can overtake those before it: where one comes in between
-- the begin of a `read` and the first round of its search, on a cache that is a ring with room, the
-- `read` delivers it first, as slot 0, and then up to 31 of the packets that were there, the oldest
-- first.
pub newest_overtakes :
    (off now : ℕ) (pkt : SkBuff) (n : ℕ) (s : System) (q : List Bytes)
    → Holds s.km q
    → off < buffer_size
    → s.reader ≡ idle
    → is_for_us pkt ≡ some true
    → HasPayload n pkt
    → n ≤ pkt_buffer_size
    → length q < max_pkt
    → (m : ℕ) × (t : Bytes) × (s' : System) × (interleave_all
          (reads off false ∷ receives pkt now ∷ replicate m (reads off false))
          s
        ≡ some s')
      × (s'.delivered ≡ s.delivered ++ slots t (suc (min (length q) (pkts_per_buffer - 1))))
      × (slot_of t 0 ≡ packet_slot pkt n)
      × ((k : ℕ) → k < length q → k < pkts_per_buffer - 1 → slot_of t (suc k) ≡ get_or q k zeros)
newest_overtakes off now pkt n s q v h e ours hp fits room =
    let km' = stored_km pkt n now s.km q v hp fits room in
    let g = fresh pkt n now s.km q v hp fits room in
    let out = result pkt n now s.km q v hp fits room in
    let s₁ : System = record s { km = km'; stored = s.stored ++ newly_stored pkt s.km } in
    let (m, rest) = search_lem off false max_pkt s.km.current_index g s₁ (read_out out s₁) (
      leads_on off (gather km' max_pkt s.km.current_index g) out s₁
        (searched pkt n now s.km q v hp fits room)) in
    (
      m,
      out.temp,
      read_out out s₁,
      begins_search off now pkt m s (read_out out s₁) km' h e
          (handled pkt n now s.km q v hp fits room ours) rest,
      ap (λ len. s.delivered ++ slots out.temp len) (result_length pkt n now s.km q v hp fits room),
      newest_first pkt n now s.km q v hp fits room,
      then_old pkt n now s.km q v hp fits room,
    )
