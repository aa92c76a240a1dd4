-- ===== src/Km/Receive.antt =====
-- The receive handler on the ring.
use thesis_b_cs_tu_berlin.Prelude.{
  ℕ, zero, suc, ◌+◌, ◌*◌, ◌%◌, ◌^◌, ◌≤◌, ◌<◌, length, length-append, ltb, ◌==◌, if◌then◌else◌,
  ltb→lt, le→leb, Bool-cases, ◌≡◌, sym, ap, subst, ◌∙◌, inl, inr, true, false, some, List, [], ◌∷◌,
  ◌++◌, arith,
}
use thesis_b_cs_tu_berlin.Params.{
  pkt_buffer_size, max_pkt, max_log_entry, km_find_buff_slot_max_try,
}
use thesis_b_cs_tu_berlin.Memory.{Bytes, load16, le64, bswap16}
use thesis_b_cs_tu_berlin.Km.{Km, SkBuff, copy_packet, fill_slot, find_slot, take_packet}
use thesis_b_cs_tu_berlin.Km.Accept.{IsUdp8080, is_for_us-IsUdp8080}
use thesis_b_cs_tu_berlin.Km.Window.{mod_step}
use thesis_b_cs_tu_berlin.Km.Ring.{IsRing, Holds}
use thesis_b_cs_tu_berlin.Km.Fill.{filled, packet_slot, filled-IsRing, window-filled}
use thesis_b_cs_tu_berlin.Log.{Log, entry}
use thesis_b_cs_tu_berlin.Log.Entries.{log_after, log_store-after, entry-log_after}
use thesis_b_cs_tu_berlin.Km.{is_for_us, rxh_packet_in}

abbrev pub dropped : Km → Km
dropped s = record s { count_pkt_overflow = (s.count_pkt_overflow + 1) % 2 ^ 64 }

-- The UDP payload of `n` bytes is in the packet, and its length field says so.
pub record HasPayload (n : ℕ) (pkt : SkBuff) : Type 0 where
  pub len_there : pkt.transport_header + 6 ≤ pkt.linear.size
  pub len_is :
      bswap16 (
        pkt.linear.bytes (pkt.transport_header + 4)
        + 256 * pkt.linear.bytes (pkt.transport_header + 4 + 1))
      ≡ n + 8
  pub bytes_there : pkt.pkt_data + 28 + n ≤ pkt.linear.size
  pub uid_there : pkt.pkt_data + 28 + 16 ≤ pkt.linear.size

pub fill_slot_lem :
    (pkt : SkBuff) (n w : ℕ) (s : Km)
    → HasPayload n pkt
    → w * pkt_buffer_size + n ≤ pkt_buffer_size * max_pkt
    → fill_slot pkt w s ≡ some (filled pkt n w s)
unfolding fill_slot copy_packet load16
fill_slot_lem pkt n w s v h = ground arith

pub find_slot_free :
    (pkt : SkBuff) (rounds w : ℕ) (s : Km)
    → s.status w ≡ 0
    → find_slot pkt (suc rounds) w s ≡ fill_slot pkt w s
unfolding find_slot
find_slot_free pkt rounds w s h = ground arith

pub find_slot_full :
    (pkt : SkBuff) (rounds w : ℕ) (s : Km)
    → w < max_pkt
    → ((k : ℕ) → k ≤ rounds → s.status ((w + k) % max_pkt) ≡ 1)
    → find_slot pkt (suc rounds) w s ≡ some (dropped s)
unfolding find_slot
find_slot_full pkt zero w s hw full = ground (arith, full 0)
find_slot_full pkt (suc rounds) w s hw full =
    rw (taken, find_slot, not_last)
      (find_slot_full pkt rounds ((w + 1) % max_pkt) s (omega arith)
        (λ k h. subst (λ i. s.status i ≡ 1) (sym (mod_step w k)) (full (suc k) (omega arith))))
  where
    not_last : (suc rounds == 0) ≡ false
    not_last = ground arith

    taken : s.status w ≡ 1
    taken = subst (λ i. s.status i ≡ 1) (omega arith) (full 0 (omega arith))

-- What the module promises: a bounded queue that drops a packet that finds it full.
abbrev pub enqueue : List Bytes → Bytes → List Bytes
enqueue q p = if ltb (length q) max_pkt then q ++ p ∷ [] else q

-- The ring and its contents rest on the cache, the marks and the index alone.
pub Holds-frame :
    (s : Km) (q : List Bytes) (temp : Bytes) (taken lost : ℕ) (log : Log)
    → Holds s q
    → Holds
        (record s {
          buff_temp = temp;
          count_pkt = taken;
          count_pkt_overflow = lost;
          log_buffs = log;
        })
        q
Holds-frame s q temp taken lost log v = record {
  ring = record {
    index_in = v.ring.index_in;
    held_le = v.ring.held_le;
    free = v.ring.free;
    used = v.ring.used;
    clean = v.ring.clean;
  };
  contents = v.contents;
}

pub length-snoc : (q : List Bytes) (p : Bytes) → length (q ++ p ∷ []) ≡ suc (length q)
length-snoc q p = omega (arith, length-append q (p ∷ []))

pub filled-Holds :
    (pkt : SkBuff) (n : ℕ) (s : Km) (q : List Bytes)
    → Holds s q
    → length q < max_pkt
    → n ≤ pkt_buffer_size
    → Holds (filled pkt n s.current_index s) (q ++ packet_slot pkt n ∷ [])
filled-Holds pkt n s q v room fits = record {
  ring =
      subst (λ m. IsRing m (filled pkt n s.current_index s)) (sym (length-snoc q _))
        (filled-IsRing pkt n (length q) s v.ring room fits);
  contents = rw (length-snoc q (packet_slot pkt n)) (
      window-filled pkt n (length q) s v.ring room fits
      ∙ ap (λ w. w ++ packet_slot pkt n ∷ []) v.contents);
}

-- The state after the search: the packet is in the slot at `current_index`, or counted as lost.
abbrev after_find : SkBuff → ℕ → List Bytes → Km → Km
after_find pkt n q s = if ltb (length q) max_pkt then filled pkt n s.current_index s else dropped s

module _ (pkt : SkBuff) (n : ℕ) (s : Km) (q : List Bytes) (v : Holds s q) (hp : HasPayload n pkt)
    (fits : n ≤ pkt_buffer_size) where
  pub find_slot_lem :
      find_slot pkt km_find_buff_slot_max_try s.current_index s ≡ some (after_find pkt n q s)
  find_slot_lem = elim (Bool-cases (ltb (length q) max_pkt)) [
    | inl room ↦ rw room (
        find_slot_free pkt 199 s.current_index s (
          subst (λ i. s.status i ≡ 0) (omega (arith, v.ring.index_in))
            (v.ring.free 0 (omega (arith, ltb→lt _ _ room))))
        ∙ fill_slot_lem pkt n s.current_index s hp (omega (arith, v.ring.index_in)))
    | inr full ↦ rw full (
        find_slot_full pkt 199 s.current_index s v.ring.index_in
          (λ k h. v.ring.used k (ground arith) (omega arith)))
  ]

  after_find-Holds : Holds (after_find pkt n q s) (enqueue q (packet_slot pkt n))
  after_find-Holds = elim (Bool-cases (ltb (length q) max_pkt)) [
    | inl room ↦ rw room (filled-Holds pkt n s q v (ltb→lt _ _ room) fits)
    | inr full ↦ rw full (
        Holds-frame s q s.buff_temp s.count_pkt ((s.count_pkt_overflow + 1) % 2 ^ 64) s.log_buffs v)
  ]

abbrev pub packet_uid : SkBuff → ℕ
packet_uid pkt = le64 pkt.linear.bytes (pkt.pkt_data + 28 + 8)

-- The state that the search starts from.
abbrev pub counted : SkBuff → ℕ → Km → Km
counted pkt now s = record s {
  count_pkt = (s.count_pkt + 1) % 2 ^ 64;
  log_buffs = log_after s.log_buffs (packet_uid pkt) now;
}

pub take_packet_lem :
    (pkt : SkBuff) (now : ℕ) (s : Km)
    → pkt.pkt_data + 28 + 16 ≤ pkt.linear.size
    → take_packet pkt now s
      ≡ find_slot pkt km_find_buff_slot_max_try s.current_index (counted pkt now s)
unfolding take_packet
take_packet_lem pkt now s h = rw (le→leb _ _ h, log_store-after s.log_buffs (packet_uid pkt) now)

-- A packet of another program passes with no trace.
pub rxh_packet_in-pass :
    (pkt : SkBuff) (now : ℕ) (s : Km)
    → is_for_us pkt ≡ some false
    → rxh_packet_in pkt now s ≡ some s
unfolding rxh_packet_in
rxh_packet_in-pass pkt now s h = rw h

-- A packet that the module takes is IPv4 and UDP to port 8080. If its payload of `n` bytes fits a slot, it is
-- handled with no access out of bounds. The packet joins the cache's queue as its newest entry if the cache has room, and is
-- counted as lost if not. Its uid's log entry gets the time, and every other entry below
-- `MAX_LOG_ENTRY` stays.
pub rxh_packet_in-Holds :
    (pkt : SkBuff) (n now : ℕ) (s : Km) (q : List Bytes)
    → Holds s q
    → HasPayload n pkt
    → n ≤ pkt_buffer_size
    → is_for_us pkt ≡ some true
    → (s' : Km) × (rxh_packet_in pkt now s ≡ some s')
      × Holds s' (enqueue q (packet_slot pkt n))
      × ((i : ℕ)
          → i < max_log_entry
          → entry s'.log_buffs i ≡ (if i == packet_uid pkt then now else entry s.log_buffs i))
      × (s'.count_pkt_overflow ≡ (
          if ltb (length q) max_pkt
          then s.count_pkt_overflow
          else (s.count_pkt_overflow + 1) % 2 ^ 64))
      × IsUdp8080 pkt
unfolding rxh_packet_in
rxh_packet_in-Holds pkt n now s q v hp fits ours =
    let v' =
      Holds-frame s q s.buff_temp ((s.count_pkt + 1) % 2 ^ 64) s.count_pkt_overflow
        (log_after s.log_buffs (packet_uid pkt) now) v in
    (
      after_find pkt n q (counted pkt now s),
      rw ours (
          take_packet_lem pkt now s hp.uid_there
          ∙ find_slot_lem pkt n (counted pkt now s) q v' hp fits),
      after_find-Holds pkt n (counted pkt now s) q v' hp fits,
      λ i h. ground (arith, entry-log_after s.log_buffs (packet_uid pkt) now i h),
      ground arith,
      is_for_us-IsUdp8080 pkt ours,
    )
