-- ===== src/Km/Deliver.antt =====
-- `read` on the ring.
use thesis_b_cs_tu_berlin.Prelude.{
  ℕ, ◌+◌, ◌-◌, ◌*◌, ◌%◌, ◌≤◌, ◌<◌, min, length, drop, get_or, length-drop, drop-min, ltb, leb,
  if◌then◌else◌, Bool-cases, ◌≡◌, refl, sym, ap, subst, fun_ext, ◌∙◌, inl, inr, Bool, true, false,
  ◌&&◌, ◌||◌, none, some, List, [], arith,
}
use thesis_b_cs_tu_berlin.Params.{pkt_buffer_size, max_pkt, pkts_per_buffer, buffer_size}
use thesis_b_cs_tu_berlin.Memory.{Bytes, zeros, mem_zero}
use thesis_b_cs_tu_berlin.Km.{Km, Gathered, gather, clean_up, read}
use thesis_b_cs_tu_berlin.Km.Window.{
  slot_of, window, indices, window_frame, drop-window, get_or-window, SameSlot,
}
use thesis_b_cs_tu_berlin.Km.Ring.{IsRing, oldest, Holds}
use thesis_b_cs_tu_berlin.Km.Receive.{Holds-frame}
use thesis_b_cs_tu_berlin.Km.Gather.{newly, gather_free, gather_copied, gather_temp}
use thesis_b_cs_tu_berlin.Km.CleanUp.{inside, clean_up-status, clean_up-buff, clean_up-index}

abbrev pub first : Km → Gathered
first s = record { temp = mem_zero s.buff_temp 0 buffer_size; copied_index = [] }

zeroed :
    (b : Bytes) (k j : ℕ)
    → k < pkts_per_buffer
    → j < pkt_buffer_size
    → mem_zero b 0 buffer_size (k * pkt_buffer_size + j) ≡ 0
unfolding mem_zero
zeroed b k j hk hj = ground arith

module _ (held : ℕ) (s : Km) (r : IsRing held s) where
  used_run : (i : ℕ) → i < held → s.status ((oldest held s + i) % max_pkt) ≡ 1
  used_run i h =
      subst (λ k. s.status k ≡ 1) (omega (arith, r.held_le, r.index_in))
        (r.used (max_pkt - held + i) (omega arith) (omega (arith, r.held_le)))

  gathered : gather s max_pkt s.current_index (first s) ≡ gather s held (oldest held s) (first s)
  gathered =
      gather_free s (max_pkt - held) held max_pkt s.current_index (first s)
        (omega (arith, r.held_le)) r.index_in (omega arith) r.free

  pub gathered_copied :
      (gather s max_pkt s.current_index (first s)).copied_index
      ≡ indices (oldest held s) (min held pkts_per_buffer)
  gathered_copied =
      rw gathered (gather_copied s held (oldest held s) (first s) (omega arith) used_run)

  pub gathered_temp :
      (k : ℕ)
      → k < pkts_per_buffer
      → slot_of (gather s max_pkt s.current_index (first s)).temp k
        ≡ (if ltb k held then slot_of s.buff_from_here ((oldest held s + k) % max_pkt) else zeros)
  gathered_temp k hk = rw gathered (fun_ext λ j. ground (arith, filled j, blank j, same j))
    where
      filled :
          (j : ℕ)
          → j < pkt_buffer_size
          → (gather s held (oldest held s) (first s)).temp (k * pkt_buffer_size + j) ≡ (
              if newly 0 held k
              then s.buff_from_here ((oldest held s + (k - 0)) % max_pkt * pkt_buffer_size + j)
              else (first s).temp (k * pkt_buffer_size + j))
      filled j hj = gather_temp s held (oldest held s) (first s) k j (omega arith) hj used_run

      blank : (j : ℕ) → j < pkt_buffer_size → (first s).temp (k * pkt_buffer_size + j) ≡ 0
      blank j hj = zeroed s.buff_temp k j hk hj

      same :
          (j : ℕ)
          → s.buff_from_here ((oldest held s + (k - 0)) % max_pkt * pkt_buffer_size + j)
            ≡ s.buff_from_here ((oldest held s + k) % max_pkt * pkt_buffer_size + j)
      same j = ap s.buff_from_here (omega arith)

module _ (held t : ℕ) (s : Km) (r : IsRing held s) (ht : t ≤ held) where
  abbrev rest : Km
  rest = clean_up (indices (oldest held s) t) s

  cleaned_run :
      (k : ℕ)
      → k < max_pkt
      → inside (oldest held s) t ((s.current_index + k) % max_pkt)
        ≡ (leb (max_pkt - held) k && ltb k (max_pkt - held + t))
  cleaned_run k hk = ground (arith, r.index_in, r.held_le)

  cleaned-status :
      (k : ℕ)
      → k < max_pkt
      → rest.status ((s.current_index + k) % max_pkt) ≡ (
          if leb (max_pkt - held) k && ltb k (max_pkt - held + t)
          then 0
          else s.status ((s.current_index + k) % max_pkt))
  cleaned-status k hk =
      clean_up-status t (oldest held s) ((s.current_index + k) % max_pkt) s (omega arith)
        (omega arith) (omega (arith, r.held_le))
      ∙ rw (cleaned_run k hk)

  cleaned-buff :
      (k j : ℕ)
      → k < max_pkt
      → j < pkt_buffer_size
      → rest.buff_from_here ((s.current_index + k) % max_pkt * pkt_buffer_size + j) ≡ (
          if leb (max_pkt - held) k && ltb k (max_pkt - held + t)
          then 0
          else s.buff_from_here ((s.current_index + k) % max_pkt * pkt_buffer_size + j))
  cleaned-buff k j hk hj =
      clean_up-buff t (oldest held s) ((s.current_index + k) % max_pkt) j s (omega arith)
        (omega arith) (omega (arith, r.held_le)) hj
      ∙ rw (cleaned_run k hk)

  cleaned-index : rest.current_index ≡ s.current_index
  cleaned-index = clean_up-index (indices (oldest held s) t) s

  pub cleaned-IsRing : IsRing (held - t) rest
  cleaned-IsRing = record {
    index_in = rw cleaned-index r.index_in;
    held_le = omega (arith, r.held_le);
    free = λ k h. rw cleaned-index (ground (arith, cleaned-status k, r.free k));
    used = λ k h h'. rw cleaned-index (ground (arith, cleaned-status k, r.used k));
    clean = λ k j h h'. rw cleaned-index (ground (arith, cleaned-buff k j, r.clean k j));
  }

  cleaned_window :
      window rest.buff_from_here (oldest (held - t) rest) (held - t)
      ≡ drop t (window s.buff_from_here (oldest held s) held)
  cleaned_window = rw oldest_rest (
      window_frame rest.buff_from_here s.buff_from_here ((oldest held s + t) % max_pkt) (held - t)
        (omega arith) kept
      ∙ sym (drop-window s.buff_from_here (oldest held s) held t (omega arith) ht))
    where
      oldest_rest : oldest (held - t) rest ≡ (oldest held s + t) % max_pkt
      oldest_rest = omega (arith, cleaned-index, r.held_le, r.index_in)

      kept :
          (k : ℕ)
          → k < held - t
          → SameSlot rest.buff_from_here s.buff_from_here
              (((oldest held s + t) % max_pkt + k) % max_pkt)
      kept k h =
          subst (SameSlot rest.buff_from_here s.buff_from_here)
            {x = (s.current_index + (max_pkt - held + t + k)) % max_pkt}
            {y = ((oldest held s + t) % max_pkt + k) % max_pkt}
            (omega (arith, r.held_le, r.index_in))
            (λ j hj. ground (arith, r.held_le, cleaned-buff (max_pkt - held + t + k) j))

pub cleaned-Holds :
    (s : Km) (q : List Bytes)
    → Holds s q
    → Holds
        (clean_up (indices (oldest (length q) s) (min (length q) pkts_per_buffer)) s)
        (drop pkts_per_buffer q)
cleaned-Holds s q v = record {
  ring =
      subst (λ m. IsRing m after) left
        (cleaned-IsRing (length q) (min (length q) pkts_per_buffer) s v.ring (omega arith));
  contents = rw (← left) (
      cleaned_window (length q) (min (length q) pkts_per_buffer) s v.ring (omega arith)
      ∙ ap (drop (min (length q) pkts_per_buffer)) v.contents
      ∙ drop-min pkts_per_buffer q);
}
  where
    after : Km
    after = clean_up (indices (oldest (length q) s) (min (length q) pkts_per_buffer)) s

    left : length q - min (length q) pkts_per_buffer ≡ length (drop pkts_per_buffer q)
    left = omega (arith, length-drop pkts_per_buffer q)

-- The slots of `buff_temp` after the search.
pub gathered_slots :
    (s : Km) (q : List Bytes)
    → Holds s q
    → (k : ℕ) → k < pkts_per_buffer
    → slot_of (gather s max_pkt s.current_index (first s)).temp k ≡ get_or q k zeros
gathered_slots s q v k hk =
    gathered_temp (length q) s v.ring k hk
    ∙ sym (get_or-window s.buff_from_here zeros (oldest (length q) s) (length q) k (omega arith))
    ∙ ap (λ w. get_or w k zeros) v.contents

-- `read` after a successful `copy_to_user` hands out the oldest packets of the queue, as many as fit
-- its buffer, in order, one to a slot, with the slots past them zero. They leave the queue, and the
-- other packets stay in order. The clean-up keeps the ring in shape.
pub read-Holds :
    (off : ℕ) (s : Km) (q : List Bytes)
    → Holds s q
    → off < buffer_size
    → (t : Bytes) × ((read off false s).0 ≡ record { ret = buffer_size; delivered = some t })
      × ((k : ℕ) → k < pkts_per_buffer → slot_of t k ≡ get_or q k zeros)
      × Holds (read off false s).1 (drop pkts_per_buffer q)
unfolding read
read-Holds off s q v h =
    let filled : Km = record s { buff_temp = (gather s max_pkt s.current_index (first s)).temp } in
    let v' = Holds-frame s q filled.buff_temp s.count_pkt s.count_pkt_overflow s.log_buffs v in
    let near : leb buffer_size off ≡ false = ground arith in
    rw near (
      (gather s max_pkt s.current_index (first s)).temp,
      refl,
      gathered_slots s q v,
      rw (gathered_copied (length q) s v.ring) (cleaned-Holds filled q v'),
    )

-- `read` past the buffer's size, or with a `copy_to_user` that fails, hands out nothing and keeps the
-- queue. It returns `BUFFER_SIZE` all the same.
pub read_fails-Holds :
    (off : ℕ) (fails : Bool) (s : Km) (q : List Bytes)
    → Holds s q
    → (leb buffer_size off || fails) ≡ true
    → ((read off fails s).0 ≡ record { ret = buffer_size; delivered = none })
      × Holds (read off fails s).1 q
unfolding read
read_fails-Holds off fails s q v h = elim (Bool-cases (leb buffer_size off)) [
  | inl far ↦ rw far (refl, v)
  | inr near ↦
      let failed : fails ≡ true = ground arith in
      rw (near, failed) (refl, Holds-frame s q _ s.count_pkt s.count_pkt_overflow s.log_buffs v)
]
