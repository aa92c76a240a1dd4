-- ===== src/Km/Readers.antt =====
-- mymodule/kernel_module/intercept-module.c: two runs of `read` at once, each of which searches the cache
-- before either cleans it up.
use thesis_b_cs_tu_berlin.Prelude.{
  ℕ, ◌+◌, ◌*◌, ◌≤◌, ◌<◌, min, length, drop, get_or, leb, if◌then◌else◌, ◌≡◌, refl, ◌∙◌, Bool, false,
  none, some, List, [], ◌∷◌, arith,
}
use thesis_b_cs_tu_berlin.Params.{pkt_buffer_size, max_pkt, buffer_size, pkts_per_buffer}
use thesis_b_cs_tu_berlin.Memory.{Bytes, zeros, mem_zero}
use thesis_b_cs_tu_berlin.Km.{Km, update, ReadReply, gather, clean_up, read}
use thesis_b_cs_tu_berlin.Km.Window.{slot_of, window_frame, indices, SameSlot}
use thesis_b_cs_tu_berlin.Km.Ring.{Holds, oldest}
use thesis_b_cs_tu_berlin.Km.Receive.{Holds-frame}
use thesis_b_cs_tu_berlin.Km.CleanUp.{clean_up-status, clean_up-buff, clean_up-index}
use thesis_b_cs_tu_berlin.Km.Deliver.{first, gathered_copied, gathered_slots, cleaned-Holds}

-- `read` up to its call of `copy_to_user`: the search, which fills `buff_temp`. The list of the copied
-- slots is the caller's own.
unfoldable pub search_cache : Km → List ℕ × Km
search_cache s =
    let g =
      gather s max_pkt s.current_index
        (record { temp = mem_zero s.buff_temp 0 buffer_size; copied_index = [] }) in
    (g.copied_index, record s { buff_temp = g.temp })

-- And from there on: what `buff_temp` holds by now goes to the user, and the copied slots are cleaned up.
unfoldable pub hand_out : Bool → List ℕ → Km → ReadReply × Km
hand_out copy_fails copied_index s =
    if copy_fails
    then (record { ret = buffer_size; delivered = none }, s)
    else (record { ret = buffer_size; delivered = some s.buff_temp }, clean_up copied_index s)

-- One run of `read` is its two halves, one after the other.
pub read-halves :
    (off : ℕ) (fails : Bool) (s : Km)
    → read off fails s ≡ (
        if leb buffer_size off
        then (record { ret = buffer_size; delivered = none }, s)
        else hand_out fails (search_cache s).0 (search_cache s).1)
unfolding read hand_out search_cache
read-halves off fails s = refl

-- Two runs at once, both of which search before either one hands out.
unfoldable pub both_read : Bool → Bool → Km → ReadReply × (ReadReply × Km)
both_read fails₁ fails₂ s =
    let found₁ = search_cache s in
    let found₂ = search_cache found₁.1 in
    let reply₁ = hand_out fails₁ found₁.0 found₂.1 in
    let reply₂ = hand_out fails₂ found₂.0 reply₁.1 in (reply₁.0, reply₂)

module _ (t h : ℕ) (s : Km) (hh : h < max_pkt) (ht : t ≤ max_pkt) where
  abbrev once : Km
  once = clean_up (indices h t) s

  pub again-status : (i : ℕ) → i < max_pkt → (clean_up (indices h t) once).status i ≡ once.status i
  again-status i hi =
      clean_up-status t h i once hh hi ht ∙ ground (arith, clean_up-status t h i s hh hi ht)

  pub again-buff :
      (i j : ℕ)
      → i < max_pkt
      → j < pkt_buffer_size
      → (clean_up (indices h t) once).buff_from_here (i * pkt_buffer_size + j)
        ≡ once.buff_from_here (i * pkt_buffer_size + j)
  again-buff i j hi hj =
      clean_up-buff t h i j once hh hi ht hj ∙ ground (arith, clean_up-buff t h i j s hh hi ht hj)

clean_up-temp : (is : List ℕ) (s : Km) → (clean_up is s).buff_temp ≡ s.buff_temp
unfolding clean_up
clean_up-temp [] s = refl
clean_up-temp (i ∷ is) s = clean_up-temp is (record s {
  buff_from_here = mem_zero s.buff_from_here (i * pkt_buffer_size) pkt_buffer_size;
  status = update s.status i 0;
})

-- A state that agrees on the marks, the slots and the index holds the same packets.
Holds-same :
    (s s' : Km) (q : List Bytes)
    → s'.current_index ≡ s.current_index
    → ((i : ℕ) → i < max_pkt → s'.status i ≡ s.status i)
    → ((i : ℕ) → i < max_pkt → SameSlot s'.buff_from_here s.buff_from_here i)
    → Holds s q
    → Holds s' q
Holds-same s s' q index marks same v = record {
  ring = record {
    index_in = rw index v.ring.index_in;
    held_le = v.ring.held_le;
    free = λ k h. rw index (marks _ (omega arith) ∙ v.ring.free k h);
    used = λ k h h'. rw index (marks _ (omega arith) ∙ v.ring.used k h h');
    clean = λ k j h h'. rw index (same _ (omega arith) j h' ∙ v.ring.clean k j h h');
  };
  contents = rw index (
      window_frame s'.buff_from_here s.buff_from_here (oldest (length q) s) (length q) (omega arith)
        (λ k h. same _ (omega arith))
      ∙ v.contents);
}

-- The state after both searches.
abbrev searched : Km → Km
searched s = record s { buff_temp = (gather s max_pkt s.current_index (first s)).temp }

searched-Holds : (s : Km) (q : List Bytes) → Holds s q → Holds (searched s) q
searched-Holds s q v =
    Holds-frame s q (searched s).buff_temp s.count_pkt s.count_pkt_overflow s.log_buffs v

-- Let two processes read at once, each searching the cache before the other has cleaned it up, and let
-- `copy_to_user` succeed for both. Both get the same bytes, the oldest packets in order, one to a slot, with
-- the slots past them zero, so each of these packets is delivered twice. They leave the queue once.
pub readers_duplicate :
    (s : Km) (q : List Bytes)
    → Holds s q
    → (t : Bytes) × (s' : Km) × (both_read false false s ≡ (
      record { ret = buffer_size; delivered = some t },
      (record { ret = buffer_size; delivered = some t }, s'),
    ))
      × ((k : ℕ) → k < pkts_per_buffer → slot_of t k ≡ get_or q k zeros)
      × Holds s' (drop pkts_per_buffer q)
unfolding both_read search_cache hand_out
readers_duplicate s q v = (
  (searched (searched s)).buff_temp,
  clean_up copied (clean_up copied (searched (searched s))),
  rw
      (
        gathered_copied (length q) s v.ring,
        gathered_copied (length q) (searched s) (searched-Holds s q v).ring,
        clean_up-temp copied (searched (searched s)),
      )
      refl,
  gathered_slots (searched s) q (searched-Holds s q v),
  Holds-same (clean_up copied (searched (searched s))) _ (drop pkts_per_buffer q)
      (clean_up-index copied (clean_up copied (searched (searched s))))
      (again-status taken (oldest (length q) s) (searched (searched s)) (omega arith) (omega arith))
      (λ i h j hj.
        again-buff taken (oldest (length q) s) (searched (searched s)) (omega arith) (omega arith) i
          j h hj)
      (cleaned-Holds (searched (searched s)) q
        (searched-Holds (searched s) q (searched-Holds s q v))),
)
  where
    taken : ℕ
    taken = min (length q) pkts_per_buffer

    copied : List ℕ
    copied = indices (oldest (length q) s) taken
