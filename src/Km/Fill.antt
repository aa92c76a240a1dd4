-- ===== src/Km/Fill.antt =====
-- Filling a slot: the new packet joins the ring as its newest, and the others stay.
use thesis_b_cs_tu_berlin.Prelude.{
  ℕ, suc, ◌+◌, ◌-◌, ◌*◌, ◌%◌, ◌≤◌, ◌<◌, ltb, if◌then◌else◌, ◌≡◌, sym, ap, ap₂, subst, fun_ext, ◌∙◌,
  ◌≢◌, [], ◌∷◌, ◌++◌, arith,
}
use native.Mathlib.Decide.{dec_lt}
use thesis_b_cs_tu_berlin.Params.{pkt_buffer_size, max_pkt}
use thesis_b_cs_tu_berlin.Memory.{Bytes, mem_copy, shift}
use thesis_b_cs_tu_berlin.Km.{Km, SkBuff, update}
use thesis_b_cs_tu_berlin.Km.Window.{slot_of, window, window_frame, window_snoc, SameSlot, mod_step}
use thesis_b_cs_tu_berlin.Km.Ring.{IsRing, oldest}

-- The state that a packet of `n` payload bytes leaves in slot `w`.
abbrev pub filled : SkBuff → ℕ → ℕ → Km → Km
filled pkt n w s = record s {
  buff_from_here =
      mem_copy s.buff_from_here (w * pkt_buffer_size) (shift pkt.linear.bytes (pkt.pkt_data + 28))
        n;
  status = update s.status w 1;
  current_index = (w + 1) % max_pkt;
}

-- The packet as it stands in a slot: `n` payload bytes, and 0 up to the slot's end.
abbrev pub packet_slot : SkBuff → ℕ → Bytes
packet_slot pkt n j = if ltb j n then pkt.linear.bytes (pkt.pkt_data + 28 + j) else 0

update_ne : (f : ℕ → ℕ) (c v i x : ℕ) → i ≢ c → f i ≡ x → update f c v i ≡ x
update_ne f c v i x h e = ground arith

pub copy_other :
    (b src : Bytes) (c n : ℕ) {i : ℕ}
    → n ≤ pkt_buffer_size
    → i ≢ c
    → SameSlot b (mem_copy b (c * pkt_buffer_size) src n) i
unfolding mem_copy
copy_other b src c n {i} hn ne j hj = ground arith

later_ne : (c k : ℕ) → c < max_pkt → k < max_pkt - 1 → (c + suc k) % max_pkt ≢ c
later_ne c k hc hk = omega arith

last_is_self : (c k : ℕ) → c < max_pkt → suc k ≡ max_pkt → (c + suc k) % max_pkt ≡ c
last_is_self c k hc hk = omega arith

-- The new packet is in its slot, padded with zeros.
pub filled-slot :
    (pkt : SkBuff) (n w : ℕ) (s : Km)
    → n ≤ pkt_buffer_size
    → ((j : ℕ) → j < pkt_buffer_size → s.buff_from_here (w * pkt_buffer_size + j) ≡ 0)
    → slot_of (filled pkt n w s).buff_from_here w ≡ packet_slot pkt n
unfolding mem_copy
filled-slot pkt n w s fits clean =
    fun_ext λ j. ground (arith, clean j, ap pkt.linear.bytes (cancel j))
  where
    cancel :
        (j : ℕ)
        → pkt.pkt_data + 28 + (w * pkt_buffer_size + j - w * pkt_buffer_size)
          ≡ pkt.pkt_data + 28 + j
    cancel j = omega arith

module _ (pkt : SkBuff) (n held : ℕ) (s : Km) (r : IsRing held s) (room : held < max_pkt)
    (fits : n ≤ pkt_buffer_size) where
  filled-free :
      (k : ℕ)
      → k < max_pkt - suc held
      → update s.status s.current_index 1 ((s.current_index + suc k) % max_pkt) ≡ 0
  filled-free k h =
      update_ne s.status s.current_index 1 _ 0 (later_ne s.current_index k r.index_in (omega arith))
        (r.free (suc k) (omega arith))

  filled-used :
      (k : ℕ)
      → max_pkt - suc held ≤ k
      → k < max_pkt
      → update s.status s.current_index 1 ((s.current_index + suc k) % max_pkt) ≡ 1
  filled-used k h h' = elim (dec_lt (suc k) max_pkt) [
    | yes p ↦
        update_ne s.status s.current_index 1 _ 1
          (later_ne s.current_index k r.index_in (omega arith)) (r.used (suc k) (omega arith) p)
    | no p ↦ rw (last_is_self s.current_index k r.index_in (omega arith)) (ground arith)
  ]

  pub filled-IsRing : IsRing (suc held) (filled pkt n s.current_index s)
  filled-IsRing = record {
    index_in = omega arith;
    held_le = omega arith;
    free = λ k h. rw (mod_step s.current_index k) (filled-free k h);
    used = λ k h h'. rw (mod_step s.current_index k) (filled-used k h h');
    clean = λ k j h h'. rw (mod_step s.current_index k) (
        sym (
          copy_other s.buff_from_here (shift pkt.linear.bytes (pkt.pkt_data + 28)) s.current_index n
            fits (later_ne s.current_index k r.index_in (omega arith)) j h')
        ∙ r.clean (suc k) j (omega arith) h');
  }

  filled_slot :
      slot_of (filled pkt n s.current_index s).buff_from_here s.current_index ≡ packet_slot pkt n
  filled_slot = filled-slot pkt n s.current_index s fits λ j h.
      subst (λ i. s.buff_from_here (i * pkt_buffer_size + j) ≡ 0) (omega (arith, r.index_in))
        (r.clean 0 j (omega arith) h)

  oldest-filled : oldest (suc held) (filled pkt n s.current_index s) ≡ oldest held s
  oldest-filled = omega (arith, r.index_in)

  after_newest : (oldest held s + held) % max_pkt ≡ s.current_index
  after_newest = omega (arith, r.index_in)

  used_ne : (k : ℕ) → k < held → (oldest held s + k) % max_pkt ≢ s.current_index
  used_ne k h = omega (arith, r.index_in)

  pub window-filled :
      window
        (filled pkt n s.current_index s).buff_from_here
        (oldest (suc held) (filled pkt n s.current_index s))
        (suc held)
      ≡ window s.buff_from_here (oldest held s) held ++ packet_slot pkt n ∷ []
  window-filled = rw oldest-filled (
      window_snoc after (oldest held s) held (omega arith)
      ∙ ap₂ (λ w p. w ++ p ∷ [])
          (sym (
            window_frame s.buff_from_here after (oldest held s) held (omega arith)
              (λ k h. copy_other s.buff_from_here _ s.current_index n fits (used_ne k h))))
          (ap (slot_of after) after_newest ∙ filled_slot))
    where
      after : Bytes
      after = (filled pkt n s.current_index s).buff_from_here
