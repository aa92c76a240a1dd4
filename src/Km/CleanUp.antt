-- ===== src/Km/CleanUp.antt =====
-- The clean-up of `read`: a run of slots is zeroed and marked free, and the others stay.
use thesis_b_cs_tu_berlin.Prelude.{
  ℕ, zero, suc, ◌+◌, ◌-◌, ◌*◌, ◌%◌, ◌≤◌, ◌<◌, ltb, ◌==◌, if◌then◌else◌, ◌≡◌, refl, ◌∙◌, Bool, ◌||◌,
  List, [], ◌∷◌, arith,
}
use thesis_b_cs_tu_berlin.Params.{pkt_buffer_size, max_pkt}
use thesis_b_cs_tu_berlin.Memory.{Bytes, mem_zero}
use thesis_b_cs_tu_berlin.Km.{Km, update, clean_up}
use thesis_b_cs_tu_berlin.Km.Window.{indices}

-- Is slot `i` one of the `t` from slot `h` on?
abbrev pub inside : ℕ → ℕ → ℕ → Bool
inside h t i = ltb ((i + max_pkt - h) % max_pkt) t

-- The state after the clean-up of one slot.
abbrev pub cleaned : ℕ → Km → Km
cleaned i s = record s {
  buff_from_here = mem_zero s.buff_from_here (i * pkt_buffer_size) pkt_buffer_size;
  status = update s.status i 0;
}

inside-suc :
    (h t i : ℕ)
    → h < max_pkt
    → i < max_pkt
    → t < max_pkt
    → inside h (suc t) i ≡ (i == h || inside ((h + 1) % max_pkt) t i)
inside-suc h t i hh hi ht = ground arith

pub zero_at :
    (b : Bytes) (h i j : ℕ)
    → j < pkt_buffer_size
    → mem_zero b (h * pkt_buffer_size) pkt_buffer_size (i * pkt_buffer_size + j)
      ≡ (if i == h then 0 else b (i * pkt_buffer_size + j))
unfolding mem_zero
zero_at b h i j hj = ground arith

pub clean_up-status :
    (t h i : ℕ) (s : Km)
    → h < max_pkt
    → i < max_pkt
    → t ≤ max_pkt
    → (clean_up (indices h t) s).status i ≡ (if inside h t i then 0 else s.status i)
unfolding clean_up indices
clean_up-status zero h i s hh hi ht = ground arith
clean_up-status (suc t) h i s hh hi ht =
    clean_up-status t ((h + 1) % max_pkt) i (cleaned h s) (omega arith) hi (omega arith)
    ∙ ground (arith, inside-suc h t i)

pub clean_up-buff :
    (t h i j : ℕ) (s : Km)
    → h < max_pkt
    → i < max_pkt
    → t ≤ max_pkt
    → j < pkt_buffer_size
    → (clean_up (indices h t) s).buff_from_here (i * pkt_buffer_size + j)
      ≡ (if inside h t i then 0 else s.buff_from_here (i * pkt_buffer_size + j))
unfolding clean_up indices
clean_up-buff zero h i j s hh hi ht hj = ground arith
clean_up-buff (suc t) h i j s hh hi ht hj =
    clean_up-buff t ((h + 1) % max_pkt) i j (cleaned h s) (omega arith) hi (omega arith) hj
    ∙ ground (arith, inside-suc h t i, zero_at s.buff_from_here h i j)

pub clean_up-index : (is : List ℕ) (s : Km) → (clean_up is s).current_index ≡ s.current_index
unfolding clean_up
clean_up-index [] s = refl
clean_up-index (i ∷ is) s = clean_up-index is (cleaned i s)

-- The counters and the log stay too.
pub clean_up-others :
    (is : List ℕ) (s : Km)
    → ((clean_up is s).log_buffs ≡ s.log_buffs)
      × ((clean_up is s).count_pkt ≡ s.count_pkt)
      × ((clean_up is s).count_pkt_overflow ≡ s.count_pkt_overflow)
unfolding clean_up
clean_up-others [] s = (refl, refl, refl)
clean_up-others (i ∷ is) s = clean_up-others is (cleaned i s)
