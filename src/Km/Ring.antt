-- ===== src/Km/Ring.antt =====
-- The cache as a ring: which slots are in use, and what the cache then holds.
use thesis_b_cs_tu_berlin.Prelude.{ℕ, ◌+◌, ◌-◌, ◌*◌, ◌%◌, ◌≤◌, ◌<◌, length, ◌≡◌, List}
use thesis_b_cs_tu_berlin.Params.{pkt_buffer_size, max_pkt}
use thesis_b_cs_tu_berlin.Memory.{Bytes}
use thesis_b_cs_tu_berlin.Km.{Km}
use thesis_b_cs_tu_berlin.Km.Window.{window}

-- `n` slots are in use: those just before `current_index`. The others are marked free and are zero.
pub record IsRing (n : ℕ) (s : Km) : Type 0 where
  pub index_in : s.current_index < max_pkt
  pub held_le : n ≤ max_pkt
  pub free : (k : ℕ) → k < max_pkt - n → s.status ((s.current_index + k) % max_pkt) ≡ 0
  pub used :
      (k : ℕ) → max_pkt - n ≤ k → k < max_pkt → s.status ((s.current_index + k) % max_pkt) ≡ 1
  pub clean :
      (k j : ℕ)
      → k < max_pkt - n
      → j < pkt_buffer_size
      → s.buff_from_here ((s.current_index + k) % max_pkt * pkt_buffer_size + j) ≡ 0

-- The slot that has been in use for longest.
abbrev pub oldest : ℕ → Km → ℕ
oldest n s = (s.current_index + (max_pkt - n)) % max_pkt

-- The state holds the packets of `q`, the oldest first.
pub record Holds (s : Km) (q : List Bytes) : Type 0 where
  pub ring : IsRing (length q) s
  pub contents : window s.buff_from_here (oldest (length q) s) (length q) ≡ q
