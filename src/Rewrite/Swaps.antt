-- ===== src/Rewrite/Swaps.antt =====
-- What the address swaps do.
use thesis_b_cs_tu_berlin.Prelude.{ℕ, ◌+◌, ◌-◌, ◌≤◌, ◌<◌, ◌≡◌, ap, ◌⊎◌, inl, inr, arith}
use thesis_b_cs_tu_berlin.Memory.{Bytes, mem_copy}
use thesis_b_cs_tu_berlin.Rewrite.{
  swap_fields, swap_src_dst_mac, swap_src_dst_ipv6, swap_src_dst_ipv4,
}

-- `m'` is `m` with the `n` bytes at `a` and the `n` bytes at `b` exchanged.
pub record IsSwap (a b n : ℕ) (m m' : Bytes) : Type 0 where
  pub first_moved : (i : ℕ) → i < n → m' (b + i) ≡ m (a + i)
  pub second_moved : (i : ℕ) → i < n → m' (a + i) ≡ m (b + i)
  pub others_kept : (c : ℕ) → (c < a) ⊎ (a + n ≤ c) → (c < b) ⊎ (b + n ≤ c) → m' c ≡ m c

swap_fields-IsSwap :
    (src dst n : ℕ) (m : Bytes)
    → (src + n ≤ dst) ⊎ (dst + n ≤ src)
    → IsSwap src dst n m (swap_fields src dst n m)
unfolding mem_copy
swap_fields-IsSwap src dst n m apart = record {
  first_moved = λ i h. ground (arith, ap m {x = src + (dst + i - dst)} {y = src + i} (omega arith));
  second_moved =
      λ i h. ground (arith, ap m {x = dst + (src + i - src)} {y = dst + i} (omega arith));
  others_kept = λ c ha hb. ground arith;
}

-- Each of the three swaps exchanges the two addresses of its header, wherever the header starts, and
-- keeps every other byte.
pub swaps_lem :
    (at : ℕ) (m : Bytes)
    → IsSwap (at + 6) at 6 m (swap_src_dst_mac at m)
      × IsSwap (at + 8) (at + 24) 16 m (swap_src_dst_ipv6 at m)
      × IsSwap (at + 12) (at + 16) 4 m (swap_src_dst_ipv4 at m)
unfolding swap_src_dst_mac swap_src_dst_ipv6 swap_src_dst_ipv4
swaps_lem at m = (
  swap_fields-IsSwap (at + 6) at 6 m (inr (omega arith)),
  swap_fields-IsSwap (at + 8) (at + 24) 16 m (inl (omega arith)),
  swap_fields-IsSwap (at + 12) (at + 16) 4 m (inl (omega arith)),
)
