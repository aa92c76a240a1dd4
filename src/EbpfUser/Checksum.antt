-- ===== src/EbpfUser/Checksum.antt =====
-- `csum16_add`, `csum16_sub` and `csum_replace2`: sums of 16-bit words with the carry added back in.
use thesis_b_cs_tu_berlin.Prelude.{ℕ, ◌+◌, ◌-◌, ◌%◌, ◌^◌, ◌<◌, ltb, if◌then◌else◌, ◌≡◌, arith}

abbrev pub u16_mod : ℕ
u16_mod = 2 ^ 16

-- `~x` in 16 bits.
abbrev pub not16 : ℕ → ℕ
not16 x = u16_mod - 1 - x

unfoldable pub csum16_add : ℕ → ℕ → ℕ
csum16_add csum addend =
    let res = (csum + addend) % u16_mod in (res + (if ltb res addend then 1 else 0)) % u16_mod

unfoldable pub csum16_sub : ℕ → ℕ → ℕ
csum16_sub csum addend = csum16_add csum (not16 addend)

-- The new value of `*sum`.
unfoldable pub csum_replace2 : ℕ → ℕ → ℕ → ℕ
csum_replace2 sum old new = not16 (csum16_add (csum16_sub (not16 sum) old) new)

-- The sum of 16-bit words is their sum modulo 2^16 - 1, and fits in 16 bits.
pub csum16_add_lem :
    (a b : ℕ)
    → a < u16_mod
    → b < u16_mod
    → (csum16_add a b < u16_mod) × (csum16_add a b % 65535 ≡ (a + b) % 65535)
unfolding csum16_add
csum16_add_lem a b ha hb = ground arith

-- Replacing the word `old` by `new` keeps a checksum right: if the complement of `sum` is the
-- one's-complement sum of `old` and the other words, whose sum is `rest`, then the complement of the
-- new checksum is that of `new` and the other words.
pub csum_replace2_lem :
    (sum old new rest : ℕ)
    → sum < u16_mod
    → old < u16_mod
    → new < u16_mod
    → not16 sum % 65535 ≡ (old + rest) % 65535
    → (csum_replace2 sum old new < u16_mod)
      × (not16 (csum_replace2 sum old new) % 65535 ≡ (new + rest) % 65535)
unfolding csum_replace2 csum16_sub
csum_replace2_lem sum old new rest hs ho hn h =
    let removed = csum16_add_lem (not16 sum) (not16 old) (omega arith) (omega arith) in
    let replaced = csum16_add_lem (csum16_add (not16 sum) (not16 old)) new removed.0 hn in
    (omega arith, omega (arith, removed.0, removed.1, replaced.0, replaced.1))
