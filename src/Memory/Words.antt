-- ===== src/Memory/Words.antt =====
-- Laws of the fixed-width reads.
use thesis_b_cs_tu_berlin.Prelude.{ℕ, ◌+◌, ◌*◌, ◌^◌, ◌≤◌, ◌<◌, ◌≡◌, some, arith}
use thesis_b_cs_tu_berlin.Memory.{Packet, load8, load16, byte64, bswap16}

pub load8-some : (p : Packet) (a : ℕ) → a < p.size → load8 p a ≡ some (p.bytes a)
unfolding load8
load8-some p a h = ground arith

pub load16-some :
    (p : Packet) (a : ℕ) → a + 2 ≤ p.size → load16 p a ≡ some (p.bytes a + 256 * p.bytes (a + 1))
unfolding load16
load16-some p a h = ground arith

pub bswap16-lt : (x : ℕ) → bswap16 x < 2 ^ 16
unfolding bswap16
bswap16-lt x = omega arith

pub bswap16_inj : (x y : ℕ) → x < 2 ^ 16 → y < 2 ^ 16 → bswap16 x ≡ bswap16 y → x ≡ y
unfolding bswap16
bswap16_inj x y hx hy e = omega arith

pub bswap16-bswap16 : (x : ℕ) → x < 2 ^ 16 → bswap16 (bswap16 x) ≡ x
unfolding bswap16
bswap16-bswap16 x h = omega arith

-- An `unsigned long` is made up of its eight bytes.
pub digits64 :
    (x : ℕ)
    → x < 2 ^ 64
    → byte64 x 0
        + 2 ^ 8 * byte64 x 1
        + 2 ^ 16 * byte64 x 2
        + 2 ^ 24 * byte64 x 3
        + 2 ^ 32 * byte64 x 4
        + 2 ^ 40 * byte64 x 5
        + 2 ^ 48 * byte64 x 6
        + 2 ^ 56 * byte64 x 7
      ≡ x
digits64 x h = omega arith
