-- ===== src/Memory.antt =====
-- The memory that the C programs move bytes through: arrays by offset, packets with an end, and the
-- fixed-width reads of a little-endian machine.
pub mod Words
use thesis_b_cs_tu_berlin.Prelude.{
  ℕ, Bool, true, false, List, [], ◌∷◌, ◌==◌, ◌+◌, ◌-◌, ◌*◌, ◌/◌, ◌%◌, ◌^◌, ◌&&◌, Option, none, some,
  ltb, leb, if◌then◌else◌, ◌≡◌, refl, ap₂, arith,
}

-- A byte array: the byte at each offset. Its size is kept by whoever owns it.
abbrev pub Bytes : Type 0
Bytes = ℕ → ℕ

abbrev pub zeros : Bytes
zeros a = 0

-- `memcpy(dst + off, src, n)`
unfoldable pub mem_copy : Bytes → ℕ → Bytes → ℕ → Bytes
mem_copy dst off src n a = if leb off a && ltb a (off + n) then src (a - off) else dst a

-- `memset(dst + off, '\0', n)`
unfoldable pub mem_zero : Bytes → ℕ → ℕ → Bytes
mem_zero dst off n a = if leb off a && ltb a (off + n) then 0 else dst a

-- The array that starts `off` bytes further on.
abbrev pub shift : Bytes → ℕ → Bytes
shift m off a = m (off + a)

-- The value of a run of statements; `none` is an access outside the memory that the program owns.
infixl 5 ◌>>=◌
abbrev pub ◌>>=◌ {ℓ κ} : {A : Type ℓ} {B : Type κ} → Option A → (A → Option B) → Option B
none >>= f = none
some a >>= f = f a

-- `strcmp(a, b) == 0`, for strings without their closing zero.
abbrev pub strcmp_is_0 : List ℕ → List ℕ → Bool
strcmp_is_0 [] [] = true
strcmp_is_0 [] (c ∷ b) = false
strcmp_is_0 (c ∷ a) [] = false
strcmp_is_0 (c ∷ a) (d ∷ b) = c == d && strcmp_is_0 a b

pub strcmp_is_0-true : (a b : List ℕ) → strcmp_is_0 a b ≡ true → a ≡ b
strcmp_is_0-true [] [] e = refl
strcmp_is_0-true [] (d ∷ b) e = cc
strcmp_is_0-true (c ∷ a) [] e = cc
strcmp_is_0-true (c ∷ a) (d ∷ b) e =
    ap₂ (λ x xs. x ∷ xs) {x = c} {y = d} (ground (arith, e))
      (strcmp_is_0-true a b (ground (arith, e)))

-- Bytes between `data` and `data_end`: offset 0 is the first, `size` is one past the last.
pub record Packet : Type 0 where
  pub bytes : Bytes
  pub size : ℕ

-- `*(__u8 *)(data + a)`
unfoldable pub load8 : Packet → ℕ → Option ℕ
load8 p a = if ltb a p.size then some (p.bytes a) else none

-- `*(__u16 *)(data + a)`
unfoldable pub load16 : Packet → ℕ → Option ℕ
load16 p a = if leb (a + 2) p.size then some (p.bytes a + 256 * p.bytes (a + 1)) else none

-- `*(unsigned long *)(m + a)`
unfoldable pub le64 : Bytes → ℕ → ℕ
le64 m a =
    m a
    + 2 ^ 8 * m (a + 1)
    + 2 ^ 16 * m (a + 2)
    + 2 ^ 24 * m (a + 3)
    + 2 ^ 32 * m (a + 4)
    + 2 ^ 40 * m (a + 5)
    + 2 ^ 48 * m (a + 6)
    + 2 ^ 56 * m (a + 7)

-- Byte `i` of an `unsigned long`, the lowest first.
abbrev pub byte64 : ℕ → ℕ → ℕ
byte64 x i = x / 2 ^ (8 * i) % 2 ^ 8

-- `ntohs`, `htons` and their BPF forms on a little-endian machine.
unfoldable pub bswap16 : ℕ → ℕ
bswap16 x = x % 256 * 256 + x / 256 % 256
