-- ===== src/Km/Interleave/Slots.antt =====
-- Counts over the slots of the cache, of which one changes at a time.
use thesis_b_cs_tu_berlin.Prelude.{
  ℕ, zero, suc, ◌+◌, ◌<◌, ◌==◌, if◌then◌else◌, ◌≡◌, refl, sym, subst, ◌≢◌, Bool, true, false, ◌||◌,
  List, [], ◌∷◌, ◌++◌, arith,
}
use native.Mathlib.Decide.{ℕ_discrete}
use thesis_b_cs_tu_berlin.Memory.{Bytes}
use thesis_b_cs_tu_berlin.Params.{max_pkt}
use thesis_b_cs_tu_berlin.Km.{Km}
use thesis_b_cs_tu_berlin.Km.Window.{slot_of}
use thesis_b_cs_tu_berlin.Km.Interleave.{all_used}

-- How many of a list pass the test?
unfoldable pub count : (Bytes → Bool) → List Bytes → ℕ
count test [] = 0
count test (p ∷ ps) = (if test p then 1 else 0) + count test ps

unfoldable pub total : ℕ → (ℕ → ℕ) → ℕ
total zero f = 0
total (suc n) f = total n f + f n

unfoldable pub mem : ℕ → List ℕ → Bool
mem x [] = false
mem x (y ∷ ys) = x == y || mem x ys

-- Does slot `i` hold a packet that passes the test and that is not yet out to the user?
abbrev pub weight : (Bytes → Bool) → List ℕ → (ℕ → ℕ) → Bytes → ℕ → ℕ
weight test out status buff i =
    if status i == 0 then 0 else (if mem i out then 0 else (if test (slot_of buff i) then 1 else 0))

-- How many packets that pass the test does the cache hold, but for those of the slots `out`?
abbrev pub cached : (Bytes → Bool) → List ℕ → Km → ℕ
cached test out s = total max_pkt (weight test out s.status s.buff_from_here)

pub count-append :
    (test : Bytes → Bool) (ps qs : List Bytes)
    → count test (ps ++ qs) ≡ count test ps + count test qs
unfolding count
count-append test [] qs = omega arith
count-append test (p ∷ ps) qs = omega (arith, count-append test ps qs)

pub total-agree : (n : ℕ) (f g : ℕ → ℕ) → ((i : ℕ) → i < n → f i ≡ g i) → total n f ≡ total n g
unfolding total
total-agree zero f g h = refl
total-agree (suc n) f g h = omega (arith, total-agree n f g (λ i hi. h i (omega arith)), h n)

pub total-zero : (n : ℕ) (f : ℕ → ℕ) → ((i : ℕ) → f i ≡ 0) → total n f ≡ 0
unfolding total
total-zero zero f h = refl
total-zero (suc n) f h = omega (arith, total-zero n f h, h n)

pub total-change :
    (n : ℕ) (f g : ℕ → ℕ) (c : ℕ)
    → c < n
    → ((i : ℕ) → i < n → i ≢ c → f i ≡ g i)
    → total n f + g c ≡ total n g + f c
unfolding total
total-change zero f g c hc h = absurd (omega arith)
total-change (suc n) f g c hc h = elim (ℕ_discrete c n) [
  | yes last ↦
      let same = total-agree n f g (λ i hi. h i (omega arith) (omega arith)) in
      subst (λ k. total n f + f n + g k ≡ total n g + g n + f k) (sym last) (omega arith)
  | no before ↦ omega (arith, total-change n f g c (omega arith) (λ i hi. h i (omega arith)), h n)
]

pub mem-append : (x : ℕ) (xs : List ℕ) (y : ℕ) → mem x (xs ++ y ∷ []) ≡ (mem x xs || x == y)
unfolding mem
mem-append x [] y = ground arith
mem-append x (z ∷ xs) y = ground (arith, mem-append x xs y)

pub all_used-true :
    (n : ℕ) (status : ℕ → ℕ) → ((i : ℕ) → i < n → status i ≢ 0) → all_used n status ≡ true
unfolding all_used
all_used-true zero status h = refl
all_used-true (suc n) status h =
    rw (all_used-true n status (λ i hi. h i (omega arith))) (ground (arith, h n (omega arith)))

pub all_used-false : (n i : ℕ) (status : ℕ → ℕ) → i < n → status i ≡ 0 → all_used n status ≡ false
unfolding all_used
all_used-false zero i status hi h = absurd (omega arith)
all_used-false (suc n) i status hi h = elim (ℕ_discrete i n) [
  | yes last ↦ let free : status n ≡ 0 = subst (λ k. status k ≡ 0) last h in ground arith
  | no before ↦ ground (arith, all_used-false n i status (omega arith) h)
]
