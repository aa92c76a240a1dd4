-- ===== src/Km/Window.antt =====
-- The slots of a byte array, and the runs of slots that go round at `MAX_PKT`.
use thesis_b_cs_tu_berlin.Prelude.{
  ℕ, zero, suc, ◌+◌, ◌-◌, ◌*◌, ◌%◌, ◌≤◌, ◌<◌, length, get_elem?, drop, get_or, ltb, if◌then◌else◌,
  ◌≡◌, refl, sym, ap, ap₂, subst, fun_ext, ◌∙◌, some, List, [], ◌∷◌, ◌++◌, arith,
}
use thesis_b_cs_tu_berlin.Params.{pkt_buffer_size, max_pkt}
use thesis_b_cs_tu_berlin.Memory.{Bytes}

-- The bytes of slot `i`, and 0 past its end.
abbrev pub slot_of : Bytes → ℕ → Bytes
slot_of b i j = if ltb j pkt_buffer_size then b (i * pkt_buffer_size + j) else 0

-- The `n` slots from slot `h` on.
unfoldable pub window : Bytes → ℕ → ℕ → List Bytes
window b h zero = []
window b h (suc n) = slot_of b h ∷ window b ((h + 1) % max_pkt) n

-- Their indices.
unfoldable pub indices : ℕ → ℕ → List ℕ
indices h zero = []
indices h (suc n) = h ∷ indices ((h + 1) % max_pkt) n

pub length-window : (b : Bytes) (h n : ℕ) → length (window b h n) ≡ n
unfolding window
length-window b h zero = refl
length-window b h (suc n) = ap suc (length-window b ((h + 1) % max_pkt) n)

-- Two arrays agree on slot `i`.
abbrev pub SameSlot : Bytes → Bytes → ℕ → Type 0
SameSlot b b' i =
    (j : ℕ) → j < pkt_buffer_size → b (i * pkt_buffer_size + j) ≡ b' (i * pkt_buffer_size + j)

pub slot_of_same : (b b' : Bytes) (i : ℕ) → SameSlot b b' i → slot_of b i ≡ slot_of b' i
slot_of_same b b' i h = fun_ext λ j. ground (arith, h j)

pub mod_step : (h k : ℕ) → ((h + 1) % max_pkt + k) % max_pkt ≡ (h + suc k) % max_pkt
mod_step h k = omega arith

pub window_frame :
    (b b' : Bytes) (h n : ℕ)
    → h < max_pkt
    → ((k : ℕ) → k < n → SameSlot b b' ((h + k) % max_pkt))
    → window b h n ≡ window b' h n
unfolding window
window_frame b b' h zero hh same = refl
window_frame b b' h (suc n) hh same =
    ap₂ ◌∷◌ (slot_of_same b b' h (subst (SameSlot b b') (omega arith) (same 0 (omega arith)))) (
      window_frame b b' ((h + 1) % max_pkt) n (omega arith)
        (λ k hk. subst (SameSlot b b') (sym (mod_step h k)) (same (suc k) (omega arith))))

pub window_snoc :
    (b : Bytes) (h n : ℕ)
    → h < max_pkt
    → window b h (suc n) ≡ window b h n ++ slot_of b ((h + n) % max_pkt) ∷ []
unfolding window
window_snoc b h zero hh = ap (λ i. slot_of b i ∷ []) (omega arith)
window_snoc b h (suc n) hh =
    ap (λ t. slot_of b h ∷ t)
      (window_snoc b ((h + 1) % max_pkt) n (omega arith)
        ∙ ap (λ i. window b ((h + 1) % max_pkt) n ++ slot_of b i ∷ []) (mod_step h n))

pub drop-window :
    (b : Bytes) (h n t : ℕ)
    → h < max_pkt
    → t ≤ n
    → drop t (window b h n) ≡ window b ((h + t) % max_pkt) (n - t)
unfolding window
drop-window b h n zero hh ht =
    let same_start : (h + 0) % max_pkt ≡ h = omega arith in
    let same_length : n - 0 ≡ n = omega arith in rw (same_start, same_length)
drop-window b h zero (suc t) hh ht = absurd (omega arith)
drop-window b h (suc n) (suc t) hh ht =
    drop-window b ((h + 1) % max_pkt) n t (omega arith) (omega arith)
    ∙ ap₂ (window b) (mod_step h t) same_length
  where
    same_length : n - t ≡ suc n - suc t
    same_length = omega arith

pub get_elem?-window :
    (b : Bytes) (h n k : ℕ)
    → h < max_pkt
    → k < n
    → get_elem? (window b h n) k ≡ some (slot_of b ((h + k) % max_pkt))
unfolding window
get_elem?-window b h zero k hh hk = elim hk [ ]
get_elem?-window b h (suc n) zero hh hk =
    ap (λ i. some (slot_of b i)) {x = h} {y = (h + 0) % max_pkt} (omega arith)
get_elem?-window b h (suc n) (suc k) hh hk =
    get_elem?-window b ((h + 1) % max_pkt) n k (omega arith) (omega arith)
    ∙ ap (λ i. some (slot_of b i)) (mod_step h k)

pub get_or-window :
    (b d : Bytes) (h n k : ℕ)
    → h < max_pkt
    → get_or (window b h n) k d ≡ (if ltb k n then slot_of b ((h + k) % max_pkt) else d)
unfolding window
get_or-window b d h zero k hh = ground arith
get_or-window b d h (suc n) zero hh =
    ap (slot_of b) {x = h} {y = (h + 0) % max_pkt} (omega arith) ∙ ground arith
get_or-window b d h (suc n) (suc k) hh =
    get_or-window b d ((h + 1) % max_pkt) n k (omega arith) ∙ rw (mod_step h k) (ground arith)
