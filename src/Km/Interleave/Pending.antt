-- ===== src/Km/Interleave/Pending.antt =====
-- The slots that `read` has copied and not yet cleaned up.
use thesis_b_cs_tu_berlin.Prelude.{
  ℕ, ◌+◌, ◌<◌, if◌then◌else◌, ◌≡◌, refl, subst, ◌≢◌, Bool, true, false, List, [], ◌∷◌, ◌++◌, map,
  arith,
}
use thesis_b_cs_tu_berlin.Params.{max_pkt}
use thesis_b_cs_tu_berlin.Memory.{Bytes}
use thesis_b_cs_tu_berlin.Km.{Km}
use thesis_b_cs_tu_berlin.Km.Window.{slot_of}
use thesis_b_cs_tu_berlin.Km.Interleave.Slots.{count, mem, weight, cached, total-change, mem-append}

-- Different slots of the cache, all in use.
abbrev pub Pending : (ℕ → ℕ) → List ℕ → Type 0
Pending status [] = Unit {0}
Pending status (x ∷ xs) = (x < max_pkt) × (status x ≢ 0) × (mem x xs ≡ false) × Pending status xs

pub Pending-snoc :
    (status : ℕ → ℕ) (xs : List ℕ) (x : ℕ)
    → Pending status xs
    → x < max_pkt
    → status x ≢ 0
    → mem x xs ≡ false
    → Pending status (xs ++ x ∷ [])
unfolding mem
Pending-snoc status [] x h hx used new = (hx, used, refl, tt)
Pending-snoc status (y ∷ ys) x (hy, uy, ny, h) hx used new = (
  hy,
  uy,
  rw (mem-append y ys x) (ground arith),
  Pending-snoc status ys x h hx used (ground arith),
)

pub Pending-keep :
    (status status' : ℕ → ℕ) (xs : List ℕ)
    → ((i : ℕ) → i < max_pkt → mem i xs ≡ true → status i ≢ 0 → status' i ≢ 0)
    → Pending status xs
    → Pending status' xs
unfolding mem
Pending-keep status status' [] keep h = h
Pending-keep status status' (x ∷ xs) keep (hx, ux, nx, h) = (
  hx,
  keep x hx (ground arith) ux,
  nx,
  Pending-keep status status' xs (λ i hi m. keep i hi (ground arith)) h,
)

pub Pending-used :
    (status : ℕ → ℕ) (xs : List ℕ) (i : ℕ) → Pending status xs → status i ≡ 0 → mem i xs ≡ false
unfolding mem
Pending-used status [] i h e = refl
Pending-used status (x ∷ xs) i (hx, ux, nx, h) e =
    rw (Pending-used status xs i h e) (ground (arith, other))
  where
    other : i ≢ x
    other p = ux (subst (λ k. status k ≡ 0) p e)

-- The packets in use are those that are out to the user, and the others.
pub cached-out :
    (test : Bytes → Bool) (xs : List ℕ) (s : Km)
    → Pending s.status xs
    → cached test xs s + count test (map (slot_of s.buff_from_here) xs) ≡ cached test [] s
unfolding count
cached-out test [] s h = omega arith
cached-out test (x ∷ xs) s (hx, ux, nx, h) = omega (arith, cached-out test xs s h, moved, here)
  where
    moved :
        cached test (x ∷ xs) s + weight test xs s.status s.buff_from_here x
        ≡ cached test xs s + weight test (x ∷ xs) s.status s.buff_from_here x
    moved =
        total-change max_pkt (weight test (x ∷ xs) s.status s.buff_from_here)
          (weight test xs s.status s.buff_from_here) x hx (λ i hi ne. unfold mem in ground arith)

    here :
        weight test xs s.status s.buff_from_here x
        ≡ weight test (x ∷ xs) s.status s.buff_from_here x
          + (if test (slot_of s.buff_from_here x) then 1 else 0)
    here = unfold mem in ground arith
