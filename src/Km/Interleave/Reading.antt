-- ===== src/Km/Interleave/Reading.antt =====
-- What the steps of `read` do to the slots and to the counts.
use thesis_b_cs_tu_berlin.Prelude.{
  ℕ, zero, suc, ◌+◌, ◌*◌, ◌%◌, ◌≤◌, ◌<◌, length, length-append, ◌==◌, Bool-cases, ◌≡◌, refl, ap,
  ap₂, subst, fun_ext, ◌∙◌, ◌≢◌, inl, inr, Bool, true, false, List, [], ◌∷◌, ◌++◌, map, arith,
}
use thesis_b_cs_tu_berlin.Params.{pkt_buffer_size, max_pkt, pkts_per_buffer}
use thesis_b_cs_tu_berlin.Memory.{Bytes, mem_copy, shift}
use thesis_b_cs_tu_berlin.Km.{Km, Gathered, gather_one}
use thesis_b_cs_tu_berlin.Km.Window.{slot_of, slot_of_same, SameSlot, mod_step}
use thesis_b_cs_tu_berlin.Km.CleanUp.{cleaned, zero_at}
use thesis_b_cs_tu_berlin.Km.Gather.{copy_at}
use thesis_b_cs_tu_berlin.Km.Interleave.{slots}
use thesis_b_cs_tu_berlin.Km.Interleave.Slots.{mem, cached, total-agree, mem-append}
use thesis_b_cs_tu_berlin.Km.Interleave.Pending.{Pending, Pending-snoc, Pending-keep}

-- What `read` has copied: different slots in use, and their bytes are in its buffer, in order.
pub record Copied (g : Gathered) (s : Km) : Type 0 where
  pub fits : length g.copied_index ≤ pkts_per_buffer
  pub pending : Pending s.status g.copied_index
  pub same : slots g.temp (length g.copied_index) ≡ map (slot_of s.buff_from_here) g.copied_index

slots-frame : (b b' : Bytes) (n : ℕ) → ((k : ℕ) → k < n → SameSlot b b' k) → slots b n ≡ slots b' n
unfolding slots
slots-frame b b' zero h = refl
slots-frame b b' (suc n) h =
    ap₂ (λ w p. w ++ p ∷ []) (slots-frame b b' n (λ k hk. h k (omega arith)))
      (slot_of_same b b' n (h n (omega arith)))

map-snoc : (f : ℕ → Bytes) (xs : List ℕ) (x : ℕ) → map f (xs ++ x ∷ []) ≡ map f xs ++ f x ∷ []
map-snoc f [] x = refl
map-snoc f (y ∷ xs) x = ap (λ t. f y ∷ t) (map-snoc f xs x)

copied_slot :
    (temp src : Bytes) (n i : ℕ)
    → slot_of
        (mem_copy temp (n * pkt_buffer_size) (shift src (i * pkt_buffer_size)) pkt_buffer_size)
        n
      ≡ slot_of src i
copied_slot temp src n i =
    fun_ext λ j. ground (arith, copy_at temp (shift src (i * pkt_buffer_size)) n n j)

slots-copy :
    (temp src : Bytes) (n i : ℕ)
    → slots
        (mem_copy temp (n * pkt_buffer_size) (shift src (i * pkt_buffer_size)) pkt_buffer_size)
        (suc n)
      ≡ slots temp n ++ slot_of src i ∷ []
unfolding slots
slots-copy temp src n i =
    ap₂ (λ w p. w ++ p ∷ [])
      (slots-frame
        (mem_copy temp (n * pkt_buffer_size) (shift src (i * pkt_buffer_size)) pkt_buffer_size) temp
        n (λ k hk j hj. copy_at temp (shift src (i * pkt_buffer_size)) n k j hj ∙ ground arith))
      (copied_slot temp src n i)

-- One round of the search.
pub gather_one-Copied :
    (s : Km) (ci : ℕ) (g : Gathered)
    → Copied g s
    → length g.copied_index < pkts_per_buffer
    → ci < max_pkt
    → mem ci g.copied_index ≡ false
    → Copied (gather_one s ci g) s
unfolding gather_one
gather_one-Copied s ci g v room hc new = elim (Bool-cases (s.status ci == 0)) [
  | inl free ↦ rw free v
  | inr used ↦ rw used (record {
    fits = omega (arith, length-append g.copied_index (ci ∷ []));
    pending = Pending-snoc s.status g.copied_index ci v.pending hc (ground arith) new;
    same =
        rw (map-snoc (slot_of s.buff_from_here) g.copied_index ci, one_more)
          (slots-copy g.temp s.buff_from_here (length g.copied_index) ci
            ∙ ap (λ w. w ++ slot_of s.buff_from_here ci ∷ []) v.same);
  })
]
  where
    one_more : length (g.copied_index ++ ci ∷ []) ≡ suc (length g.copied_index)
    one_more = omega (arith, length-append g.copied_index (ci ∷ []))

-- The slots that the next rounds look at are new.
abbrev pub Ahead : ℕ → ℕ → List ℕ → Type 0
Ahead rounds ci xs = (k : ℕ) → k < rounds → mem ((ci + k) % max_pkt) xs ≡ false

pub gather_one-Ahead :
    (s : Km) (rounds ci : ℕ) (g : Gathered)
    → ci < max_pkt
    → rounds < max_pkt
    → Ahead (suc rounds) ci g.copied_index
    → Ahead rounds ((ci + 1) % max_pkt) (gather_one s ci g).copied_index
unfolding gather_one
gather_one-Ahead s rounds ci g hc hr ahead k hk =
    rw (mod_step ci k) (elim (Bool-cases (s.status ci == 0)) [
      | inl free ↦ rw free (ahead (suc k) (omega arith))
      | inr used ↦
          rw
            (
              used,
              mem-append ((ci + suc k) % max_pkt) g.copied_index ci,
              ahead (suc k) (omega arith),
            )
            (ground arith)
    ])

-- The clean-up of a slot.
pub cleaned-Pending :
    (s : Km) (x : ℕ) (xs : List ℕ) → Pending s.status (x ∷ xs) → Pending (cleaned x s).status xs
cleaned-Pending s x xs (hx, ux, nx, h) =
    Pending-keep s.status (cleaned x s).status xs (λ i hi m u. keep i m u) h
  where
    keep : (i : ℕ) → mem i xs ≡ true → s.status i ≢ 0 → (cleaned x s).status i ≢ 0
    keep i m u = elim (Bool-cases (i == x)) [
      | inl same ↦
          let here : mem x xs ≡ true = subst (λ k. mem k xs ≡ true) (ground arith) m in ground arith
      | inr other ↦ ground arith
    ]

pub cached-cleaned :
    (test : Bytes → Bool) (s : Km) (x : ℕ) (xs : List ℕ)
    → cached test (x ∷ xs) s ≡ cached test xs (cleaned x s)
unfolding mem
cached-cleaned test s x xs = total-agree max_pkt _ _ λ i hi. elim (Bool-cases (i == x)) [
  | inl here ↦ rw here (ground arith)
  | inr other ↦
      rw
        (
          other,
          slot_of_same (cleaned x s).buff_from_here s.buff_from_here i
              (λ j hj. zero_at s.buff_from_here x i j hj ∙ ground arith),
        )
        refl
]

pub cleaned-clean :
    (s : Km) (x i j : ℕ)
    → j < pkt_buffer_size
    → (s.status i ≡ 0 → s.buff_from_here (i * pkt_buffer_size + j) ≡ 0)
    → (cleaned x s).status i ≡ 0
    → (cleaned x s).buff_from_here (i * pkt_buffer_size + j) ≡ 0
cleaned-clean s x i j hj clean h = ground (arith, zero_at s.buff_from_here x i j hj, clean)
