-- ===== src/Km/Gather.antt =====
-- The search of `read`.
use thesis_b_cs_tu_berlin.Prelude.{
  ℕ, zero, suc, ◌+◌, ◌-◌, ◌*◌, ◌%◌, ◌<◌, min, length, length-append, ltb, leb, ◌==◌, if◌then◌else◌,
  lt→ltb, ◌≡◌, refl, sym, ap, subst, ◌∙◌, Bool, ◌&&◌, List, [], ◌∷◌, ◌++◌, append-nil, append_assoc,
  arith,
}
use native.Mathlib.Decide.{dec_lt}
use thesis_b_cs_tu_berlin.Params.{pkt_buffer_size, max_pkt, pkts_per_buffer}
use thesis_b_cs_tu_berlin.Memory.{Bytes, mem_copy, shift}
use thesis_b_cs_tu_berlin.Km.{Km, Gathered, gather_one, gather}
use thesis_b_cs_tu_berlin.Km.Window.{indices, mod_step}

pub length-indices : (h n : ℕ) → length (indices h n) ≡ n
unfolding indices
length-indices h zero = refl
length-indices h (suc n) = ap suc (length-indices ((h + 1) % max_pkt) n)

length-snoc : (xs : List ℕ) (x : ℕ) → length (xs ++ x ∷ []) ≡ suc (length xs)
length-snoc xs x = omega (arith, length-append xs (x ∷ []))

-- Is slot `k` of the buffer one that the search fills, if `len` were filled before?
abbrev pub newly : ℕ → ℕ → ℕ → Bool
newly len m k = leb len k && (ltb k (len + m) && ltb k pkts_per_buffer)

pub copy_at :
    (temp src : Bytes) (len k j : ℕ)
    → j < pkt_buffer_size
    → mem_copy temp (len * pkt_buffer_size) src pkt_buffer_size (k * pkt_buffer_size + j)
      ≡ (if k == len then src j else temp (k * pkt_buffer_size + j))
unfolding mem_copy
copy_at temp src len k j hj = ground (arith, same)
  where
    same : k ≡ len → src (k * pkt_buffer_size + j - len * pkt_buffer_size) ≡ src j
    same e = ap src (omega arith)

module _ (s : Km) where
  -- The search after it has taken slot `ci`.
  abbrev pub took : ℕ → Gathered → Gathered
  took ci g = record {
    temp =
        mem_copy g.temp (length g.copied_index * pkt_buffer_size)
          (shift s.buff_from_here (ci * pkt_buffer_size)) pkt_buffer_size;
    copied_index = g.copied_index ++ ci ∷ [];
  }

  step_free :
      (rounds ci : ℕ) (g : Gathered)
      → length g.copied_index < pkts_per_buffer
      → s.status ci ≡ 0
      → gather s (suc rounds) ci g ≡ gather s rounds ((ci + 1) % max_pkt) g
  unfolding gather gather_one
  step_free rounds ci g h e = rw (e, lt→ltb _ _ h)

  pub step_used :
      (rounds ci : ℕ) (g : Gathered)
      → length g.copied_index < pkts_per_buffer
      → s.status ci ≡ 1
      → gather s (suc rounds) ci g ≡ gather s rounds ((ci + 1) % max_pkt) (took ci g)
  unfolding gather gather_one
  step_used rounds ci g h e = rw (e, lt→ltb _ _ h)

  step_none : (ci : ℕ) (g : Gathered) → gather s zero ci g ≡ g
  unfolding gather
  step_none ci g = refl

  step_full :
      (rounds ci : ℕ) (g : Gathered)
      → ¬ (length g.copied_index < pkts_per_buffer)
      → gather s rounds ci g ≡ g
  unfolding gather
  step_full zero ci g h = refl
  step_full (suc rounds) ci g h = ground arith

  -- Free slots are passed over.
  pub gather_free :
      (k rounds total ci : ℕ) (g : Gathered)
      → total ≡ k + rounds
      → ci < max_pkt
      → length g.copied_index < pkts_per_buffer
      → ((i : ℕ) → i < k → s.status ((ci + i) % max_pkt) ≡ 0)
      → gather s total ci g ≡ gather s rounds ((ci + k) % max_pkt) g
  gather_free zero rounds total ci g e hc hg free =
      let same_total : total ≡ rounds = omega arith in
      let same_start : (ci + 0) % max_pkt ≡ ci = omega arith in rw (same_total, same_start)
  gather_free (suc k) rounds zero ci g e hc hg free = absurd (omega arith)
  gather_free (suc k) rounds (suc total) ci g e hc hg free =
      step_free total ci g hg (subst (λ i. s.status i ≡ 0) (omega arith) (free 0 (omega arith)))
      ∙ gather_free k rounds total ((ci + 1) % max_pkt) g (omega arith) (omega arith) hg
          (λ i h. rw (mod_step ci i) (free (suc i) (omega arith)))
      ∙ ap (λ i. gather s rounds i g) (mod_step ci k)

  first_used :
      (m ci : ℕ)
      → ci < max_pkt
      → ((i : ℕ) → i < suc m → s.status ((ci + i) % max_pkt) ≡ 1)
      → s.status ci ≡ 1
  first_used m ci hc used = subst (λ i. s.status i ≡ 1) (omega arith) (used 0 (omega arith))

  next_used :
      (m ci : ℕ)
      → ((i : ℕ) → i < suc m → s.status ((ci + i) % max_pkt) ≡ 1)
      → (i : ℕ) → i < m
      → s.status (((ci + 1) % max_pkt + i) % max_pkt) ≡ 1
  next_used m ci used i h = rw (mod_step ci i) (used (suc i) (omega arith))

  -- From a run of `m` used slots on, `read` takes them in order until its buffer is full.
  pub gather_copied :
      (m ci : ℕ) (g : Gathered)
      → ci < max_pkt
      → ((i : ℕ) → i < m → s.status ((ci + i) % max_pkt) ≡ 1)
      → (gather s m ci g).copied_index
        ≡ g.copied_index ++ indices ci (min m (pkts_per_buffer - length g.copied_index))
  unfolding indices
  gather_copied zero ci g hc used =
      let nothing : min 0 (pkts_per_buffer - length g.copied_index) ≡ 0 = omega arith in
      rw (nothing, append-nil, step_none ci g)
  gather_copied (suc m) ci g hc used = elim (dec_lt (length g.copied_index) pkts_per_buffer) [
    | yes room ↦
        let more : min (suc m) (pkts_per_buffer - length g.copied_index)
            ≡ suc (min m (pkts_per_buffer - length (g.copied_index ++ ci ∷ []))) =
          omega (arith, length-snoc g.copied_index ci) in
        rw (step_used m ci g room (first_used m ci hc used), more)
          (gather_copied m ((ci + 1) % max_pkt) (took ci g) (omega arith) (next_used m ci used)
            ∙ append_assoc g.copied_index (ci ∷ []) _)
    | no full ↦
        let nothing : min (suc m) (pkts_per_buffer - length g.copied_index) ≡ 0 = omega arith in
        rw (step_full (suc m) ci g full, nothing) (sym (append-nil g.copied_index))
  ]

  took_slot :
      (len ci m : ℕ) (temp : Bytes) (k j : ℕ)
      → ci < max_pkt
      → j < pkt_buffer_size
      → len < pkts_per_buffer
      → (if newly (suc len) m k
          then s.buff_from_here
              (((ci + 1) % max_pkt + (k - suc len)) % max_pkt * pkt_buffer_size + j)
          else mem_copy temp
              (len * pkt_buffer_size)
              (shift s.buff_from_here (ci * pkt_buffer_size))
              pkt_buffer_size
              (k * pkt_buffer_size + j))
        ≡ (if newly len (suc m) k
            then s.buff_from_here ((ci + (k - len)) % max_pkt * pkt_buffer_size + j)
            else temp (k * pkt_buffer_size + j))
  took_slot len ci m temp k j hc hj hl =
      ground
        (arith, copy_at temp (shift s.buff_from_here (ci * pkt_buffer_size)) len k j hj, same, here)
    where
      same :
          len < k
          → s.buff_from_here (((ci + 1) % max_pkt + (k - suc len)) % max_pkt * pkt_buffer_size + j)
            ≡ s.buff_from_here ((ci + (k - len)) % max_pkt * pkt_buffer_size + j)
      same h = ap s.buff_from_here (omega arith)

      here :
          k ≡ len
          → s.buff_from_here (ci * pkt_buffer_size + j)
            ≡ s.buff_from_here ((ci + (k - len)) % max_pkt * pkt_buffer_size + j)
      here e = ap s.buff_from_here (omega arith)

  pub gather_temp :
      (m ci : ℕ) (g : Gathered) (k j : ℕ)
      → ci < max_pkt
      → j < pkt_buffer_size
      → ((i : ℕ) → i < m → s.status ((ci + i) % max_pkt) ≡ 1)
      → (gather s m ci g).temp (k * pkt_buffer_size + j) ≡ (
          if newly (length g.copied_index) m k
          then s.buff_from_here ((ci + (k - length g.copied_index)) % max_pkt * pkt_buffer_size + j)
          else g.temp (k * pkt_buffer_size + j))
  gather_temp zero ci g k j hc hj used = rw (step_none ci g) (ground arith)
  gather_temp (suc m) ci g k j hc hj used = elim (dec_lt (length g.copied_index) pkts_per_buffer) [
    | yes room ↦ rw (step_used m ci g room (first_used m ci hc used)) (
        gather_temp m ((ci + 1) % max_pkt) (took ci g) k j (omega arith) hj (next_used m ci used)
        ∙ rw (length-snoc g.copied_index ci)
            (took_slot (length g.copied_index) ci m g.temp k j hc hj room))
    | no full ↦ rw (step_full (suc m) ci g full) (ground arith)
  ]
