-- ===== src/Km/Interleave/Receiving.antt =====
-- The receive handler on a cache whose used slots may stand anywhere: `read` frees slots while new
-- packets come in.
use thesis_b_cs_tu_berlin.Prelude.{
  ℕ, zero, suc, ◌+◌, ◌-◌, ◌*◌, ◌%◌, ◌≤◌, ◌<◌, ◌==◌, if◌then◌else◌, ◌≡◌, refl, sym, subst, ◌∙◌, ◌≢◌,
  ◌⊎◌, inl, inr, Bool, true, false, not, some, List, [], ◌∷◌, arith,
}
use native.Mathlib.Decide.{ℕ_discrete}
use thesis_b_cs_tu_berlin.Params.{pkt_buffer_size, max_pkt, km_find_buff_slot_max_try}
use thesis_b_cs_tu_berlin.Memory.{Bytes, shift}
use thesis_b_cs_tu_berlin.Km.{Km, SkBuff, is_for_us, fill_slot, find_slot, rxh_packet_in}
use thesis_b_cs_tu_berlin.Km.Window.{slot_of, slot_of_same}
use thesis_b_cs_tu_berlin.Km.Fill.{filled, packet_slot, filled-slot, copy_other}
use thesis_b_cs_tu_berlin.Km.Receive.{
  HasPayload, dropped, counted, fill_slot_lem, find_slot_free, take_packet_lem,
}
use thesis_b_cs_tu_berlin.Km.Interleave.{all_used}
use thesis_b_cs_tu_berlin.Km.Interleave.Slots.{
  count, mem, weight, cached, total-change, all_used-true, all_used-false,
}

-- The search fills a free slot, or has found none in all its rounds.
abbrev pub Found : SkBuff → ℕ → ℕ → Km → Type 0
Found pkt rounds w s =
    ((i : ℕ) × (i < max_pkt)
      × (s.status i ≡ 0)
      × (find_slot pkt (suc rounds) w s ≡ fill_slot pkt i s))
    ⊎ (((k : ℕ) → k ≤ rounds → s.status ((w + k) % max_pkt) ≢ 0)
        × (find_slot pkt (suc rounds) w s ≡ some (dropped s)))

first_free :
    (pkt : SkBuff) (rounds w : ℕ) (s : Km) → w < max_pkt → s.status w ≡ 0 → Found pkt rounds w s
first_free pkt rounds w s hw free = inl (w, hw, free, find_slot_free pkt rounds w s free)

not_first :
    (pkt : SkBuff) (rounds w : ℕ) (s : Km)
    → s.status w ≢ 0
    → find_slot pkt (suc (suc rounds)) w s ≡ find_slot pkt (suc rounds) ((w + 1) % max_pkt) s
unfolding find_slot
not_first pkt rounds w s used =
    let taken : (s.status w == 0) ≡ false = ground arith in
    let not_last : (suc rounds == 0) ≡ false = ground arith in rw (taken, not_last) refl

only_round :
    (pkt : SkBuff) (w : ℕ) (s : Km) → s.status w ≢ 0 → find_slot pkt 1 w s ≡ some (dropped s)
unfolding find_slot
only_round pkt w s used = let taken : (s.status w == 0) ≡ false = ground arith in rw taken refl

pub find_slot-Found : (pkt : SkBuff) (rounds w : ℕ) (s : Km) → w < max_pkt → Found pkt rounds w s
find_slot-Found pkt zero w s hw = elim (ℕ_discrete (s.status w) 0) [
  | yes free ↦ first_free pkt zero w s hw free
  | no used ↦
      inr ((λ k hk e. used (subst (λ i. s.status i ≡ 0) (omega arith) e)), only_round pkt w s used)
]
find_slot-Found pkt (suc rounds) w s hw = elim (ℕ_discrete (s.status w) 0) [
  | yes free ↦ first_free pkt (suc rounds) w s hw free
  | no used ↦ elim (find_slot-Found pkt rounds ((w + 1) % max_pkt) s (omega arith)) [
    | inl (i, hi, free, e) ↦ inl (i, hi, free, not_first pkt rounds w s used ∙ e)
    | inr (none_free, e) ↦ inr (
      λ k hk. elim (ℕ_discrete k 0) [
        | yes zeroth ↦ λ h. used (subst (λ i. s.status i ≡ 0) (omega arith) h)
        | no later ↦
            λ h. none_free (k - 1) (omega arith) (subst (λ i. s.status i ≡ 0) (omega arith) h)
      ],
      not_first pkt rounds w s used ∙ e,
    )
  ]
]

-- Every free slot is zero.
abbrev pub FreeClean : Km → Type 0
FreeClean s =
    (i j : ℕ)
    → i < max_pkt
    → j < pkt_buffer_size
    → s.status i ≡ 0
    → s.buff_from_here (i * pkt_buffer_size + j) ≡ 0

-- What the handler leaves where it was: the slots in use, and with them what they hold.
pub record Kept (s s' : Km) : Type 0 where
  pub index_in : s'.current_index < max_pkt
  pub clean : FreeClean s'
  pub used : (i : ℕ) → s.status i ≢ 0 → s'.status i ≢ 0
  pub same : (i : ℕ) → s.status i ≢ 0 → slot_of s'.buff_from_here i ≡ slot_of s.buff_from_here i

module _ (pkt : SkBuff) (n i : ℕ) (s : Km) (fits : n ≤ pkt_buffer_size) (hi : i < max_pkt)
    (free : s.status i ≡ 0) (clean : FreeClean s) where
  filled_other :
      (k : ℕ) → k ≢ i → slot_of (filled pkt n i s).buff_from_here k ≡ slot_of s.buff_from_here k
  filled_other k ne = sym (
      slot_of_same s.buff_from_here (filled pkt n i s).buff_from_here k
        (copy_other s.buff_from_here (shift pkt.linear.bytes (pkt.pkt_data + 28)) i n fits ne))

  pub filled-Kept : Kept s (filled pkt n i s)
  filled-Kept = record {
    index_in = omega arith;
    clean = λ k j hk hj h. elim (ℕ_discrete k i) [
      | yes here ↦ absurd (ground arith)
      | no other ↦
          sym (
            copy_other s.buff_from_here (shift pkt.linear.bytes (pkt.pkt_data + 28)) i n fits other
              j hj)
          ∙ clean k j hk hj (ground arith)
    ];
    used = λ k u. ground arith;
    same = λ k u. filled_other k (λ e. u (subst (λ m. s.status m ≡ 0) (sym e) free));
  }

  pub cached-filled :
      (test : Bytes → Bool) (out : List ℕ)
      → mem i out ≡ false
      → cached test out (filled pkt n i s) ≡ cached test out s + count test (packet_slot pkt n ∷ [])
  unfolding count
  cached-filled test out in_cache = omega (arith, changed, before, after)
    where
      changed :
          cached test out (filled pkt n i s) + weight test out s.status s.buff_from_here i
          ≡ cached test out s
            + weight test out (filled pkt n i s).status (filled pkt n i s).buff_from_here i
      changed = total-change max_pkt _ _ i hi λ k hk ne. rw (filled_other k ne) (ground arith)

      before : weight test out s.status s.buff_from_here i ≡ 0
      before = rw free refl

      after :
          weight test out (filled pkt n i s).status (filled pkt n i s).buff_from_here i
          ≡ (if test (packet_slot pkt n) then 1 else 0)
      after =
          rw (in_cache, filled-slot pkt n i s fits (λ j hj. clean i j hi hj free)) (ground arith)

-- What the packet adds to the cache.
abbrev pub added : SkBuff → ℕ → Km → List Bytes
added pkt n s = if not (all_used max_pkt s.status) then packet_slot pkt n ∷ [] else []

-- The handler on a packet of its own: the packet goes into a free slot, and is dropped only if all
-- are in use.
pub rxh_packet_in-Kept :
    (pkt : SkBuff) (n now : ℕ) (s : Km)
    → s.current_index < max_pkt
    → FreeClean s
    → HasPayload n pkt
    → n ≤ pkt_buffer_size
    → is_for_us pkt ≡ some true
    → (s' : Km) × (rxh_packet_in pkt now s ≡ some s')
      × Kept s s'
      × ((test : Bytes → Bool) (out : List ℕ)
          → ((i : ℕ) → s.status i ≡ 0 → mem i out ≡ false)
          → cached test out s' ≡ cached test out s + count test (added pkt n s))
unfolding rxh_packet_in count
rxh_packet_in-Kept pkt n now s hc clean hp fits ours =
    elim (find_slot-Found pkt 199 s.current_index (counted pkt now s) hc) [
      | inl (i, hi, free, e) ↦ (
        filled pkt n i (counted pkt now s),
        start ∙ e ∙ fill_slot_lem pkt n i (counted pkt now s) hp (omega arith),
        keep (filled-Kept pkt n i (counted pkt now s) fits hi free clean),
        λ test out in_cache. rw (all_used-false max_pkt i s.status hi free) (
            cached-filled pkt n i (counted pkt now s) fits hi free clean test out
              (in_cache i free)),
      )
      | inr (none_free, e) ↦ (
        dropped (counted pkt now s),
        start ∙ e,
        record { index_in = hc; clean = clean; used = λ i u. u; same = λ i u. refl },
        λ test out in_cache. rw (all_used-true max_pkt s.status (full none_free)) (omega arith),
      )
    ]
  where
    start :
        rxh_packet_in pkt now s
        ≡ find_slot pkt km_find_buff_slot_max_try s.current_index (counted pkt now s)
    start = rw ours (take_packet_lem pkt now s hp.uid_there)

    keep : {s' : Km} → Kept (counted pkt now s) s' → Kept s s'
    keep k = record { index_in = k.index_in; clean = k.clean; used = k.used; same = k.same }

    full :
        ((k : ℕ) → k ≤ 199 → s.status ((s.current_index + k) % max_pkt) ≢ 0)
        → (i : ℕ) → i < max_pkt
        → s.status i ≢ 0
    full none_free i hi h =
        none_free ((i + max_pkt - s.current_index) % max_pkt) (omega arith)
          (subst (λ m. s.status m ≡ 0) (omega arith) h)
