-- ===== src/EbpfUser/Progress.antt =====
-- The packets that the loop does note.
use thesis_b_cs_tu_berlin.Prelude.{
  ℕ, suc, ◌+◌, ◌-◌, ◌%◌, ◌^◌, ◌≤◌, ◌<◌, length, get_or, ltb, if◌then◌else◌, Bool-cases,
  Option-cases, ◌≡◌, refl, sym, ap, ◌∙◌, inl, inr, true, false, ◌&&◌, none, some, List, [], ◌∷◌,
  arith,
}
use native.Mathlib.Decide.{dec_lt}
use mathlib.Core.Bool.{false≢true}
use thesis_b_cs_tu_berlin.Params.{max_log_entry}
use thesis_b_cs_tu_berlin.Payload.{Payload, is_data_payload}
use thesis_b_cs_tu_berlin.Log.{Log, entry}
use thesis_b_cs_tu_berlin.Log.Entries.{log_after, entry-log_after}
use thesis_b_cs_tu_berlin.Bpf.{BpfArray}
use thesis_b_cs_tu_berlin.EbpfUser.{follow}
use thesis_b_cs_tu_berlin.EbpfUser.Follow.{is_there, IsKeyed, AllKeyed, fetch_lem}

module _ (pkts : BpfArray Payload) where
  -- In every round the map has the packets of the uids below `k`.
  abbrev pub AllThere : ℕ → List (pkts.Map × ℕ) → Type 0
  AllThere k [] = Unit {0}
  AllThere k ((m, now) ∷ rounds) = ((j : ℕ) → j < k → is_there pkts m j ≡ true) × AllThere k rounds

  abbrev pub times_of : List (pkts.Map × ℕ) → List ℕ
  times_of [] = []
  times_of ((m, now) ∷ rounds) = now ∷ times_of rounds

  pub there-lt :
      (m : pkts.Map) (next : ℕ)
      → IsKeyed pkts m
      → is_there pkts m next ≡ true
      → next < max_log_entry
  there-lt m next keyed there = elim (Option-cases (pkts.lookup m next)) [
    | inl e ↦ absurd (false≢true (sym (absent e) ∙ there))
    | inr (pl, e) ↦ let both = sym (found pl e) ∙ there in ground (arith, both, keyed next pl e)
  ]
    where
      absent : pkts.lookup m next ≡ none → is_there pkts m next ≡ false
      absent e = rw (e, is_there)

      found :
          (pl : Payload)
          → pkts.lookup m next ≡ some pl
          → is_there pkts m next ≡ (is_data_payload pl && ltb pl.uid max_log_entry)
      found pl e = rw (e, is_there)

  -- Time `i` of a log with the times `ts` for the uids from `next` on.
  abbrev pub from_next : Log → ℕ → List ℕ → ℕ → ℕ
  from_next log next ts i = if ltb i next then entry log i else get_or ts (i - next) 0

  one_more :
      (log : Log) (next now : ℕ) (ts : List ℕ) (i : ℕ)
      → i < max_log_entry
      → from_next (log_after log next now) (next + 1) ts i ≡ from_next log next (now ∷ ts) i
  one_more log next now ts i h = elim (dec_lt i next) [
    | yes before ↦ ground (arith, entry-log_after log next now i h)
    | no not_before ↦ elim (dec_lt next i) [
      | yes after ↦
          let shorter : i - next ≡ suc (i - (next + 1)) = omega arith in
          ground (arith, ap (λ j. get_or (now ∷ ts) j 0) shorter)
      | no not_after ↦
          let here : i - next ≡ 0 = omega arith in
          ground (arith, entry-log_after log next now i h, ap (λ j. get_or (now ∷ ts) j 0) here)
    ]
  ]

  pub follow_from :
      (k : ℕ) (rounds : List (pkts.Map × ℕ)) (next : ℕ) (log : Log)
      → k ≤ max_log_entry
      → k ≤ next + length rounds
      → AllThere k rounds
      → AllKeyed pkts rounds
      → (next' : ℕ) × (log' : Log) × (follow pkts rounds next log ≡ some (next', log'))
        × (k ≤ next')
        × ((i : ℕ) → i < k → entry log' i ≡ from_next log next (times_of rounds) i)
  unfolding follow
  follow_from k [] next log hk enough there keyed =
      (next, log, refl, omega arith, λ i h. ground arith)
  follow_from k ((m, now) ∷ rounds) next log hk enough there keyed =
      elim (Bool-cases (is_there pkts m next)) [
        | inl present ↦
            let small : (next + 1) % 2 ^ 32 ≡ next + 1 =
              omega (arith, there-lt m next keyed.0 present) in
            let (next', log', e, bound, stamps) =
              follow_from k rounds (next + 1) (log_after log next now) hk (omega arith) there.1
                keyed.1 in
            rw (fetch_lem pkts m next now log keyed.0, present, small)
              (
                next',
                log',
                e,
                bound,
                λ i h. stamps i h ∙ one_more log next now (times_of rounds) i (omega arith),
              )
        | inr absent ↦
            let past : k ≤ next = waited absent in
            let (next', log', e, bound, stamps) =
              follow_from k rounds next log hk (omega arith) there.1 keyed.1 in
            rw (fetch_lem pkts m next now log keyed.0, absent)
              (next', log', e, bound, λ i h. stamps i h ∙ ground arith)
      ]
    where
      waited : is_there pkts m next ≡ false → k ≤ next
      waited absent = elim (dec_lt next k) [
        | yes p ↦ absurd (false≢true (sym absent ∙ there.0 next p))
        | no p ↦ omega arith
      ]

  -- The program keeps up where nothing is lost: if the map has the packets of the first `k` uids in
  -- every round, `k` rounds are enough to note them all, uid `i` with the time of round `i`, and what
  -- later rounds find does not change these entries.
  pub follow_progress :
      (k : ℕ) (rounds : List (pkts.Map × ℕ)) (log : Log)
      → k ≤ max_log_entry
      → k ≤ length rounds
      → AllThere k rounds
      → AllKeyed pkts rounds
      → (next' : ℕ) × (log' : Log) × (follow pkts rounds 0 log ≡ some (next', log'))
        × (k ≤ next')
        × ((i : ℕ) → i < k → entry log' i ≡ get_or (times_of rounds) i 0)
  follow_progress k rounds log hk enough there keyed =
      let (next', log', e, bound, stamps) =
        follow_from k rounds 0 log hk (omega arith) there keyed in
      (next', log', e, bound, λ i h. stamps i h ∙ from_first i)
    where
      from_first : (i : ℕ) → from_next log 0 (times_of rounds) i ≡ get_or (times_of rounds) i 0
      from_first i =
          let same : i - 0 ≡ i = omega arith in
          ground (arith, ap (λ j. get_or (times_of rounds) j 0) same)
