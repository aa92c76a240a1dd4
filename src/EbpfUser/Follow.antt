-- ===== src/EbpfUser/Follow.antt =====
-- How far `next_uid` gets.
use thesis_b_cs_tu_berlin.Prelude.{
  ℕ, ◌+◌, ◌%◌, ◌^◌, ◌≤◌, ◌<◌, ltb, if◌then◌else◌, Bool-cases, Option-cases, ◌≡◌, refl, sym, subst,
  ◌∙◌, inl, inr, Bool, true, false, ◌&&◌, none, some, List, [], ◌∷◌, arith,
}
use native.Mathlib.Decide.{dec_lt}
use mathlib.Core.Bool.{false≢true}
use thesis_b_cs_tu_berlin.Params.{max_log_entry}
use thesis_b_cs_tu_berlin.Payload.{Payload, is_data_payload}
use thesis_b_cs_tu_berlin.Log.{Log, entry}
use thesis_b_cs_tu_berlin.Log.Entries.{log_after, log_store-after, entry-log_after}
use thesis_b_cs_tu_berlin.Bpf.{BpfArray}
use thesis_b_cs_tu_berlin.EbpfUser.{log_found, fetch_and_process_packet, follow}

log_found_lem :
    (pl : Payload) (next now : ℕ) (log : Log)
    → (is_data_payload pl ≡ true → pl.uid < max_log_entry → pl.uid ≡ next)
    → log_found pl now log
      ≡ some (
        is_data_payload pl && ltb pl.uid max_log_entry,
        if is_data_payload pl && ltb pl.uid max_log_entry then log_after log next now else log,
      )
unfolding log_found
log_found_lem pl next now log own =
    elim (Bool-cases (is_data_payload pl && ltb pl.uid max_log_entry)) [
      | inr other ↦ rw other
      | inl good ↦ rw (good, own (ground arith) (ground arith), log_store-after log next now)
    ]

module _ (pkts : BpfArray Payload) where
  -- The map's entry for a uid is a packet of that uid that the program logs.
  abbrev pub is_there : pkts.Map → ℕ → Bool
  is_there m k = elim (pkts.lookup m k) [
    | none ↦ false
    | some pl ↦ is_data_payload pl && ltb pl.uid max_log_entry
  ]

  -- Every entry of the map that holds a data packet with a place in the log holds one of its own uid.
  abbrev pub IsKeyed : pkts.Map → Type 0
  IsKeyed m =
      (k : ℕ) (pl : Payload)
      → pkts.lookup m k ≡ some pl
      → is_data_payload pl ≡ true
      → pl.uid < max_log_entry
      → pl.uid ≡ k

  abbrev pub AllKeyed : List (pkts.Map × ℕ) → Type 0
  AllKeyed [] = Unit {0}
  AllKeyed ((m, now) ∷ rounds) = IsKeyed m × AllKeyed rounds

  -- In no round has the map a packet for uid `k`.
  abbrev pub NeverThere : ℕ → List (pkts.Map × ℕ) → Type 0
  NeverThere k [] = Unit {0}
  NeverThere k ((m, now) ∷ rounds) = (is_there m k ≡ false) × NeverThere k rounds

  pub fetch_lem :
      (m : pkts.Map) (next now : ℕ) (log : Log)
      → IsKeyed m
      → fetch_and_process_packet pkts m next now log
        ≡ some (is_there m next, if is_there m next then log_after log next now else log)
  unfolding fetch_and_process_packet
  fetch_lem m next now log keyed = elim (Option-cases (pkts.lookup m next)) [
    | inl e ↦ rw (e, fetch_and_process_packet, is_there)
    | inr (pl, e) ↦
        rw (e, fetch_and_process_packet, is_there) (log_found_lem pl next now log (keyed next pl e))
  ]

  -- A packet that never reaches the map holds the program up for good: once it waits for that uid, or
  -- for one before it, `next_uid` never passes it and no later uid gets a time stamp.
  pub follow_stalls :
      (k : ℕ) (rounds : List (pkts.Map × ℕ)) (next : ℕ) (log : Log)
      → k < max_log_entry
      → next ≤ k
      → AllKeyed rounds
      → NeverThere k rounds
      → (next' : ℕ) × (log' : Log) × (follow pkts rounds next log ≡ some (next', log'))
        × (next' ≤ k)
        × ((i : ℕ) → k ≤ i → i < max_log_entry → entry log' i ≡ entry log i)
  unfolding follow
  follow_stalls k [] next log hk hn keyed never = (next, log, refl, hn, λ i a b. refl)
  follow_stalls k ((m, now) ∷ rounds) next log hk hn keyed never =
      elim (Bool-cases (is_there m next)) [
        | inr absent ↦
            rw (fetch_lem m next now log keyed.0, absent)
              (follow_stalls k rounds next log hk hn keyed.1 never.1)
        | inl present ↦
            let before : next < k = passed present in
            let (next', log', e, bound, kept) =
              follow_stalls k rounds (next + 1) (log_after log next now) hk (omega arith) keyed.1
                never.1 in
            let small : (next + 1) % 2 ^ 32 ≡ next + 1 = omega arith in
            rw (fetch_lem m next now log keyed.0, present, small)
              (
                next',
                log',
                e,
                bound,
                λ i a b. kept i a b ∙ entry-log_after log next now i b ∙ ground arith,
              )
      ]
    where
      passed : is_there m next ≡ true → next < k
      passed present = elim (dec_lt next k) [
        | yes p ↦ p
        | no p ↦
            let same : k ≡ next = omega arith in
            absurd (false≢true (sym (subst (λ x. is_there m x ≡ false) same never.0) ∙ present))
      ]
