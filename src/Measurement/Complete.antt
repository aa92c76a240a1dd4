-- ===== src/Measurement/Complete.antt =====
-- The user program notes all that has arrived.
use thesis_b_cs_tu_berlin.Prelude.{
  ℕ, suc, ◌+◌, ◌-◌, ◌%◌, ◌^◌, ◌≤◌, ◌<◌, length, get_or, ltb, if◌then◌else◌, ◌≡◌, refl, ap, ◌∙◌, inr,
  true, some, List, [], ◌∷◌, map, arith,
}
use thesis_b_cs_tu_berlin.Params.{max_log_entry}
use thesis_b_cs_tu_berlin.Payload.{Payload}
use thesis_b_cs_tu_berlin.Log.{Log, entry}
use thesis_b_cs_tu_berlin.Log.Entries.{log_after}
use thesis_b_cs_tu_berlin.Bpf.{BpfArray}
use thesis_b_cs_tu_berlin.Xdp.{Maps}
use thesis_b_cs_tu_berlin.EbpfUser.{follow}
use thesis_b_cs_tu_berlin.EbpfUser.Follow.{is_there, IsKeyed, AllKeyed, fetch_lem}
use thesis_b_cs_tu_berlin.EbpfUser.Progress.{AllThere, times_of, from_next, follow_from}
use thesis_b_cs_tu_berlin.Measurement.{Happening, polls, Experiment, happen, happen_all, Arrived}
use thesis_b_cs_tu_berlin.Measurement.Sound.{begins, IsFresh, begins-Sound}
use thesis_b_cs_tu_berlin.Measurement.Kept.{AllData, happen_all-Kept}

module _ (times : BpfArray ℕ) (pkts : BpfArray Payload) (stats : BpfArray ℕ) where
  -- Rounds of the loop while no packet arrives.
  abbrev at_rest : pkts.Map → List ℕ → List (pkts.Map × ℕ)
  at_rest m [] = []
  at_rest m (now ∷ nows) = (m, now) ∷ at_rest m nows

  only_polls :
      (nows : List ℕ) (s : Experiment times pkts stats) (next : ℕ) (log : Log)
      → IsKeyed pkts s.maps.pkt_payload
      → follow pkts (at_rest s.maps.pkt_payload nows) s.next_uid s.log ≡ some (next, log)
      → happen_all times pkts stats (map polls nows) s
        ≡ some (record s { next_uid = next; log = log })
  unfolding happen_all happen follow
  only_polls [] s next log keyed e = cc
  only_polls (now ∷ nows) s next log keyed e =
      let m = s.maps.pkt_payload in
      let fetched = fetch_lem pkts m s.next_uid now s.log keyed in
      let s' : Experiment times pkts stats = record s {
        next_uid = if is_there pkts m s.next_uid then (s.next_uid + 1) % 2 ^ 32 else s.next_uid;
        log = if is_there pkts m s.next_uid then log_after s.log s.next_uid now else s.log;
      } in
      rw fetched (only_polls nows s' next log keyed (rw fetched at e))

  all_there :
      (k : ℕ) (nows : List ℕ) (m : pkts.Map)
      → ((j : ℕ) → j < k → is_there pkts m j ≡ true)
      → AllThere pkts k (at_rest m nows)
  all_there k [] m h = tt
  all_there k (now ∷ nows) m h = (h, all_there k nows m h)

  all_keyed : (nows : List ℕ) (m : pkts.Map) → IsKeyed pkts m → AllKeyed pkts (at_rest m nows)
  all_keyed [] m h = tt
  all_keyed (now ∷ nows) m h = (h, all_keyed nows m h)

  times_of-at_rest : (m : pkts.Map) (nows : List ℕ) → times_of pkts (at_rest m nows) ≡ nows
  times_of-at_rest m [] = refl
  times_of-at_rest m (now ∷ nows) = ap (λ t. now ∷ t) (times_of-at_rest m nows)

  length-at_rest : (m : pkts.Map) (nows : List ℕ) → length (at_rest m nows) ≡ length nows
  length-at_rest m [] = refl
  length-at_rest m (now ∷ nows) = ap suc (length-at_rest m nows)

  -- However packets and rounds of the loop alternate, from maps on that hold no packet to note: if every
  -- packet that the XDP program takes has a data payload with a uid of 32 bits, and the packets of the
  -- first `k` uids are among them, then once `k` more rounds have passed without another packet, all `k`
  -- are noted. Those that were not noted before get the times of these rounds in the order of their
  -- uids, and the earlier times stay. The payload map has room for `MAX_LOG_ENTRY` keys or more.
  pub notes_all :
      (k : ℕ) (es : List Happening) (nows : List ℕ) (m : Maps times pkts stats) (log : Log)
      → max_log_entry ≤ pkts.max_entries
      → IsFresh times pkts stats m
      → AllData es
      → ((j : ℕ) → j < k → Arrived j es)
      → k ≤ max_log_entry
      → k ≤ length nows
      → (mid : Experiment times pkts stats) × (s' : Experiment times pkts stats) × (happen_all times
            pkts stats es
            (begins times pkts stats m log)
          ≡ some mid)
        × (happen_all times pkts stats (map polls nows) mid ≡ some s')
        × (k ≤ s'.next_uid)
        × ((i : ℕ)
            → i < k
            → entry s'.log i
              ≡ (if ltb i mid.next_uid then entry mid.log i else get_or nows (i - mid.next_uid) 0))
  notes_all k es nows m log big fresh logged arrived hk enough =
      let start = begins-Sound times pkts stats m log fresh in
      let (mid, e, v) =
        happen_all-Kept times pkts stats big es (λ j. ⊥) (begins times pkts stats m log) logged
          (record { keyed = start.keyed; held = λ j never. absurd never }) in
      let held = mid.maps.pkt_payload in
      let (next, log', e', bound, stamps) =
        follow_from pkts k (at_rest held nows) mid.next_uid mid.log hk
          (omega (arith, length-at_rest held nows))
          (all_there k nows held (λ j h. v.held j (inr (arrived j h)) (omega arith)))
          (all_keyed nows held v.keyed) in
      (
        mid,
        record mid { next_uid = next; log = log' },
        e,
        only_polls nows mid next log' v.keyed e',
        bound,
        λ i h.
            stamps i h
            ∙ ap (λ ts. from_next pkts mid.log mid.next_uid ts i) (times_of-at_rest held nows),
      )
