-- ===== src/Measurement/Kept.antt =====
-- What has arrived stays in the payload map for the user program to find.
use thesis_b_cs_tu_berlin.Prelude.{
  ℕ, ◌+◌, ◌%◌, ◌^◌, ◌≤◌, ◌<◌, if◌then◌else◌, ◌≡◌, refl, sym, subst, ◌⊎◌, inl, inr, true, some, List,
  [], ◌∷◌,
}
use thesis_b_cs_tu_berlin.Params.{max_log_entry}
use thesis_b_cs_tu_berlin.Memory.{Packet}
use thesis_b_cs_tu_berlin.Payload.{Payload, is_data_payload}
use thesis_b_cs_tu_berlin.Log.Entries.{log_after}
use thesis_b_cs_tu_berlin.Bpf.{BpfArray}
use thesis_b_cs_tu_berlin.Xdp.{Maps}
use thesis_b_cs_tu_berlin.Xdp.Effect.{payload_at_42, IsMeasured}
use thesis_b_cs_tu_berlin.EbpfUser.Follow.{is_there, IsKeyed, fetch_lem}
use thesis_b_cs_tu_berlin.Measurement.{
  Happening, arrives, polls, Experiment, happen, happen_all, Carries, Arrived,
}
use thesis_b_cs_tu_berlin.Measurement.Arrival.{
  PutIn, arrival_lem, there-own, there-keep, PutIn-IsKeyed,
}

-- A packet that the XDP program takes has a data payload with a uid of 32 bits.
abbrev pub AllData : List Happening → Type 0
AllData [] = Unit {0}
AllData (arrives p index now ∷ es) =
    (IsMeasured p → (is_data_payload (payload_at_42 p) ≡ true) × ((payload_at_42 p).uid < 2 ^ 32))
    × AllData es
AllData (polls now ∷ es) = AllData es

module _ (times : BpfArray ℕ) (pkts : BpfArray Payload) (stats : BpfArray ℕ)
    (big : max_log_entry ≤ pkts.max_entries) where
  -- The payload map holds packets under their own uids, among them all that have been `seen`.
  pub record Kept (seen : ℕ → Type 0) (s : Experiment times pkts stats) : Type 0 where
    pub keyed : IsKeyed pkts s.maps.pkt_payload
    pub held : (k : ℕ) → seen k → k < max_log_entry → is_there pkts s.maps.pkt_payload k ≡ true

  polls-Kept :
      (seen : ℕ → Type 0) (now : ℕ) (s : Experiment times pkts stats)
      → Kept seen s
      → (s' : Experiment times pkts stats) × (happen times pkts stats (polls now) s ≡ some s')
        × Kept seen s'
  unfolding happen
  polls-Kept seen now s v =
      let m = s.maps.pkt_payload in
      (
        record s {
          next_uid = if is_there pkts m s.next_uid then (s.next_uid + 1) % 2 ^ 32 else s.next_uid;
          log = if is_there pkts m s.next_uid then log_after s.log s.next_uid now else s.log;
        },
        rw (fetch_lem pkts m s.next_uid now s.log v.keyed) refl,
        record { keyed = v.keyed; held = v.held },
      )

  arrives-Kept :
      (seen : ℕ → Type 0) (p : Packet) (index now : ℕ) (s : Experiment times pkts stats)
      → (IsMeasured p
          → (is_data_payload (payload_at_42 p) ≡ true) × ((payload_at_42 p).uid < 2 ^ 32))
      → Kept seen s
      → (s' : Experiment times pkts stats) × (happen times pkts stats (arrives p index now) s
          ≡ some s')
        × Kept (λ k. seen k ⊎ Carries k p) s'
  unfolding happen
  arrives-Kept seen p index now s logged v =
      let (m', e, which) = arrival_lem times pkts stats p index now s.maps in
      (
        record s { maps = m' },
        rw e refl,
        elim which [
          | inl (yes_it, put) ↦ record {
            keyed = PutIn-IsKeyed times pkts stats p s.maps.pkt_payload m'.pkt_payload put v.keyed;
            held = λ k h small. put_or_kept m' yes_it put k small h;
          }
          | inr (other, same) ↦ record {
            keyed = subst (λ m. IsKeyed pkts m.pkt_payload) (sym same) v.keyed;
            held = λ k h small.
                subst (λ m. is_there pkts m.pkt_payload k ≡ true) (sym same) (kept other k small h);
          }
        ],
      )
    where
      put_or_kept :
          (m' : Maps times pkts stats)
          → IsMeasured p
          → PutIn times pkts stats p s.maps.pkt_payload m'.pkt_payload
          → (k : ℕ) → k < max_log_entry
          → seen k ⊎ Carries k p
          → is_there pkts m'.pkt_payload k ≡ true
      put_or_kept m' yes_it put k small (inl old) =
          there-keep times pkts stats p s.maps.pkt_payload m'.pkt_payload put k (logged yes_it).0
            (logged yes_it).1 small (v.held k old small)
      put_or_kept m' yes_it put k small (inr new) =
          there-own times pkts stats p s.maps.pkt_payload m'.pkt_payload put k new small big

      kept :
          ¬ IsMeasured p
          → (k : ℕ) → k < max_log_entry
          → seen k ⊎ Carries k p
          → is_there pkts s.maps.pkt_payload k ≡ true
      kept other k small (inl old) = v.held k old small
      kept other k small (inr new) = absurd (other new.measured)

  pub happen_all-Kept :
      (es : List Happening) (seen : ℕ → Type 0) (s : Experiment times pkts stats)
      → AllData es
      → Kept seen s
      → (s' : Experiment times pkts stats) × (happen_all times pkts stats es s ≡ some s')
        × Kept (λ k. seen k ⊎ Arrived k es) s'
  unfolding happen_all
  happen_all-Kept [] seen s h v = (
    s,
    refl,
    record {
      keyed = v.keyed;
      held = λ k had small. elim had [ inl old ↦ v.held k old small | inr never ↦ absurd never ];
    },
  )
  happen_all-Kept (arrives p index now ∷ es) seen s (h, hs) v =
      let (s', e, v') = arrives-Kept seen p index now s h v in
      let (s'', eqs, v'') = happen_all-Kept es (λ k. seen k ⊎ Carries k p) s' hs v' in
      (
        s'',
        rw e eqs,
        record { keyed = v''.keyed; held = λ k had small. v''.held k (regroup k had) small },
      )
    where
      regroup :
          (k : ℕ)
          → seen k ⊎ Arrived k (arrives p index now ∷ es)
          → (seen k ⊎ Carries k p) ⊎ Arrived k es
      regroup k (inl old) = inl (inl old)
      regroup k (inr (inl here)) = inl (inr here)
      regroup k (inr (inr after)) = inr after
  happen_all-Kept (polls now ∷ es) seen s hs v =
      let (s', e, v') = polls-Kept seen now s v in
      let (s'', eqs, v'') = happen_all-Kept es seen s' hs v' in (s'', rw e eqs, v'')
