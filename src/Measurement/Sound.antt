-- ===== src/Measurement/Sound.antt =====
-- The user program notes only what has arrived.
use mathlib.Core.Bool.{false≢true}
use native.Mathlib.Decide.{dec_lt}
use thesis_b_cs_tu_berlin.Prelude.{
  ℕ, ◌+◌, ◌%◌, ◌^◌, ◌≤◌, ◌<◌, Bool-cases, ◌≡◌, refl, sym, subst, ◌∙◌, ◌⊎◌, inl, inr, true, false,
  some, List, [], ◌∷◌, arith,
}
use thesis_b_cs_tu_berlin.Params.{max_log_entry}
use thesis_b_cs_tu_berlin.Memory.{Packet}
use thesis_b_cs_tu_berlin.Payload.{Payload}
use thesis_b_cs_tu_berlin.Log.{Log, entry}
use thesis_b_cs_tu_berlin.Log.Entries.{log_after, entry-log_after}
use thesis_b_cs_tu_berlin.Bpf.{BpfArray}
use thesis_b_cs_tu_berlin.Xdp.{Maps}
use thesis_b_cs_tu_berlin.EbpfUser.Follow.{is_there, IsKeyed, fetch_lem}
use thesis_b_cs_tu_berlin.EbpfUser.Progress.{there-lt}
use thesis_b_cs_tu_berlin.Measurement.{
  Happening, arrives, polls, Experiment, happen, happen_all, Carries, Arrived,
}
use thesis_b_cs_tu_berlin.Measurement.Arrival.{arrival_lem, PutIn-IsKeyed, there-new, entry→there}

module _ (times : BpfArray ℕ) (pkts : BpfArray Payload) (stats : BpfArray ℕ) where
  -- The payload map holds packets under their own uids and none that has not been `seen`, and `next_uid`
  -- has passed none but those; the log's entries from `next_uid` on are those of `start`.
  pub record Sound (seen : ℕ → Type 0) (start : Log) (s : Experiment times pkts stats)
      : Type 0 where
    pub keyed : IsKeyed pkts s.maps.pkt_payload
    pub held : (k : ℕ) → is_there pkts s.maps.pkt_payload k ≡ true → seen k
    pub noted : (k : ℕ) → k < s.next_uid → seen k
    pub next_fits : s.next_uid ≤ max_log_entry
    pub untouched : (k : ℕ) → s.next_uid ≤ k → k < max_log_entry → entry s.log k ≡ entry start k

  abbrev pub SeenAfter : (ℕ → Type 0) → Happening → ℕ → Type 0
  SeenAfter seen (arrives p index now) k = seen k ⊎ Carries k p
  SeenAfter seen (polls now) k = seen k

  arrives-Sound :
      (seen : ℕ → Type 0) (start : Log) (p : Packet) (index now : ℕ)
      (s : Experiment times pkts stats)
      → Sound seen start s
      → (s' : Experiment times pkts stats) × (happen times pkts stats (arrives p index now) s
          ≡ some s')
        × Sound (SeenAfter seen (arrives p index now)) start s'
  unfolding happen
  arrives-Sound seen start p index now s v =
      let (m', e, which) = arrival_lem times pkts stats p index now s.maps in
      (
        record s { maps = m' },
        rw e refl,
        record {
          keyed = elim which [
            | inl (yes_it, put) ↦
                PutIn-IsKeyed times pkts stats p s.maps.pkt_payload m'.pkt_payload put v.keyed
            | inr (other, same) ↦ subst (λ m. IsKeyed pkts m.pkt_payload) (sym same) v.keyed
          ];
          held = λ k there. elim which [
            | inl (yes_it, put) ↦
                new_or_old k (
                  there-new times pkts stats p s.maps.pkt_payload m'.pkt_payload put k yes_it there)
            | inr (other, same) ↦
                inl (v.held k (subst (λ m. is_there pkts m.pkt_payload k ≡ true) same there))
          ];
          noted = λ k h. inl (v.noted k h);
          next_fits = v.next_fits;
          untouched = v.untouched;
        },
      )
    where
      new_or_old :
          (k : ℕ) → Carries k p ⊎ (is_there pkts s.maps.pkt_payload k ≡ true) → seen k ⊎ Carries k p
      new_or_old k (inl new) = inr new
      new_or_old k (inr old) = inl (v.held k old)

  polls-Sound :
      (seen : ℕ → Type 0) (start : Log) (now : ℕ) (s : Experiment times pkts stats)
      → Sound seen start s
      → (s' : Experiment times pkts stats) × (happen times pkts stats (polls now) s ≡ some s')
        × Sound seen start s'
  unfolding happen
  polls-Sound seen start now s v = elim (Bool-cases (is_there pkts s.maps.pkt_payload s.next_uid)) [
    | inr absent ↦
        (s, rw (fetch_lem pkts s.maps.pkt_payload s.next_uid now s.log v.keyed, absent) refl, v)
    | inl present ↦
        let below = there-lt pkts s.maps.pkt_payload s.next_uid v.keyed present in
        let small : (s.next_uid + 1) % 2 ^ 32 ≡ s.next_uid + 1 = omega (arith, below) in
        (
          record s { next_uid = s.next_uid + 1; log = log_after s.log s.next_uid now },
          rw (fetch_lem pkts s.maps.pkt_payload s.next_uid now s.log v.keyed, present, small) refl,
          record {
            keyed = v.keyed;
            held = v.held;
            noted = λ k h. elim (dec_lt k s.next_uid) [
              | yes before ↦ v.noted k before
              | no last ↦ subst seen (omega arith) (v.held s.next_uid present)
            ];
            next_fits = omega (arith, below);
            untouched = λ k a b.
                entry-log_after s.log s.next_uid now k b
                ∙ ground (arith, v.untouched k (omega arith) b);
          },
        )
  ]

  pub happen-Sound :
      (seen : ℕ → Type 0) (start : Log) (e : Happening) (s : Experiment times pkts stats)
      → Sound seen start s
      → (s' : Experiment times pkts stats) × (happen times pkts stats e s ≡ some s')
        × Sound (SeenAfter seen e) start s'
  happen-Sound seen start (arrives p index now) s v = arrives-Sound seen start p index now s v
  happen-Sound seen start (polls now) s v = polls-Sound seen start now s v

  Sound-map :
      (seen seen' : ℕ → Type 0) (start : Log) (s : Experiment times pkts stats)
      → ((k : ℕ) → seen k → seen' k)
      → Sound seen start s
      → Sound seen' start s
  Sound-map seen seen' start s f v = record {
    keyed = v.keyed;
    held = λ k there. f k (v.held k there);
    noted = λ k h. f k (v.noted k h);
    next_fits = v.next_fits;
    untouched = v.untouched;
  }

  later :
      (seen : ℕ → Type 0) (e : Happening) (es : List Happening) (k : ℕ)
      → SeenAfter seen e k ⊎ Arrived k es
      → seen k ⊎ Arrived k (e ∷ es)
  later seen (arrives p index now) es k (inl (inl before)) = inl before
  later seen (arrives p index now) es k (inl (inr here)) = inr (inl here)
  later seen (arrives p index now) es k (inr after) = inr (inr after)
  later seen (polls now) es k h = h

  pub happen_all-Sound :
      (es : List Happening) (seen : ℕ → Type 0) (start : Log) (s : Experiment times pkts stats)
      → Sound seen start s
      → (s' : Experiment times pkts stats) × (happen_all times pkts stats es s ≡ some s')
        × Sound (λ k. seen k ⊎ Arrived k es) start s'
  unfolding happen_all
  happen_all-Sound [] seen start s v = (s, refl, Sound-map seen _ start s (λ k h. inl h) v)
  happen_all-Sound (e ∷ es) seen start s v =
      let (s', eq, v') = happen-Sound seen start e s v in
      let (s'', eqs, v'') = happen_all-Sound es (SeenAfter seen e) start s' v' in
      (s'', rw eq eqs, Sound-map _ _ start s'' (later seen e es) v'')

  -- The experiment's start, on maps that hold no packet that the user program would note.
  abbrev pub begins : Maps times pkts stats → Log → Experiment times pkts stats
  begins m log = record { maps = m; next_uid = 0; log = log }

  abbrev pub IsFresh : Maps times pkts stats → Type 0
  IsFresh m = (k : ℕ) → is_there pkts m.pkt_payload k ≡ false

  pub begins-Sound :
      (m : Maps times pkts stats) (log : Log) → IsFresh m → Sound (λ k. ⊥) log (begins m log)
  begins-Sound m log fresh = record {
    keyed = λ k pl e d small.
        absurd
          (false≢true (sym (fresh k) ∙ entry→there times pkts stats m.pkt_payload k pl e d small));
    held = λ k there. false≢true (sym (fresh k) ∙ there);
    noted = λ k h. absurd (omega arith);
    next_fits = omega arith;
    untouched = λ k a b. refl;
  }

  -- Whatever packets arrive and whenever the user program looks, from maps on that hold no packet to
  -- note: no access is out of bounds, `next_uid` has passed no uid but those that some packet with a data
  -- payload has brought, and the log's entries from `next_uid` on are as they were.
  pub notes_nothing_else :
      (es : List Happening) (m : Maps times pkts stats) (log : Log)
      → IsFresh m
      → (s' : Experiment times pkts stats) × (happen_all times pkts stats es (begins m log)
          ≡ some s')
        × ((k : ℕ) → k < s'.next_uid → Arrived k es)
        × ((k : ℕ) → s'.next_uid ≤ k → k < max_log_entry → entry s'.log k ≡ entry log k)
  notes_nothing_else es m log fresh =
      let (s', e, v) = happen_all-Sound es (λ k. ⊥) log (begins m log) (begins-Sound m log fresh) in
      (s', e, (λ k h. only_new k (v.noted k h)), v.untouched)
    where
      only_new : (k : ℕ) → ⊥ ⊎ Arrived k es → Arrived k es
      only_new k (inl h) = absurd h
      only_new k (inr h) = h
