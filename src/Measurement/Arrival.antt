-- ===== src/Measurement/Arrival.antt =====
-- What an arriving packet does to the payload map, as the user program sees it.
use thesis_b_cs_tu_berlin.Prelude.{
  ℕ, ◌^◌, ◌≤◌, ◌<◌, ltb, ◌==◌, if◌then◌else◌, lt→ltb, Bool-cases, Option-cases, ◌≡◌, refl, sym, ap,
  subst, ◌∙◌, ◌⊎◌, inl, inr, true, false, ◌&&◌, none, some, arith,
}
use mathlib.Core.Bool.{false≢true}
use thesis_b_cs_tu_berlin.Params.{max_log_entry}
use thesis_b_cs_tu_berlin.Memory.{Packet}
use thesis_b_cs_tu_berlin.Payload.{Payload, is_data_payload}
use thesis_b_cs_tu_berlin.Bpf.{BpfArray}
use thesis_b_cs_tu_berlin.Xdp.{Maps, xdp_sock_prog, xdp_pass, map_key}
use thesis_b_cs_tu_berlin.Xdp.Effect.{
  payload_at_42, IsMeasured, measured?, xdp_sock_prog_measured, xdp_sock_prog_total,
}
use thesis_b_cs_tu_berlin.EbpfUser.Follow.{is_there, IsKeyed}
use thesis_b_cs_tu_berlin.Measurement.{Carries}

module _ (times : BpfArray ℕ) (pkts : BpfArray Payload) (stats : BpfArray ℕ) where
  -- The payload map after the packet: unchanged, or with the payload under its key.
  abbrev pub PutIn : Packet → pkts.Map → pkts.Map → Type 0
  PutIn p m m' =
      (j : ℕ)
      → pkts.lookup m' j ≡ (
          if j == map_key (payload_at_42 p) && ltb j pkts.max_entries
          then some (payload_at_42 p)
          else pkts.lookup m j)

  pub arrival_lem :
      (p : Packet) (index now : ℕ) (m : Maps times pkts stats)
      → (m' : Maps times pkts stats) × (xdp_sock_prog times pkts stats p index now m
          ≡ some (xdp_pass, m'))
        × ((IsMeasured p × PutIn p m.pkt_payload m'.pkt_payload) ⊎ ((¬ IsMeasured p) × (m' ≡ m)))
  arrival_lem p index now m = elim (measured? p) [
    | inl yes_it ↦
        let (m', e, _, put, _, _) = xdp_sock_prog_measured times pkts stats p index now m yes_it in
        (m', e, inl (yes_it, put))
    | inr other ↦
        let (m', e, which) = xdp_sock_prog_total times pkts stats p index now m in
        elim which [ inl yes_it ↦ absurd (other yes_it) | inr same ↦ (m', e, inr (other, same)) ]
  ]

  there→entry :
      (m : pkts.Map) (k : ℕ)
      → is_there pkts m k ≡ true
      → (pl : Payload) × (pkts.lookup m k ≡ some pl)
        × (is_data_payload pl ≡ true)
        × (pl.uid < max_log_entry)
  there→entry m k there = elim (Option-cases (pkts.lookup m k)) [
    | inl e ↦ absurd (false≢true (sym (absent e) ∙ there))
    | inr (pl, e) ↦ (
      pl,
      e,
      ground (arith, sym (present pl e) ∙ there),
      ground (arith, sym (present pl e) ∙ there),
    )
  ]
    where
      absent : pkts.lookup m k ≡ none → is_there pkts m k ≡ false
      absent e = rw (e, is_there) refl

      present :
          (pl : Payload)
          → pkts.lookup m k ≡ some pl
          → is_there pkts m k ≡ (is_data_payload pl && ltb pl.uid max_log_entry)
      present pl e = rw (e, is_there) refl

  pub entry→there :
      (m : pkts.Map) (k : ℕ) (pl : Payload)
      → pkts.lookup m k ≡ some pl
      → is_data_payload pl ≡ true
      → pl.uid < max_log_entry
      → is_there pkts m k ≡ true
  entry→there m k pl e d small = rw (e, is_there, d) (lt→ltb _ _ small)

  module _ (p : Packet) (m m' : pkts.Map) (put : PutIn p m m') where
    found_at :
        (k : ℕ) (pl : Payload)
        → pkts.lookup m' k ≡ some pl
        → ((k ≡ map_key (payload_at_42 p)) × (pl ≡ payload_at_42 p)) ⊎ (pkts.lookup m k ≡ some pl)
    found_at k pl e = elim (Bool-cases (k == map_key (payload_at_42 p) && ltb k pkts.max_entries)) [
      | inl here ↦ inl (ground arith, same (sym e ∙ put k ∙ rw here refl))
      | inr other ↦ inr (sym (put k ∙ rw other refl) ∙ e)
    ]
      where
        same : some pl ≡ some (payload_at_42 p) → pl ≡ payload_at_42 p
        same e = cc

    pub PutIn-IsKeyed : IsKeyed pkts m → IsKeyed pkts m'
    PutIn-IsKeyed keyed k pl e d small = elim (found_at k pl e) [
      | inl (at, same) ↦ omega (arith, at, ap (λ q. q.uid) same)
      | inr old ↦ keyed k pl old d small
    ]

    pub there-new :
        (k : ℕ)
        → IsMeasured p
        → is_there pkts m' k ≡ true
        → Carries k p ⊎ (is_there pkts m k ≡ true)
    there-new k yes_it there =
        let (pl, e, d, small) = there→entry m' k there in
        elim (found_at k pl e) [
          | inl (at, same) ↦ inl (record {
            measured = yes_it;
            is_data = subst (λ q. is_data_payload q ≡ true) same d;
            uid_is = omega (arith, at, ap (λ q. q.uid) same);
          })
          | inr old ↦ inr (entry→there m k pl old d small)
        ]

    -- The packet's own entry.
    pub there-own :
        (k : ℕ)
        → Carries k p
        → k < max_log_entry
        → max_log_entry ≤ pkts.max_entries
        → is_there pkts m' k ≡ true
    there-own k c small big =
        let pl = payload_at_42 p in
        let at : (k == map_key pl && ltb k pkts.max_entries) ≡ true = ground (arith, c.uid_is) in
        entry→there m' k pl (put k ∙ rw at refl) c.is_data (omega (arith, c.uid_is))

    -- A data packet whose uid is a key takes no other one's place.
    pub there-keep :
        (k : ℕ)
        → is_data_payload (payload_at_42 p) ≡ true
        → (payload_at_42 p).uid < 2 ^ 32
        → k < max_log_entry
        → is_there pkts m k ≡ true
        → is_there pkts m' k ≡ true
    there-keep k d wide small there =
        let pl = payload_at_42 p in
        elim (Bool-cases (k == map_key pl && ltb k pkts.max_entries)) [
          | inl here ↦ entry→there m' k pl (put k ∙ rw here refl) d (ground (arith, here))
          | inr other ↦
              let (old, e, d', small') = there→entry m k there in
              entry→there m' k old (put k ∙ rw other e) d' small'
        ]
