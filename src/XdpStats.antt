-- ===== src/XdpStats.antt =====
-- eBPF_app/common/xdp_stats_kern.h: packets and bytes counted for each XDP action.
use thesis_b_cs_tu_berlin.Prelude.{
  ℕ, ◌+◌, ◌%◌, ◌^◌, ◌≤◌, ◌<◌, ltb, leb, ◌==◌, if◌then◌else◌, ltb→lt, leb→le, ==_iff, Bool-cases,
  Option-cases, ◌≡◌, refl, sym, ◌∙◌, inl, inr, true, false, ◌&&◌, Option, none, some, arith,
}
use thesis_b_cs_tu_berlin.Bpf.{BpfArray}

-- `XDP_REDIRECT + 1`
abbrev pub xdp_action_max : ℕ
xdp_action_max = 5

abbrev pub xdp_aborted : ℕ
xdp_aborted = 0

-- `struct datarec`, of two `__u64`.
pub record DataRec : Type 0 where
  pub rx_packets : ℕ
  pub rx_bytes : ℕ

-- One more packet of `size` bytes.
abbrev pub bump : ℕ → DataRec → DataRec
bump size rec = record {
  rx_packets = (rec.rx_packets + 1) % 2 ^ 64;
  rx_bytes = (rec.rx_bytes + size) % 2 ^ 64;
}

module _ (stats : BpfArray DataRec) where
  -- The part below the first test; `stats` is this CPU's part of the map.
  abbrev pub record_in : stats.Map → ℕ → ℕ → Option DataRec → ℕ × stats.Map
  record_in m action size none = (xdp_aborted, m)
  record_in m action size (some rec) = (action, stats.update m action (bump size rec))

  -- `size` is `data_end - data`.
  unfoldable pub xdp_stats_record_action : stats.Map → ℕ → ℕ → ℕ × stats.Map
  xdp_stats_record_action m action size =
      if leb xdp_action_max action
      then (xdp_aborted, m)
      else record_in m action size (stats.lookup m action)

  -- The counters of action `j` after a packet that got `action`.
  abbrev pub counted : ℕ → ℕ → ℕ → Option DataRec → Option DataRec
  counted action size j none = none
  counted action size j (some rec) = some (
      if j == action
      then (record {
        rx_packets = (rec.rx_packets + 1) % 2 ^ 64;
        rx_bytes = (rec.rx_bytes + size) % 2 ^ 64;
      })
      else rec)

  counted-other :
      (action size j : ℕ) (o : Option DataRec) → (j == action) ≡ false → counted action size j o ≡ o
  counted-other action size j none e = refl
  counted-other action size j (some rec) e = rw e refl

  no_key :
      (m : stats.Map) (action size j : ℕ)
      → stats.max_entries ≤ action
      → stats.lookup m j ≡ counted action size j (stats.lookup m j)
  no_key m action size j h = elim (Bool-cases (j == action)) [
    | inl same ↦ rw ((==_iff j action).0 same, stats.lookup_out m action h) refl
    | inr other ↦ sym (counted-other action size j (stats.lookup m j) other)
  ]

  one_key :
      (m : stats.Map) (action size j : ℕ) (rec : DataRec)
      → ltb action stats.max_entries ≡ true
      → stats.lookup m action ≡ some rec
      → stats.lookup (stats.update m action (bump size rec)) j
        ≡ counted action size j (stats.lookup m j)
  one_key m action size j rec h e = elim (Bool-cases (j == action)) [
    | inl same ↦
        rw ((==_iff j action).0 same, stats.lookup-update m action action (bump size rec), e, h)
          (is_bumped action)
    | inr other ↦
        stats.lookup-update m action j (bump size rec)
        ∙ rw other (sym (counted-other action size j (stats.lookup m j) other))
  ]
    where
      is_bumped :
          (a : ℕ)
          → (if (a == a) && true then some (bump size rec) else some rec)
            ≡ some (if a == a then bump size rec else rec)
      is_bumped a = elim (Bool-cases (a == a)) [ inl y ↦ rw y refl | inr n ↦ rw n refl ]

  -- The function hands on an action that is one, and counts the packet and its bytes under it in 64
  -- bits; for any other number it returns XDP_ABORTED. No other counter changes.
  pub xdp_stats_record_action_lem :
      (m : stats.Map) (action size : ℕ)
      → stats.max_entries ≡ xdp_action_max
      → (m' : stats.Map) × (xdp_stats_record_action m action size
          ≡ (if ltb action xdp_action_max then action else xdp_aborted, m'))
        × ((j : ℕ) → stats.lookup m' j ≡ counted action size j (stats.lookup m j))
  unfolding xdp_stats_record_action
  xdp_stats_record_action_lem m action size full = elim (Bool-cases (leb xdp_action_max action)) [
    | inl out ↦
        let past : ltb action xdp_action_max ≡ false = ground (arith, out) in
        (m, rw (out, past), λ j. no_key m action size j (omega (arith, leb→le _ _ out)))
    | inr inside ↦
        let before : ltb action xdp_action_max ≡ true = ground (arith, inside) in
        elim (Option-cases (stats.lookup m action)) [
          | inl e ↦ absurd (missing (omega (arith, ltb→lt _ _ before)) e)
          | inr (rec, e) ↦ (
            stats.update m action (bump size rec),
            rw (inside, e, before, record_in),
            λ j. one_key m action size j rec (rw full before) e,
          )
        ]
  ]
    where
      missing : action < stats.max_entries → stats.lookup m action ≡ none → ⊥
      missing h e = let (rec, f) = stats.lookup_in m action h in cc
