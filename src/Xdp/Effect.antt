-- ===== src/Xdp/Effect.antt =====
-- What the program does to its maps.
use thesis_b_cs_tu_berlin.Prelude.{
  ℕ, ◌+◌, ◌%◌, ◌^◌, ◌≤◌, ltb, leb, ◌==◌, if◌then◌else◌, ltb→lt, leb→le, le→leb, Bool-cases, ==_iff,
  sym, ◌∙◌, Option-cases, ◌≡◌, refl, ◌⊎◌, inl, inr, Bool, true, false, ◌&&◌, Option, none, some,
  arith,
}
use thesis_b_cs_tu_berlin.Params.{payload_size}
use thesis_b_cs_tu_berlin.Memory.{Packet, shift}
use thesis_b_cs_tu_berlin.Payload.{Payload, decode}
use thesis_b_cs_tu_berlin.Bpf.{BpfArray}
use thesis_b_cs_tu_berlin.Xdp.{
  is_ours, load_payload, map_key, xdp_pass, Maps, stamp, count_up, store_payload, xdp_sock_prog,
}
use thesis_b_cs_tu_berlin.Xdp.Accept.{is_ours-Decides}
use thesis_b_cs_tu_berlin.Xdp.Headers.{IsUdpTo8080, is_ours-IsUdpTo8080}

-- The payload that the program takes the packet to have.
abbrev pub payload_at_42 : Packet → Payload
payload_at_42 p = decode (shift p.bytes 42)

-- The packet has passed the parsing and is long enough.
abbrev pub IsMeasured : Packet → Type 0
IsMeasured p = (is_ours p ≡ some true) × (42 + payload_size ≤ p.size)

pub load_payload-some :
    (p : Packet) → 42 + payload_size ≤ p.size → load_payload p ≡ some (payload_at_42 p)
unfolding load_payload
load_payload-some p h = ground arith

absent_key :
    {V : Type 0} (a : BpfArray V) (m : a.Map) (k : ℕ)
    → a.lookup m k ≡ none
    → ltb k a.max_entries ≡ false
absent_key a m k e = elim (Bool-cases (ltb k a.max_entries)) [
  | inl here ↦ let (v, f) = a.lookup_in m k (ltb→lt _ _ here) in absurd (clash f e)
  | inr out ↦ out
]
  where
    clash : {A : Type 0} {o : Option A} {v : A} → o ≡ some v → o ≡ none → ⊥
    clash f e = cc

present_key :
    {V : Type 0} (a : BpfArray V) (m : a.Map) (k : ℕ) (v : V)
    → a.lookup m k ≡ some v
    → ltb k a.max_entries ≡ true
present_key a m k v e = elim (Bool-cases (ltb k a.max_entries)) [
  | inl here ↦ here
  | inr out ↦ let f = a.lookup_out m k (ground (arith, out)) in absurd (clash e f)
]
  where
    clash : {A : Type 0} {o : Option A} {v : A} → o ≡ some v → o ≡ none → ⊥
    clash f e = cc

-- What a count of the packets of queue `index` makes of the entry of queue `j`.
abbrev pub one_more : ℕ → ℕ → Option ℕ → Option ℕ
one_more index j none = none
one_more index j (some count) = some (if j == index then (count + 1) % 2 ^ 32 else count)

one_more-other : (index j : ℕ) (o : Option ℕ) → (j == index) ≡ false → one_more index j o ≡ o
one_more-other index j none e = refl
one_more-other index j (some count) e = rw e refl

pub measured? : (p : Packet) → IsMeasured p ⊎ ¬ IsMeasured p
measured? p = let (b, e) = is_ours-Decides p in by_decision b e
  where
    by_decision : (b : Bool) → is_ours p ≡ some b → IsMeasured p ⊎ ¬ IsMeasured p
    by_decision false e = inr (λ v. ground (arith, v.0))
    by_decision true e = elim (Bool-cases (leb (42 + payload_size) p.size)) [
      | inl long ↦ inl (e, leb→le _ _ long)
      | inr short ↦ inr (λ v. ground (arith, v.1))
    ]

module _ (times : BpfArray ℕ) (pkts : BpfArray Payload) (stats : BpfArray ℕ) where
  lookup-stamp :
      (m : times.Map) (key now j : ℕ)
      → times.lookup (stamp times pkts stats m key now) j
        ≡ (if j == key && ltb j times.max_entries then some now else times.lookup m j)
  lookup-stamp m key now j = elim (Option-cases (times.lookup m key)) [
    | inl e ↦ rw (e, stamp) (ground (arith, absent_key times m key e))
    | inr (old, e) ↦ rw (e, stamp) (ground (arith, times.lookup-update m key j now))
  ]

  lookup-count_up :
      (m : stats.Map) (index j : ℕ)
      → stats.lookup (count_up times pkts stats m index) j ≡ one_more index j (stats.lookup m j)
  lookup-count_up m index j = elim (Option-cases (stats.lookup m index)) [
    | inl e ↦
        rw (e, count_up)
          (elim (Bool-cases (j == index)) [
            | inl here ↦ rw ((==_iff j index).0 here, e) refl
            | inr other ↦ sym (one_more-other index j (stats.lookup m j) other)
          ])
    | inr (count, e) ↦
        rw (e, count_up)
          (elim (Bool-cases (j == index)) [
            | inl here ↦
                rw ((==_iff j index).0 here, e)
                  (ground (
                    arith,
                    present_key stats m index count e,
                    stats.lookup-update m index index ((count + 1) % 2 ^ 32),
                  ))
            | inr other ↦
                stats.lookup-update m index j ((count + 1) % 2 ^ 32)
                ∙ rw other (sym (one_more-other index j (stats.lookup m j) other))
          ])
  ]

  measured_runs :
      (p : Packet) (index now : ℕ) (m : Maps times pkts stats)
      → IsMeasured p
      → xdp_sock_prog times pkts stats p index now m
        ≡ some (xdp_pass, store_payload times pkts stats (payload_at_42 p) index now m)
  unfolding xdp_sock_prog
  measured_runs p index now m (ours, long) =
      let past : leb 106 p.size ≡ true = le→leb _ _ (omega arith) in
      rw (ours, past, le→leb (42 + payload_size) p.size long, load_payload-some p long)

  -- A packet that passes the program's tests and has 1066 bytes at least is IPv4, behind at most two VLAN tags,
  -- and UDP to port 8080 with a length field of 1032. It is passed on; if the low 32 bits of the uid that byte
  -- 42 begins a payload with are a key, the key gets the time and that payload; every other key keeps its own. The packet counter of its receive queue, if there
  -- is one, goes up by one in 32 bits, and the other counters stay.
  pub xdp_sock_prog_measured :
      (p : Packet) (index now : ℕ) (m : Maps times pkts stats)
      → IsMeasured p
      → (m' : Maps times pkts stats) × (xdp_sock_prog times pkts stats p index now m
          ≡ some (xdp_pass, m'))
        × ((j : ℕ)
            → times.lookup m'.uid_timestamps j ≡ (
                if j == (payload_at_42 p).uid % 2 ^ 32 && ltb j times.max_entries
                then some now
                else times.lookup m.uid_timestamps j))
        × ((j : ℕ)
            → pkts.lookup m'.pkt_payload j ≡ (
                if j == (payload_at_42 p).uid % 2 ^ 32 && ltb j pkts.max_entries
                then some (payload_at_42 p)
                else pkts.lookup m.pkt_payload j))
        × ((j : ℕ) → stats.lookup m'.xdp_stats j ≡ one_more index j (stats.lookup m.xdp_stats j))
        × IsUdpTo8080 p
  unfolding store_payload
  xdp_sock_prog_measured p index now m v = (
    store_payload times pkts stats (payload_at_42 p) index now m,
    measured_runs p index now m v,
    λ j. lookup-stamp m.uid_timestamps (map_key (payload_at_42 p)) now j,
    λ j.
        ground
          (arith, pkts.lookup-update m.pkt_payload (map_key (payload_at_42 p)) j (payload_at_42 p)),
    λ j. lookup-count_up m.xdp_stats index j,
    is_ours-IsUdpTo8080 p v.0,
  )

  -- A packet that is not measured is passed on and leaves the maps as they were.
  xdp_sock_prog_other :
      (p : Packet) (index now : ℕ) (m : Maps times pkts stats)
      → ¬ IsMeasured p
      → xdp_sock_prog times pkts stats p index now m ≡ some (xdp_pass, m)
  unfolding xdp_sock_prog
  xdp_sock_prog_other p index now m v = let (b, e) = is_ours-Decides p in rw e (skip b e _)
    where
      skip :
          (b : Bool)
          → is_ours p ≡ some b
          → (o : Option (ℕ × Maps times pkts stats))
          → (if b && (leb 106 p.size && leb (42 + payload_size) p.size)
              then o
              else some (xdp_pass, m))
            ≡ some (xdp_pass, m)
      skip false e o = refl
      skip true e o = elim (Bool-cases (leb 106 p.size && leb (42 + payload_size) p.size)) [
        | inl long ↦ absurd (v (e, ground arith))
        | inr short ↦ rw short
      ]

  -- On every packet the program ends with XDP_PASS, with every read inside the packet, and it leaves
  -- the maps as they were unless the packet is a measured one.
  pub xdp_sock_prog_total :
      (p : Packet) (index now : ℕ) (m : Maps times pkts stats)
      → (m' : Maps times pkts stats) × (xdp_sock_prog times pkts stats p index now m
          ≡ some (xdp_pass, m'))
        × (IsMeasured p ⊎ (m' ≡ m))
  xdp_sock_prog_total p index now m = elim (measured? p) [
    | inl yes_it ↦ (
      store_payload times pkts stats (payload_at_42 p) index now m,
      measured_runs p index now m yes_it,
      inl yes_it,
    )
    | inr other ↦ (m, xdp_sock_prog_other p index now m other, inr refl)
  ]
