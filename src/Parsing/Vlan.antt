-- ===== src/Parsing/Vlan.antt =====
-- `parse_ethhdr_vlan`: which tags it skips, and what it returns.
use thesis_b_cs_tu_berlin.Prelude.{
  ℕ, zero, suc, ◌+◌, ◌*◌, ◌%◌, ◌^◌, ◌≤◌, ◌<◌, ltb, ltb→lt, Bool-cases, ◌≡◌, refl, ap, subst, ◌∙◌,
  ◌⊎◌, inl, inr, true, false, Option, some, List, [], ◌∷◌, ◌++◌, append-nil, append_assoc, arith,
}
use thesis_b_cs_tu_berlin.Prelude.Int.{ℤ}
use thesis_b_cs_tu_berlin.Memory.{Packet, bswap16}
use thesis_b_cs_tu_berlin.Memory.Words.{load16-some}
use thesis_b_cs_tu_berlin.Parsing.{
  HdrCursor, refused, proto_is_vlan, VlanLoop, vlan_loop, parse_ethhdr_vlan, parse_ethhdr,
  vlan_hdr_size, ethhdr_size, vlan_max_depth,
}

-- The two bytes at `a`, as the machine reads them.
abbrev pub field16 : Packet → ℕ → ℕ
field16 p a = p.bytes a + 256 * p.bytes (a + 1)

-- The VLAN ids of the `k` tags behind the type field at `a`.
abbrev pub vlan_ids : Packet → ℕ → ℕ → List ℕ
vlan_ids p a zero = []
vlan_ids p a (suc k) = (bswap16 (field16 p (a + 2)) % 2 ^ 12) ∷ vlan_ids p (a + vlan_hdr_size) k

-- The walk of at most `limit` tags from the type field at `a` has ended after `k` of them, with the
-- type `proto` and the next byte at `at`.
pub record Walked (p : Packet) (a limit k proto at : ℕ) : Type 0 where
  pub within : k ≤ limit
  pub stops_at : at ≡ a + 2 + k * vlan_hdr_size
  pub inside : at ≤ p.size
  pub last_type : proto ≡ field16 p (a + k * vlan_hdr_size)
  pub all_tags : (i : ℕ) → i < k → proto_is_vlan (field16 p (a + i * vlan_hdr_size)) ≡ true
  pub ended : (proto_is_vlan proto ≡ false) ⊎ (k ≡ limit) ⊎ (p.size < at + vlan_hdr_size)

abbrev Ended : Packet → ℕ → ℕ → ℕ → ℕ → Type 0
Ended p limit k proto at =
    (proto_is_vlan proto ≡ false) ⊎ (k ≡ limit) ⊎ (p.size < at + vlan_hdr_size)

stop_here :
    (p : Packet) (a limit proto at : ℕ)
    → a + 2 ≤ p.size
    → at ≡ a + 2
    → proto ≡ field16 p a
    → Ended p limit 0 proto at
    → Walked p a limit 0 proto at
stop_here p a limit proto at h e t stop = record {
  within = omega arith;
  stops_at = omega arith;
  inside = omega arith;
  last_type = t ∙ ap (field16 p) {x = a} {y = a + 0 * vlan_hdr_size} (omega arith);
  all_tags = λ i hi. absurd (omega arith);
  ended = stop;
}

one_more :
    (p : Packet) (a limit k proto at : ℕ)
    → proto_is_vlan (field16 p a) ≡ true
    → Walked p (a + vlan_hdr_size) limit k proto at
    → Walked p a (suc limit) (suc k) proto at
one_more p a limit k proto at tagged w = record {
  within = omega (arith, w.within);
  stops_at = omega (arith, w.stops_at);
  inside = w.inside;
  last_type =
      w.last_type
      ∙ ap (field16 p) {x = a + vlan_hdr_size + k * vlan_hdr_size} {y = a + suc k * vlan_hdr_size}
          (omega arith);
  all_tags = tags;
  ended = elim w.ended [
    | inl plain ↦ inl plain
    | inr (inl last) ↦ inr (inl (ap suc last))
    | inr (inr short) ↦ inr (inr short)
  ];
}
  where
    tags : (i : ℕ) → i < suc k → proto_is_vlan (field16 p (a + i * vlan_hdr_size)) ≡ true
    tags zero hi =
        subst (λ x. proto_is_vlan (field16 p x) ≡ true) {x = a} {y = a + 0 * vlan_hdr_size}
          (omega arith) tagged
    tags (suc i) hi =
        subst (λ x. proto_is_vlan (field16 p x) ≡ true) {x = a + vlan_hdr_size + i * vlan_hdr_size}
          {y = a + suc i * vlan_hdr_size} (omega arith) (w.all_tags i (omega arith))

abbrev Walks : Packet → ℕ → ℕ → List ℕ → Option VlanLoop → Type 0
Walks p rounds a ids o =
    (k proto at : ℕ) × (o
      ≡ some (record { h_proto = proto; vlh = at; ids = ids ++ vlan_ids p a k }))
    × Walked p a rounds k proto at

stops :
    (p : Packet) (rounds a proto at : ℕ) (ids : List ℕ)
    → Walked p a rounds 0 proto at
    → Walks p rounds a ids (some (record { h_proto = proto; vlh = at; ids = ids }))
stops p rounds a proto at ids w = (0, proto, at, rw append-nil, w)

goes_on :
    (p : Packet) (rounds a : ℕ) (ids : List ℕ) (o : Option VlanLoop)
    → proto_is_vlan (field16 p a) ≡ true
    → Walks p rounds (a + vlan_hdr_size) (ids ++ (bswap16 (field16 p (a + 2)) % 2 ^ 12) ∷ []) o
    → Walks p (suc rounds) a ids o
goes_on p rounds a ids o tagged (k, proto, at, e, w) =
    (suc k, proto, at, e ∙ rw (append_assoc ids), one_more p a rounds k proto at tagged w)

loop-Walks :
    (p : Packet) (rounds a proto at : ℕ) (ids : List ℕ)
    → a + 2 ≤ p.size
    → at ≡ a + 2
    → proto ≡ field16 p a
    → Walks p rounds a ids (vlan_loop p rounds (record { h_proto = proto; vlh = at; ids = ids }))
unfolding vlan_loop
loop-Walks p zero a proto at ids h e t =
    stops p zero a proto at ids (stop_here p a zero proto at h e t (inr (inl refl)))
loop-Walks p (suc rounds) a proto at ids h e t = elim (Bool-cases (proto_is_vlan proto)) [
  | inr plain ↦
      rw plain (
        stops p (suc rounds) a proto at ids (stop_here p a (suc rounds) proto at h e t (inl plain)))
  | inl tagged ↦ elim (Bool-cases (ltb p.size (at + vlan_hdr_size))) [
    | inl short ↦
        rw (tagged, short)
          (stops p (suc rounds) a proto at ids
            (stop_here p a (suc rounds) proto at h e t (inr (inr (ltb→lt _ _ short)))))
    | inr long ↦
        rw (tagged, long, load16-some p at (ground arith), load16-some p (at + 2) (ground arith))
          (goes_on p rounds a ids _ (subst (λ x. proto_is_vlan x ≡ true) t tagged) (
            subst
              (λ x.
                Walks p rounds (a + vlan_hdr_size) (ids ++ (bswap16 (field16 p x) % 2 ^ 12) ∷ []) (
                  vlan_loop p rounds (record {
                    h_proto = field16 p (at + 2);
                    vlh = at + vlan_hdr_size;
                    ids = ids ++ (bswap16 (field16 p at) % 2 ^ 12) ∷ [];
                  })))
              e
              (loop-Walks p rounds (a + vlan_hdr_size) (field16 p (at + 2)) (at + vlan_hdr_size) _
                (ground arith) (omega arith) (ap (field16 p) (omega arith)))))
  ]
]

pub parse_ethhdr_vlan_lem :
    (p : Packet) (nh : HdrCursor)
    → ((p.size < nh.pos + ethhdr_size) × (parse_ethhdr_vlan p nh ≡ some (refused nh, [])))
      ⊎ ((nh.pos + ethhdr_size ≤ p.size)
          × (k proto at : ℕ) × (parse_ethhdr_vlan p nh
              ≡ some (
                record { cursor = record { pos = at }; header = some nh.pos; ret = ℤ.pos proto },
                vlan_ids p (nh.pos + 12) k,
              ))
          × Walked p (nh.pos + 12) vlan_max_depth k proto at)
unfolding parse_ethhdr_vlan
parse_ethhdr_vlan_lem p nh = elim (Bool-cases (ltb p.size (nh.pos + ethhdr_size))) [
  | inl short ↦ inl (ltb→lt _ _ short, rw short)
  | inr long ↦
      let (k, proto, at, e, w) =
        loop-Walks p vlan_max_depth (nh.pos + 12) (field16 p (nh.pos + 12)) (nh.pos + ethhdr_size)
          [] (ground arith) (omega arith) refl in
      inr (ground arith, k, proto, at, rw (long, load16-some p (nh.pos + 12) (ground arith), e), w)
]

-- The same for `parse_ethhdr`, which drops the ids.
pub parse_ethhdr_lem :
    (p : Packet) (nh : HdrCursor)
    → ((p.size < nh.pos + ethhdr_size) × (parse_ethhdr p nh ≡ some (refused nh)))
      ⊎ ((nh.pos + ethhdr_size ≤ p.size)
          × (k proto at : ℕ) × (parse_ethhdr p nh
              ≡ some (record {
                cursor = record { pos = at };
                header = some nh.pos;
                ret = ℤ.pos proto;
              }))
          × Walked p (nh.pos + 12) vlan_max_depth k proto at)
unfolding parse_ethhdr
parse_ethhdr_lem p nh = elim (parse_ethhdr_vlan_lem p nh) [
  | inl (short, e) ↦ inl (short, rw e)
  | inr (long, k, proto, at, e, w) ↦ inr (long, k, proto, at, rw e, w)
]
