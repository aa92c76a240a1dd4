-- ===== src/Xdp/Headers.antt =====
-- What the packets that the program goes on with look like, byte by byte.
use thesis_b_cs_tu_berlin.Prelude.{
  ℕ, ◌+◌, ◌-◌, ◌*◌, ◌%◌, ◌≤◌, ltb, if◌then◌else◌, ==_iff, Bool-cases, ◌≡◌, refl, sym, ap, subst,
  ◌∙◌, inl, inr, Bool, true, false, Option, some, arith,
}
use thesis_b_cs_tu_berlin.Prelude.Int.{ℤ, pos, negsuc}
use thesis_b_cs_tu_berlin.Params.{payload_size}
use thesis_b_cs_tu_berlin.Memory.{Packet, bswap16}
use thesis_b_cs_tu_berlin.Memory.Words.{load16-some}
use thesis_b_cs_tu_berlin.Parsing.{HdrCursor, Parsed, udphdr_size}
use thesis_b_cs_tu_berlin.Parsing.Vlan.{field16}
use thesis_b_cs_tu_berlin.Parsing.Safety.{IsSound, udp_ret, parsers_sound}
use thesis_b_cs_tu_berlin.Xdp.{
  ret_is, dest_is_ours, udp_is_ours, ip_is_ours, is_ours, ipproto_udp, eth_p_ip,
}

-- A UDP header at `at` to port 8080 with a length of 1032: the bytes 0x1F and 0x90, and the length field.
abbrev pub IsUdpHeader : Packet → ℕ → Type 0
IsUdpHeader p at =
    (field16 p (at + 2) ≡ 0x1F + 256 * 0x90)
    × (bswap16 (field16 p (at + 4)) ≡ 1032)
    × (at + 8 ≤ p.size)

-- An IPv4 header at `at`, with options or none, of protocol 17, and a UDP header behind it.
abbrev pub IsIpHeader : Packet → ℕ → Type 0
IsIpHeader p at =
    (p.bytes (at + 9) ≡ 17) × (20 ≤ p.bytes at % 16 * 4) × IsUdpHeader p (at + p.bytes at % 16 * 4)

-- An Ethernet header with at most two VLAN tags, and the type field 0x08, 0x00.
abbrev pub IsUdpTo8080 : Packet → Type 0
IsUdpTo8080 p = (k : ℕ) × (k ≤ 2) × (field16 p (12 + k * 4) ≡ 8) × IsIpHeader p (14 + k * 4)

both :
    (b : Bool) (o : Option Bool)
    → (if b then o else some false) ≡ some true
    → (b ≡ true) × (o ≡ some true)
both true o h = (refl, h)
both false o h = cc

ret_is-pos : (n k : ℕ) → ret_is (pos n) k ≡ true → n ≡ k
ret_is-pos n k h = (==_iff n k).0 h

-- A parser whose result is what is asked for has not refused.
accepts :
    (p : Packet) (nh : HdrCursor) (size len k : ℕ) (ret : ℤ) (r : Parsed)
    → IsSound p nh size len ret r
    → ret_is r.ret k ≡ true
    → (r.header ≡ some nh.pos)
      × (r.cursor.pos ≡ nh.pos + len)
      × (size ≤ len)
      × (r.cursor.pos ≤ p.size)
      × (ret_is ret k ≡ true)
accepts p nh size len k ret r (inl no_header) h =
    absurd (clash (ap (λ (x : Parsed). ret_is x.ret k) (sym no_header) ∙ h))
  where
    clash : false ≡ true → ⊥
    clash e = cc
accepts p nh size len k ret r (inr (at, end, least, inside, is)) h =
    (at, end, least, inside, ap (λ z. ret_is z k) (sym is) ∙ h)

dest_lem :
    (p : Packet) (r : Parsed) (at : ℕ)
    → r.header ≡ some at
    → at + 8 ≤ p.size
    → dest_is_ours p r ≡ some true
    → field16 p (at + 2) ≡ 0x1F + 256 * 0x90
unfolding dest_is_ours bswap16
dest_lem p r at e inside h =
    (==_iff (field16 p (at + 2)) 36895).0 (same (rw (e, load16-some p (at + 2) (omega arith)) at h))
  where
    same : {b : Bool} → some b ≡ some true → b ≡ true
    same e = cc

len_lem :
    (b : ℕ) → ret_is (if ltb b 8 then negsuc 0 else pos (b - 8)) payload_size ≡ true → b ≡ 1032
len_lem b h = elim (Bool-cases (ltb b 8)) [
  | inl short ↦ absurd (clash (rw short at h))
  | inr long ↦
      let n : b - 8 ≡ 1024 = ret_is-pos (b - 8) 1024 (rw long at h) in ground (arith, n, long)
]
  where
    clash : false ≡ true → ⊥
    clash e = cc

udp-IsUdpHeader :
    (p : Packet) (nh : HdrCursor) → udp_is_ours p nh ≡ some true → IsUdpHeader p nh.pos
unfolding udp_is_ours dest_is_ours
udp-IsUdpHeader p nh h =
    let (r, e, sound) = (parsers_sound p nh).6 in
    let (long, dest) = both (ret_is r.ret payload_size) (dest_is_ours p r) (rw e at h) in
    let (at, end, _, inside, is) =
      accepts p nh udphdr_size 8 payload_size (udp_ret p nh.pos) r sound long in
    (
      dest_lem p r nh.pos at (omega (arith, end, inside)) dest,
      len_lem (bswap16 (field16 p (nh.pos + 4))) is,
      omega (arith, end, inside),
    )

ip-IsIpHeader : (p : Packet) (nh : HdrCursor) → ip_is_ours p nh ≡ some true → IsIpHeader p nh.pos
unfolding ip_is_ours
ip-IsIpHeader p nh h =
    let (r, e, sound) = (parsers_sound p nh).2 in
    let (udp, rest) = both (ret_is r.ret ipproto_udp) (udp_is_ours p r.cursor) (rw e at h) in
    let (_, end, least, _, is) =
      accepts p nh 20 (p.bytes nh.pos % 16 * 4) ipproto_udp (pos (p.bytes (nh.pos + 9))) r sound
        udp in
    (
      ret_is-pos (p.bytes (nh.pos + 9)) 17 is,
      least,
      subst (IsUdpHeader p) end (udp-IsUdpHeader p r.cursor rest),
    )

pub is_ours-IsUdpTo8080 : (p : Packet) → is_ours p ≡ some true → IsUdpTo8080 p
unfolding is_ours bswap16
is_ours-IsUdpTo8080 p h =
    let (k, few, (r, e, sound)) = (parsers_sound p (record { pos = 0 })).0 in
    let (ip, rest) = both (ret_is r.ret (bswap16 eth_p_ip)) (ip_is_ours p r.cursor) (rw e at h) in
    let (_, end, _, _, is) =
      accepts p (record { pos = 0 }) 14 (14 + k * 4) (bswap16 eth_p_ip)
        (pos (field16 p (0 + 12 + k * 4))) r sound ip in
    (
      k,
      few,
      ap (field16 p) {x = 12 + k * 4} {y = 0 + 12 + k * 4} (omega arith)
          ∙ ret_is-pos (field16 p (0 + 12 + k * 4)) (bswap16 eth_p_ip) is,
      subst (IsIpHeader p) (end ∙ omega arith) (ip-IsIpHeader p r.cursor rest),
    )
