-- ===== src/Parsing/Safety.antt =====
-- No parser reads past the packet's end, and each leaves the cursor inside the packet.
use thesis_b_cs_tu_berlin.Prelude.{
  ℕ, false, ◌+◌, ◌-◌, ◌*◌, ◌/◌, ◌%◌, ◌≤◌, ◌<◌, ltb, if◌then◌else◌, Bool-cases, ◌≡◌, refl, ap, subst,
  ◌⊎◌, inl, inr, ◌||◌, Option, some, arith,
}
use thesis_b_cs_tu_berlin.Prelude.Int.{ℤ, pos, negsuc}
use thesis_b_cs_tu_berlin.Memory.{Packet, load8, bswap16, ◌>>=◌}
use thesis_b_cs_tu_berlin.Memory.Words.{load8-some, load16-some}
use thesis_b_cs_tu_berlin.Parsing.Vlan.{field16, parse_ethhdr_lem}
use thesis_b_cs_tu_berlin.Parsing.{
  HdrCursor, Parsed, refused, accepted, parse_ethhdr, parse_ip6hdr, parse_iphdr, parse_icmp6hdr,
  parse_icmphdr, parse_icmphdr_common, parse_udphdr, parse_tcphdr, ethhdr_size, iphdr_size,
  ipv6hdr_size, udphdr_size, tcphdr_size, icmphdr_size, icmphdr_common_size,
}

-- A result of a parser that was called with the cursor `nh`, for a header that has `size` bytes at least,
-- and says that it has `len`: either it refuses and changes nothing, or it stores the header's place,
-- leaves the cursor just behind the whole header, inside the packet, and returns `ret`.
abbrev pub IsSound : Packet → HdrCursor → (size len : ℕ) → ℤ → Parsed → Type 0
IsSound p nh size len ret r =
    (r ≡ refused nh)
    ⊎ ((r.header ≡ some nh.pos)
        × (r.cursor.pos ≡ nh.pos + len)
        × (size ≤ len)
        × (r.cursor.pos ≤ p.size)
        × (r.ret ≡ ret))

abbrev pub Reads : Packet → HdrCursor → (size len : ℕ) → ℤ → Option Parsed → Type 0
Reads p nh size len ret o = (r : Parsed) × (o ≡ some r) × IsSound p nh size len ret r

fixed_sound :
    (p : Packet) (nh : HdrCursor) (size off : ℕ)
    → off < size
    → Reads p nh size size (pos (p.bytes (nh.pos + off))) (
        if ltb p.size (nh.pos + size)
        then some (refused nh)
        else (load8 p (nh.pos + off) >>= λ v. some (accepted nh size v)))
fixed_sound p nh size off h = elim (Bool-cases (ltb p.size (nh.pos + size))) [
  | inl short ↦ rw short (refused nh, refl, inl refl)
  | inr long ↦
      rw (long, load8-some p (nh.pos + off) (ground arith))
        (
          accepted nh size (p.bytes (nh.pos + off)),
          refl,
          inr (refl, refl, omega arith, ground arith, refl),
        )
]

-- `ihl * 4`, as the header's first byte says.
abbrev pub ip_hdrsize : Packet → ℕ → ℕ
ip_hdrsize p at = p.bytes at % 16 * 4

ip_sound :
    (p : Packet) (nh : HdrCursor)
    → Reads p nh iphdr_size (ip_hdrsize p nh.pos) (pos (p.bytes (nh.pos + 9))) (parse_iphdr p nh)
unfolding parse_iphdr
ip_sound p nh = elim (Bool-cases (ltb p.size (nh.pos + iphdr_size))) [
  | inl short ↦ rw short (refused nh, refl, inl refl)
  | inr long ↦
      rw (long, load8-some p nh.pos (ground arith))
        (elim (Bool-cases
          (ltb (ip_hdrsize p nh.pos) iphdr_size || ltb p.size (nh.pos + ip_hdrsize p nh.pos))) [
            | inl bad ↦ rw bad (refused nh, refl, inl refl)
            | inr good ↦
                rw (good, load8-some p (nh.pos + 9) (ground arith))
                  (
                    accepted nh (ip_hdrsize p nh.pos) (p.bytes (nh.pos + 9)),
                    refl,
                    inr (refl, refl, ground arith, ground arith, refl),
                  )
          ])
]

-- What `parse_udphdr` returns for a header that is there.
abbrev pub udp_result : Packet → HdrCursor → Parsed
udp_result p nh =
    if ltb (bswap16 (p.bytes (nh.pos + 4) + 256 * p.bytes (nh.pos + 4 + 1))) udphdr_size
    then (record {
      cursor = record { pos = nh.pos + udphdr_size };
      header = some nh.pos;
      ret = negsuc 0;
    })
    else accepted nh udphdr_size
        (bswap16 (p.bytes (nh.pos + 4) + 256 * p.bytes (nh.pos + 4 + 1)) - udphdr_size)

-- The length field less the header, or an error if it is below the header's size.
abbrev pub udp_ret : Packet → ℕ → ℤ
udp_ret p at =
    if ltb (bswap16 (field16 p (at + 4))) 8
    then negsuc 0
    else pos (bswap16 (field16 p (at + 4)) - 8)

udp_stored :
    (p : Packet) (nh : HdrCursor)
    → ltb p.size (nh.pos + udphdr_size) ≡ false
    → ((udp_result p nh).header ≡ some nh.pos)
      × ((udp_result p nh).cursor.pos ≡ nh.pos + udphdr_size)
      × (udphdr_size ≤ udphdr_size)
      × ((udp_result p nh).cursor.pos ≤ p.size)
      × ((udp_result p nh).ret ≡ udp_ret p nh.pos)
udp_stored p nh long = elim (Bool-cases (ltb (bswap16 (field16 p (nh.pos + 4))) udphdr_size)) [
  | inl short ↦ rw short (refl, refl, omega arith, ground arith, refl)
  | inr whole ↦ rw whole (refl, refl, omega arith, ground arith, refl)
]

udp_sound :
    (p : Packet) (nh : HdrCursor)
    → Reads p nh udphdr_size udphdr_size (udp_ret p nh.pos) (parse_udphdr p nh)
unfolding parse_udphdr
udp_sound p nh = elim (Bool-cases (ltb p.size (nh.pos + udphdr_size))) [
  | inl short ↦ rw short (refused nh, refl, inl refl)
  | inr long ↦
      rw (long, load16-some p (nh.pos + 4) (ground arith))
        (udp_result p nh, refl, inr (udp_stored p nh long))
]

-- `doff * 4`.
abbrev pub tcp_hdrsize : Packet → ℕ → ℕ
tcp_hdrsize p at = p.bytes (at + 12) / 16 % 16 * 4

tcp_sound :
    (p : Packet) (nh : HdrCursor)
    → Reads p nh tcphdr_size (tcp_hdrsize p nh.pos) (pos (tcp_hdrsize p nh.pos)) (parse_tcphdr p nh)
unfolding parse_tcphdr
tcp_sound p nh = elim (Bool-cases (ltb p.size (nh.pos + tcphdr_size))) [
  | inl short ↦ rw short (refused nh, refl, inl refl)
  | inr long ↦
      rw (long, load8-some p (nh.pos + 12) (ground arith))
        (elim (Bool-cases
          (ltb (tcp_hdrsize p nh.pos) tcphdr_size || ltb p.size (nh.pos + tcp_hdrsize p nh.pos))) [
            | inl bad ↦ rw bad (refused nh, refl, inl refl)
            | inr good ↦ rw good (
              accepted nh (tcp_hdrsize p nh.pos) (tcp_hdrsize p nh.pos),
              refl,
              inr (refl, refl, ground arith, ground arith, refl),
            )
          ])
]

-- For some number of VLAN tags, at most two, whose 4 bytes each lie behind the type field's place.
abbrev pub ReadsTags : Packet → HdrCursor → Option Parsed → Type 0
ReadsTags p nh o =
    (k : ℕ) × (k ≤ 2)
    × Reads p nh ethhdr_size (14 + k * 4) (pos (field16 p (nh.pos + 12 + k * 4))) o

eth_sound : (p : Packet) (nh : HdrCursor) → ReadsTags p nh (parse_ethhdr p nh)
eth_sound p nh = elim (parse_ethhdr_lem p nh) [
  | inl (_, e) ↦ (0, omega arith, (refused nh, e, inl refl))
  | inr (_, k, proto, at, e, w) ↦ (
    k,
    w.within,
    (
      record { cursor = record { pos = at }; header = some nh.pos; ret = pos proto },
      e,
      inr (refl, omega (arith, w.stops_at), omega arith, w.inside, ap pos w.last_type),
    ),
  )
]

pub parsers_sound :
    (p : Packet) (nh : HdrCursor)
    → ReadsTags p nh (parse_ethhdr p nh)
      × Reads p nh ipv6hdr_size 40 (pos (p.bytes (nh.pos + 6))) (parse_ip6hdr p nh)
      × Reads p nh iphdr_size
          (p.bytes nh.pos % 16 * 4)
          (pos (p.bytes (nh.pos + 9)))
          (parse_iphdr p nh)
      × Reads p nh icmphdr_size 8 (pos (p.bytes nh.pos)) (parse_icmp6hdr p nh)
      × Reads p nh icmphdr_size 8 (pos (p.bytes nh.pos)) (parse_icmphdr p nh)
      × Reads p nh icmphdr_common_size 4 (pos (p.bytes nh.pos)) (parse_icmphdr_common p nh)
      × Reads p nh udphdr_size 8 (udp_ret p nh.pos) (parse_udphdr p nh)
      × Reads p nh tcphdr_size
          (p.bytes (nh.pos + 12) / 16 % 16 * 4)
          (pos (p.bytes (nh.pos + 12) / 16 % 16 * 4))
          (parse_tcphdr p nh)
unfolding parse_ip6hdr parse_icmp6hdr parse_icmphdr parse_icmphdr_common
parsers_sound p nh = (
  eth_sound p nh,
  fixed_sound p nh ipv6hdr_size 6 (omega arith),
  ip_sound p nh,
  first_byte icmphdr_size (omega arith),
  first_byte icmphdr_size (omega arith),
  first_byte icmphdr_common_size (omega arith),
  udp_sound p nh,
  tcp_sound p nh,
)
  where
    first_byte :
        (size : ℕ)
        → 0 < size
        → Reads p nh size size (pos (p.bytes nh.pos)) (
            if ltb p.size (nh.pos + size)
            then some (refused nh)
            else (load8 p nh.pos >>= λ v. some (accepted nh size v)))
    first_byte size h =
        subst
          (λ a. Reads p nh size size (pos (p.bytes a)) (
            if ltb p.size (nh.pos + size)
            then some (refused nh)
            else (load8 p a >>= λ v. some (accepted nh size v))))
          {x = nh.pos + 0} {y = nh.pos} (omega arith) (fixed_sound p nh size 0 h)
