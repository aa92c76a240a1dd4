-- ===== src/Km/Accept.antt =====
-- Which packets `rxhPacketIn` takes.
use thesis_b_cs_tu_berlin.Prelude.{
  ℕ, ◌+◌, ◌*◌, ◌/◌, ltb, ◌==◌, if◌then◌else◌, ==_iff, ◌≡◌, refl, Bool, true, false, Option, none,
  some, arith,
}
use thesis_b_cs_tu_berlin.Memory.{load8, load16, bswap16, ◌>>=◌}
use thesis_b_cs_tu_berlin.Km.{SkBuff, is_for_us, is_our_udp, is_our_port}

-- The version of the IPv4 header is 4, its protocol is 17, and the UDP header's port is 8080.
abbrev pub IsUdp8080 : SkBuff → Type 0
IsUdp8080 pkt =
    (pkt.linear.bytes pkt.network_header / 16 ≡ 4)
    × (pkt.linear.bytes (pkt.network_header + 9) ≡ 17)
    × (bswap16 (
          pkt.linear.bytes (pkt.transport_header + 2)
          + 256 * pkt.linear.bytes (pkt.transport_header + 2 + 1))
        ≡ 8080)

port_lem :
    (pkt : SkBuff)
    → is_our_port pkt ≡ some true
    → bswap16 (
        pkt.linear.bytes (pkt.transport_header + 2)
        + 256 * pkt.linear.bytes (pkt.transport_header + 2 + 1))
      ≡ 8080
unfolding is_our_port load16
port_lem pkt h = ground (arith, h)

-- A read and then a test that decides whether another one follows.
passes :
    (c : Bool) (v : ℕ) (t : ℕ → Bool) (o : Option Bool)
    → ((if c then some v else none) >>= λ x. if t x then o else some false) ≡ some true
    → (t v ≡ true) × (o ≡ some true)
passes false v t o h = cc
passes true v t o h = by_test (t v) h
  where
    by_test : (b : Bool) → (if b then o else some false) ≡ some true → (b ≡ true) × (o ≡ some true)
    by_test true h = (refl, h)
    by_test false h = cc

udp_lem :
    (pkt : SkBuff)
    → is_our_udp pkt ≡ some true
    → (pkt.linear.bytes (pkt.network_header + 9) ≡ 17) × (is_our_port pkt ≡ some true)
unfolding is_our_udp load8
udp_lem pkt h =
    let (udp, rest) =
      passes (ltb (pkt.network_header + 9) pkt.linear.size)
        (pkt.linear.bytes (pkt.network_header + 9)) (λ x. x == 17) (is_our_port pkt) h in
    ((==_iff (pkt.linear.bytes (pkt.network_header + 9)) 17).0 udp, rest)

pub is_for_us-IsUdp8080 : (pkt : SkBuff) → is_for_us pkt ≡ some true → IsUdp8080 pkt
unfolding is_for_us load8
is_for_us-IsUdp8080 pkt h =
    let (four, rest) =
      passes (ltb pkt.network_header pkt.linear.size) (pkt.linear.bytes pkt.network_header)
        (λ x. x / 16 == 4) (is_our_udp pkt) h in
    let (udp, port) = udp_lem pkt rest in
    ((==_iff (pkt.linear.bytes pkt.network_header / 16) 4).0 four, udp, port_lem pkt port)
