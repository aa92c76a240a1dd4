-- ===== src/Xdp/Accept.antt =====
-- Which packets the program goes on with, and that parsing them never leaves the packet.
use thesis_b_cs_tu_berlin.Prelude.{
  ◌+◌, if◌then◌else◌, ◌≡◌, refl, inl, inr, Bool, true, false, Option, some, arith,
}
use thesis_b_cs_tu_berlin.Params.{payload_size}
use thesis_b_cs_tu_berlin.Memory.{Packet, bswap16}
use thesis_b_cs_tu_berlin.Memory.Words.{load16-some}
use thesis_b_cs_tu_berlin.Parsing.{HdrCursor, Parsed, udphdr_size}
use thesis_b_cs_tu_berlin.Parsing.Safety.{IsSound, udp_ret, parsers_sound}
use thesis_b_cs_tu_berlin.Xdp.{
  ret_is, dest_is_ours, udp_is_ours, ip_is_ours, is_ours, ipproto_udp, eth_p_ip,
}

abbrev Decides : Option Bool → Type 0
Decides o = (b : Bool) × (o ≡ some b)

-- A test by the return value alone, before another step.
then-Decides : (b : Bool) (o : Option Bool) → Decides o → Decides (if b then o else some false)
then-Decides true o d = d
then-Decides false o d = (false, refl)

dest-Decides :
    (p : Packet) (nh : HdrCursor) (r : Parsed)
    → IsSound p nh udphdr_size 8 (udp_ret p nh.pos) r
    → Decides (if ret_is r.ret payload_size then dest_is_ours p r else some false)
unfolding dest_is_ours
dest-Decides p nh r (inl no_header) = rw no_header (false, refl)
dest-Decides p nh r (inr (at, end, _, inside, _)) =
    rw (at, load16-some p (nh.pos + 2) (omega arith))
      (then-Decides (ret_is r.ret payload_size) _ (_, refl))

udp-Decides : (p : Packet) (nh : HdrCursor) → Decides (udp_is_ours p nh)
unfolding udp_is_ours
udp-Decides p nh = let (r, e, sound) = (parsers_sound p nh).6 in rw e (dest-Decides p nh r sound)

ip-Decides : (p : Packet) (nh : HdrCursor) → Decides (ip_is_ours p nh)
unfolding ip_is_ours
ip-Decides p nh =
    let (r, e, _) = (parsers_sound p nh).2 in
    rw e (then-Decides (ret_is r.ret ipproto_udp) _ (udp-Decides p r.cursor))

-- The parsing part always comes to a decision: no read leaves the packet, and the UDP header's
-- pointer is never used before it is stored.
pub is_ours-Decides : (p : Packet) → (b : Bool) × (is_ours p ≡ some b)
unfolding is_ours
is_ours-Decides p =
    let (k, _, (r, e, _)) = (parsers_sound p (record { pos = 0 })).0 in
    rw e (then-Decides (ret_is r.ret (bswap16 eth_p_ip)) _ (ip-Decides p r.cursor))
