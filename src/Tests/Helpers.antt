-- ===== src/Tests/Helpers.antt =====
-- The packet helpers of the XDP programs at concrete inputs.
use thesis_b_cs_tu_berlin.Prelude.{
  ℕ, ◌+◌, ◌-◌, ◌≤◌, ltb, leb, ◌==◌, if◌then◌else◌, leb→le, ◌≡◌, refl, ap, subst, Bool, true, false,
  Option, none, some, arith,
}
use thesis_b_cs_tu_berlin.Prelude.Int.{ℤ, pos, negsuc}
use thesis_b_cs_tu_berlin.Memory.{Packet, shift}
use thesis_b_cs_tu_berlin.Bpf.{BpfArray, fun_array}
use thesis_b_cs_tu_berlin.Rewrite.{AdjustHead, vlan_tag_pop, vlan_tag_push}
use thesis_b_cs_tu_berlin.Rewrite.RoundTrip.{IsFrame, pop-push}
use thesis_b_cs_tu_berlin.XdpStats.{
  DataRec, xdp_stats_record_action, xdp_action_max, counted, xdp_stats_record_action_lem,
}

-- A kernel with headroom for every packet.
abbrev moved : Packet → ℤ → Option Packet
moved p (pos n) =
    if leb (n + 14) p.size
    then some (record { bytes = shift p.bytes n; size = p.size - n })
    else none
moved p (negsuc n) = some (record {
  bytes = λ a. if leb (n + 1) a then p.bytes (a - (n + 1)) else 0;
  size = p.size + n + 1;
})

moved_works : (p : Packet) (n : ℕ) → n + 14 ≤ p.size → (q : Packet) × (moved p (pos n) ≡ some q)
moved_works p n h = (record { bytes = shift p.bytes n; size = p.size - n }, ground arith)

packet_of : Packet → Option Packet → Packet
packet_of d none = d
packet_of d (some x) = x

from_some : (x q : Packet) → some x ≡ some q → x ≡ q
unfolding packet_of
from_some x q e = ap (packet_of x) e

from_if : (b : Bool) (x q : Packet) → (if b then some x else none) ≡ some q → (b ≡ true) × (x ≡ q)
from_if true x q e = (refl, from_some x q e)
from_if false x q e = cc

moved_cut :
    (p q : Packet) (n : ℕ)
    → moved p (pos n) ≡ some q
    → (q.size + n ≡ p.size) × ((a : ℕ) → q.bytes a ≡ p.bytes (n + a))
moved_cut p q n e =
    let (fits, same) = from_if (leb (n + 14) p.size) _ q e in
    subst (λ (o : Packet). (o.size + n ≡ p.size) × ((a : ℕ) → o.bytes a ≡ p.bytes (n + a))) same
      (omega (arith, leb→le _ _ fits), λ a. refl)

moved_add :
    (p q : Packet) (n : ℕ)
    → moved p (negsuc n) ≡ some q
    → (q.size ≡ p.size + n + 1) × ((a : ℕ) → q.bytes (n + 1 + a) ≡ p.bytes a)
moved_add p q n e =
    subst (λ (o : Packet). (o.size ≡ p.size + n + 1) × ((a : ℕ) → o.bytes (n + 1 + a) ≡ p.bytes a))
      (from_some _ q e)
      (refl, λ a. ground (arith, ap p.bytes {x = n + 1 + a - (n + 1)} {y = a} (omega arith)))

abbrev head_room : AdjustHead
head_room = record {
  adjust_head = moved;
  cut_works = moved_works;
  cut_front = moved_cut;
  add_front = moved_add;
}

-- An IPv4 frame of 60 bytes.
abbrev ip_frame : Packet
ip_frame = record { bytes = λ a. if a == 12 then 8 else (if a == 13 then 0 else a); size = 60 }

ip_frame-IsFrame : IsFrame ip_frame
ip_frame-IsFrame = omega arith

pop-push_example :
    (t r : Packet) × (vlan_tag_push head_room ip_frame 0 100
      ≡ some (record { ret = pos 0; packet = t }))
    × (vlan_tag_pop head_room t 0 ≡ some (record { ret = pos 100; packet = r }))
    × (r.size ≡ 60)
    × ((a : ℕ) → r.bytes a ≡ ip_frame.bytes a)
pop-push_example = pop-push head_room ip_frame _ 100 ip_frame-IsFrame (omega arith) refl

abbrev stats : BpfArray DataRec
stats = fun_array DataRec xdp_action_max

abbrev no_stats : stats.Map
no_stats j = record { rx_packets = 0; rx_bytes = 0 }

xdp_stats_record_action_lem_example :
    (m' : stats.Map) × (xdp_stats_record_action stats no_stats 2 60
      ≡ (if ltb 2 xdp_action_max then 2 else 0, m'))
    × ((j : ℕ) → stats.lookup m' j ≡ counted stats 2 60 j (stats.lookup no_stats j))
xdp_stats_record_action_lem_example = xdp_stats_record_action_lem stats no_stats 2 60 refl
