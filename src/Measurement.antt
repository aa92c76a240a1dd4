-- ===== src/Measurement.antt =====
-- eBPF_app/eBPF_measure: `xdp_sock_prog` of ebpf_measure_kern.c and the loop of ebpf_measure_user.c at
-- work on the same maps.
use thesis_b_cs_tu_berlin.Prelude.{
  ℕ, ◌+◌, ◌%◌, ◌^◌, if◌then◌else◌, ◌≡◌, ◌⊎◌, true, Option, some, List, [], ◌∷◌,
}
use thesis_b_cs_tu_berlin.Memory.{Packet, ◌>>=◌}
use thesis_b_cs_tu_berlin.Payload.{Payload, is_data_payload}
use thesis_b_cs_tu_berlin.Log.{Log}
use thesis_b_cs_tu_berlin.Bpf.{BpfArray}
use thesis_b_cs_tu_berlin.Xdp.{Maps, xdp_sock_prog}
use thesis_b_cs_tu_berlin.Xdp.Effect.{payload_at_42, IsMeasured}
use thesis_b_cs_tu_berlin.EbpfUser.{fetch_and_process_packet}
pub mod Arrival
pub mod Sound
pub mod Kept
pub mod Complete
pub mod FromClient

-- A packet reaches the receive queue with this index at this time, or the user program makes a round of
-- its loop.
pub data Happening : Type 0 where
  arrives : Packet → (index now : ℕ) → Happening
  polls : (now : ℕ) → Happening

module _ (times : BpfArray ℕ) (pkts : BpfArray Payload) (stats : BpfArray ℕ) where
  -- The maps, and the user program's variables.
  pub record Experiment : Type 0 where
    pub maps : Maps times pkts stats
    pub next_uid : ℕ
    pub log : Log

  unfoldable pub happen : Happening → Experiment → Option Experiment
  happen (arrives p index now) s = do
    (action, m) ← xdp_sock_prog times pkts stats p index now s.maps
    some (record s { maps = m })
  happen (polls now) s = do
    (found, log) ← fetch_and_process_packet pkts s.maps.pkt_payload s.next_uid now s.log
    some
        (record s { next_uid = if found then (s.next_uid + 1) % 2 ^ 32 else s.next_uid; log = log })

  unfoldable pub happen_all : List Happening → Experiment → Option Experiment
  happen_all [] s = some s
  happen_all (e ∷ es) s = do s' ← happen e s; happen_all es s'

-- The packet is a measured one, and its payload is a data packet with uid `k`.
pub record Carries (k : ℕ) (p : Packet) : Type 0 where
  pub measured : IsMeasured p
  pub is_data : is_data_payload (payload_at_42 p) ≡ true
  pub uid_is : (payload_at_42 p).uid ≡ k

-- Some packet with uid `k` is among the arrivals.
abbrev pub Arrived : ℕ → List Happening → Type 0
Arrived k [] = ⊥
Arrived k (arrives p index now ∷ es) = Carries k p ⊎ Arrived k es
Arrived k (polls now ∷ es) = Arrived k es
