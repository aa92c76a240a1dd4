-- ===== src/EbpfUser.antt =====
-- eBPF_app/eBPF_measure/ebpf_measure_user.c: the program that follows the payload map, and its
-- checksum helpers (in Checksum).
use thesis_b_cs_tu_berlin.Prelude.{
  ℕ, ◌+◌, ◌%◌, ◌^◌, ltb, if◌then◌else◌, Bool, true, false, ◌&&◌, Option, none, some, List, [], ◌∷◌,
}
use thesis_b_cs_tu_berlin.Memory.{◌>>=◌}
use thesis_b_cs_tu_berlin.Params.{max_log_entry}
use thesis_b_cs_tu_berlin.Payload.{Payload, is_data_payload}
use thesis_b_cs_tu_berlin.Log.{Log, log_store}
use thesis_b_cs_tu_berlin.Bpf.{BpfArray}
pub mod Checksum
pub mod Follow
pub mod Progress
pub mod Main
pub mod Program

-- The part of `fetch_and_process_packet` below the lookup.
unfoldable pub log_found : Payload → ℕ → Log → Option (Bool × Log)
log_found map_pl now log =
    if is_data_payload map_pl && ltb map_pl.uid max_log_entry
    then (log_store log map_pl.uid now >>= λ log'. some (true, log'))
    else some (false, log)

module _ (pkts : BpfArray Payload) where
  -- `fetch_and_process_packet` at time `now`, with its result and the log. `none` is a write outside
  -- the log.
  unfoldable pub fetch_and_process_packet : pkts.Map → ℕ → ℕ → Log → Option (Bool × Log)
  fetch_and_process_packet m next_uid now log = elim (pkts.lookup m next_uid) [
    | none ↦ some (false, log)
    | some map_pl ↦ log_found map_pl now log
  ]

  -- `while (!global_exit)`: each round finds the map as the kernel side has left it by then, and a
  -- time. `next_uid` is an `unsigned int`.
  unfoldable pub follow : List (pkts.Map × ℕ) → ℕ → Log → Option (ℕ × Log)
  follow [] next_uid log = some (next_uid, log)
  follow ((m, now) ∷ rounds) next_uid log = fetch_and_process_packet m next_uid now log >>= λ r.
      follow rounds (if r.0 then (next_uid + 1) % 2 ^ 32 else next_uid) r.1
