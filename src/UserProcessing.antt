-- ===== src/UserProcessing.antt =====
-- mymodule/kernel_module/user-processing.c: the program that reads the kernel module's packets and
-- notes their arrival.
use thesis_b_cs_tu_berlin.Prelude.{
  ℕ, zero, suc, ◌+◌, ◌*◌, leb, ◌==◌, if◌then◌else◌, Option, none, some, [],
}
use thesis_b_cs_tu_berlin.Params.{buffer_size, pkt_buffer_size, pkts_per_buffer, payload_size}
use thesis_b_cs_tu_berlin.Memory.{Bytes, shift, ◌>>=◌}
use thesis_b_cs_tu_berlin.Payload.{Payload, decode, is_data_payload}
use thesis_b_cs_tu_berlin.Log.{Log, log_store}
pub mod Slots
pub mod Main

-- `memcpy(&pl, buff_read+i*PKT_BUFFER_SIZE, sizeof(struct Payload))`: `none` is a read past the end of
-- `buff_read`.
unfoldable pub slot_payload : Bytes → ℕ → Option Payload
slot_payload buff_read i =
    if leb (i * pkt_buffer_size + payload_size) buffer_size
    then some (decode (shift buff_read (i * pkt_buffer_size)))
    else none

-- One round of the `for` loop; `now` is what `get_nsecs` returns in it.
unfoldable pub process_slot : Bytes → ℕ → ℕ → Log → Option Log
process_slot buff_read i now log =
    if buff_read (i * pkt_buffer_size) == 0
    then some log
    else (slot_payload buff_read i >>= λ pl.
        if is_data_payload pl then log_store log pl.uid now else some log)

-- `for (i = ...; i < PKTS_PER_BUFFER; i++)` with `rounds` rounds left.
unfoldable pub process_slots : Bytes → (ℕ → ℕ) → ℕ → ℕ → Log → Option Log
process_slots buff_read clock zero i log = some log
process_slots buff_read clock (suc rounds) i log =
    process_slot buff_read i (clock i) log >>= λ log'.
    process_slots buff_read clock rounds (i + 1) log'

-- The body of `while (keep_running)`: `pread` has filled `buff_read`.
unfoldable pub process_buffer : Bytes → (ℕ → ℕ) → Log → Option Log
process_buffer buff_read clock log = process_slots buff_read clock pkts_per_buffer 0 log
