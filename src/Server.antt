-- ===== src/Server.antt =====
-- mymodule/helper/server.c: the UDP server that notes the arrival of each uid.
use thesis_b_cs_tu_berlin.Prelude.{
  ℕ, ◌-◌, ltb, ◌==◌, if◌then◌else◌, Bool, Option, some, List, [], ◌∷◌,
}
use thesis_b_cs_tu_berlin.Params.{max_log_entry}
use thesis_b_cs_tu_berlin.Memory.{Bytes, ◌>>=◌}
use thesis_b_cs_tu_berlin.Payload.{Payload, decode}
use thesis_b_cs_tu_berlin.Log.{Log, log_store}
pub mod Loop
pub mod Main

-- One round's input: the bytes that `recvfrom` stores and their number (0 for an error or an empty
-- datagram), the time after it, and `keep_running` at the round's start.
pub record Round : Type 0 where
  pub datagram : Bytes
  pub received : ℕ
  pub now : ℕ
  pub keep_running : Bool

-- `buffer`: zeroed, then filled by `recvfrom`.
abbrev pub buffer : Round → Bytes
buffer r a = if ltb a r.received then r.datagram a else 0

abbrev pub payload_of : Round → Payload
payload_of r = decode (buffer r)

-- Has the loop ended, and by what?
pub data Ended : Type 0 where
  by_signal by_last_uid still_waiting : Ended

-- The loop over the datagrams that arrive; at the end of the list it waits.
unfoldable pub serve : List Round → Log → Option (Ended × Log)
serve [] log = some (still_waiting, log)
serve (r ∷ rs) log =
    if r.keep_running
    then (log_store log (payload_of r).uid r.now >>= λ log'.
        if (payload_of r).uid == max_log_entry - 1 then some (by_last_uid, log') else serve rs log')
    else some (by_signal, log)
