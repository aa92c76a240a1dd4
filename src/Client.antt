-- ===== src/Client.antt =====
-- mymodule/helper/client.c: the packet generator.
use thesis_b_cs_tu_berlin.Prelude.{
  ℕ, zero, suc, ◌+◌, ◌-◌, ◌/◌, ◌%◌, ◌^◌, ltb, ◌==◌, if◌then◌else◌, Bool, true, false, ◌&&◌, not,
  Option, none, some, List, [], ◌∷◌, ◌++◌,
}
use thesis_b_cs_tu_berlin.Params.{max_log_entry, client_rate, pl_data}
use thesis_b_cs_tu_berlin.Memory.{zeros}
use thesis_b_cs_tu_berlin.Payload.{Payload}
pub mod Sends

-- `pl`, as it is initialised; the rest of its data is zero.
abbrev pub initial : Payload
initial = record {
  client_uid = 1;
  uid = 0;
  type = pl_data;
  created_time = 0;
  ks_time_arrival_1 = 0;
  ks_time_arrival_2 = 0;
  us_time_arrival_1 = 0;
  us_time_arrival_2 = 0;
  payload_data = zeros;
}

-- What the client does: a `sendto` of the payload, or a `usleep(1)`.
pub data Action : Type 0 where
  sends : Payload → Action
  sleeps : Action

-- What the program ends with. The rate is `MAX_LOG_ENTRY/((stop-start)/1000000UL)`, and a zero divisor
-- is a fault.
pub data Outcome : Type 0 where
  rate : ℕ → Outcome
  divides_by_zero : Outcome

-- `stop - start` in `unsigned long`.
abbrev pub elapsed : ℕ → ℕ → ℕ
elapsed start stop = (stop + 2 ^ 64 - start) % 2 ^ 64

unfoldable pub report : ℕ → ℕ → Outcome
report start stop =
    let millis = elapsed start stop / 1_000_000 in
    if millis == 0 then divides_by_zero else rate (max_log_entry / millis)

-- The actions of one round past the end test.
abbrev pub round_actions : Payload → ℕ → List Action
round_actions pl count_i =
    sends pl ∷ (if not (client_rate == 0) && count_i % client_rate == 0 then sleeps ∷ [] else [])

-- `while (1)`, with fuel: the actions in order and the outcome, or `none` if the fuel runs out.
-- `clock k` is the `k`-th answer of `get_nsecs` in the loop.
unfoldable pub client_loop : (ℕ → ℕ) → ℕ → ℕ → Payload → ℕ → ℕ → Option (List Action × Outcome)
client_loop clock start zero pl uid count_i = none
client_loop clock start (suc fuel) pl uid count_i =
    let pl' : Payload = record pl { uid = uid; created_time = clock count_i } in
    let rest = client_loop clock start fuel pl' (uid + 1) (count_i + 1) in
    if ltb max_log_entry uid then some ([], report start (clock count_i)) else (elim rest [
      | none ↦ none
      | some (actions, out) ↦ some (round_actions pl' count_i ++ actions, out)
    ])

unfoldable pub client : (ℕ → ℕ) → ℕ → ℕ → Option (List Action × Outcome)
client clock start fuel = client_loop clock start fuel initial 0 0

-- How `main` ends: by `exit` where there is no socket, or past its loop.
pub data ClientEnd : Type 0 where
  no_socket : ℕ → ClientEnd
  sent_all : List Action → Outcome → ClientEnd

-- `EXIT_FAILURE` is 1.
unfoldable pub main : (ℕ → ℕ) → ℕ → ℕ → Bool → Option ClientEnd
unfolding client
main clock start fuel true = some (no_socket 1)
main clock start fuel false = elim (client clock start fuel) [
  | none ↦ none
  | some (actions, out) ↦ some (sent_all actions out)
]
