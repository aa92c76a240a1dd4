-- ===== src/Payload.antt =====
-- mymodule/common.h, `struct Payload`: the record that the client sends and every receiver reads,
-- as eight `unsigned long` and its image in memory.
use thesis_b_cs_tu_berlin.Prelude.{
  ℕ, ◌+◌, ◌-◌, ◌/◌, ◌%◌, ◌^◌, ◌<◌, Bool, ltb, ◌==◌, if◌then◌else◌, ◌&&◌, not,
}
use thesis_b_cs_tu_berlin.Params.{pl_data, payload_size}
use thesis_b_cs_tu_berlin.Memory.{Bytes, Packet, le64, byte64}
pub mod RoundTrip

-- `payload_data` stands for `data[960]`: its offsets from 960 on are never read.
pub record Payload : Type 0 where
  pub client_uid : ℕ
  pub uid : ℕ
  pub type : ℕ
  pub created_time : ℕ
  pub ks_time_arrival_1 : ℕ
  pub ks_time_arrival_2 : ℕ
  pub us_time_arrival_1 : ℕ
  pub us_time_arrival_2 : ℕ
  pub payload_data : Bytes

-- `memcpy(&pl, m, sizeof(struct Payload))`
unfoldable pub decode : Bytes → Payload
decode m = record {
  client_uid = le64 m 0;
  uid = le64 m 8;
  type = le64 m 16;
  created_time = le64 m 24;
  ks_time_arrival_1 = le64 m 32;
  ks_time_arrival_2 = le64 m 40;
  us_time_arrival_1 = le64 m 48;
  us_time_arrival_2 = le64 m 56;
  payload_data = λ a. m (64 + a);
}

-- The `unsigned long` that the `k`-th eight bytes hold.
abbrev pub word : Payload → ℕ → ℕ
word p k =
    if k == 0
    then p.client_uid
    else (if k == 1
        then p.uid
        else (if k == 2
            then p.type
            else (if k == 3
                then p.created_time
                else (if k == 4
                    then p.ks_time_arrival_1
                    else (if k == 5
                        then p.ks_time_arrival_2
                        else (if k == 6 then p.us_time_arrival_1 else p.us_time_arrival_2))))))

-- The struct as `sendto` reads it from memory.
unfoldable pub encode : Payload → Bytes
encode p a = if ltb a 64 then byte64 (word p (a / 8)) (a % 8) else p.payload_data (a - 64)

-- What `sendto(sock_fd, &pl, sizeof(struct Payload), ...)` sends.
abbrev pub datagram : Payload → Packet
datagram p = record { bytes = encode p; size = payload_size }

-- The test of `main` in user-processing.c and of `fetch_and_process_packet`.
unfoldable pub is_data_payload : Payload → Bool
is_data_payload p = not (p.client_uid == 0) && p.type == pl_data && not (p.created_time == 0)

-- Every field is an `unsigned long`.
pub record IsWide (p : Payload) : Type 0 where
  pub client_uid_fits : p.client_uid < 2 ^ 64
  pub uid_fits : p.uid < 2 ^ 64
  pub type_fits : p.type < 2 ^ 64
  pub created_time_fits : p.created_time < 2 ^ 64
  pub ks_1_fits : p.ks_time_arrival_1 < 2 ^ 64
  pub ks_2_fits : p.ks_time_arrival_2 < 2 ^ 64
  pub us_1_fits : p.us_time_arrival_1 < 2 ^ 64
  pub us_2_fits : p.us_time_arrival_2 < 2 ^ 64
