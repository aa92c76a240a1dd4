-- ===== src/Params.antt =====
-- mymodule/common.h: the sizes that every program of the experiment is built with.
use thesis_b_cs_tu_berlin.Prelude.{ℕ, ◌*◌, ◌/◌, ◌^◌, ◌-◌}

abbrev pub buffer_size : ℕ
buffer_size = 4096

abbrev pub pkt_buffer_size : ℕ
pkt_buffer_size = 128

abbrev pub pkts_per_buffer : ℕ
pkts_per_buffer = buffer_size / pkt_buffer_size

abbrev pub size_of_page_hc : ℕ
size_of_page_hc = 4096

abbrev pub max_pkt : ℕ
max_pkt = 200

abbrev pub km_find_buff_slot_max_try : ℕ
km_find_buff_slot_max_try = 200

abbrev pub max_log_entry_shift : ℕ
max_log_entry_shift = 14

-- `2 << s` is `2 * 2 ^ s`.
abbrev pub max_log_entry : ℕ
max_log_entry = 2 * 2 ^ max_log_entry_shift

abbrev pub pages_order : ℕ
pages_order = 6

abbrev pub max_entries_per_log_buff : ℕ
max_entries_per_log_buff = 2 * 2 ^ (pages_order - 1) * size_of_page_hc / 8

abbrev pub num_log_buff : ℕ
num_log_buff = max_log_entry / max_entries_per_log_buff

abbrev pub client_rate : ℕ
client_rate = 2

abbrev pub dest_port : ℕ
dest_port = 8080

abbrev pub pl_keep_alive : ℕ
pl_keep_alive = 1

abbrev pub pl_data : ℕ
pl_data = 2

abbrev pub pl_log : ℕ
pl_log = 3

-- `sizeof(struct Payload)`: eight `unsigned long` and 960 bytes.
abbrev pub payload_size : ℕ
payload_size = 1024
