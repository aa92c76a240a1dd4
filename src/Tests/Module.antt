-- ===== src/Tests/Module.antt =====
-- The kernel module's load, unload and file operations at concrete inputs.
use thesis_b_cs_tu_berlin.Prelude.{
  ℕ, ◌+◌, ◌≤◌, ◌≡◌, refl, true, false, Option, none, some, List, [], ◌∷◌, arith,
}
use thesis_b_cs_tu_berlin.Params.{num_log_buff}
use thesis_b_cs_tu_berlin.Memory.{Bytes, zeros, mem_copy}
use thesis_b_cs_tu_berlin.Log.{entry, Exported}
use thesis_b_cs_tu_berlin.Log.Alloc.{obtained, all_succeed}
use thesis_b_cs_tu_berlin.Log.Closing.{Reports}
use thesis_b_cs_tu_berlin.Km.{Km, ReadReply}
use thesis_b_cs_tu_berlin.Km.Trace.{Event, receives, reads, run, Answers}
use thesis_b_cs_tu_berlin.Km.File.{UserMemory, MmapInfo}
use thesis_b_cs_tu_berlin.Km.Module.{
  Device, device_name, KernelHost, Pointers, loads, myinit, myexit,
}
use thesis_b_cs_tu_berlin.Tests.Cache.{small, small-IsHandled}
use thesis_b_cs_tu_berlin.Km.Lifetime.{lifetime}

abbrev devices : List Device
devices =
    record { name = 108 ∷ 111 ∷ []; ifindex = 1; register_fails = false }
    ∷ record { name = device_name; ifindex = 2; register_fails = false }
    ∷ []

abbrev machine : KernelHost
machine = record {
  kmalloc_here = some 4096;
  kmalloc_temp = some 8192;
  alloc_pages = λ i. some (16384 + i);
  memory = λ b j. 99;
  devices = devices;
  file_opens = true;
}

abbrev poor_machine : KernelHost
poor_machine = record machine { alloc_pages = λ i. none; file_opens = false }

machine_has_pages : all_succeed machine.alloc_pages num_log_buff 0 ≡ true
unfolding all_succeed
machine_has_pages = refl

poor_machine_has_none : all_succeed poor_machine.alloc_pages num_log_buff 0 ≡ false
unfolding all_succeed
poor_machine_has_none = refl

abbrev packet_and_read : List Event
packet_and_read = receives small 7 ∷ reads 0 true ∷ reads 0 false ∷ []

lifetime_example :
    (m : Pointers) × (s : Km) × (rs : List (Option ReadReply)) × (s' : Km) × (out : Exported)
    × (myinit machine ≡ some (loads m s))
    × (run packet_and_read s ≡ some (rs, s'))
    × Answers packet_and_read [] rs
    × (myexit machine m s'
        ≡ some (record {
          handler = none;
          file = some out;
          freed = 4096 ∷ 8192 ∷ obtained machine.alloc_pages num_log_buff 0;
        }))
    × Reports (entry s'.log_buffs) out
lifetime_example =
    lifetime machine 4096 8192 refl refl packet_and_read machine_has_pages refl
      (small-IsHandled 7, (tt, (tt, tt)))

abbrev any_pointers : Pointers
any_pointers = record { here = 4096; temp = 8192; held = 16384 ∷ []; handler = some 2 }

kernel_copy : (dst src : Bytes) (n a : ℕ) → n ≤ a → mem_copy dst 0 src n a ≡ dst a
unfolding mem_copy
kernel_copy dst src n a h = ground arith

-- A kernel in which every user address is mapped.
abbrev user_memory : UserMemory
user_memory = record {
  copy_from_user = λ dst src n. (0, mem_copy dst 0 src n);
  copies = λ dst src n e. refl;
  stays_inside = kernel_copy;
}

abbrev open_page : MmapInfo
open_page = record { info = 64; page = 4096; page_data = zeros }
