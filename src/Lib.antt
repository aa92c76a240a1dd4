-- ===== src/Lib.antt =====
-- Two ways to measure the delay of UDP packets between the network card and a user program: a kernel
-- module with an rx handler and a proc file, and an XDP program with its user program. A client sends
-- `struct Payload` packets with the uids 0, 1, 2, ...; every receiver notes the time at which it sees a
-- uid in a log, one entry for each uid below `MAX_LOG_ENTRY`, and writes the log to a file at its end.
--
-- Params           mymodule/common.h: the constants.
-- Payload          mymodule/common.h: `struct Payload`, its bytes in memory (`encode`, `decode`) and the
--                  test for a data packet that two receivers make.
-- Memory           Byte arrays, packets with an end, the fixed-width reads and byte swaps.
-- Log              `log_buffs`: the guarded write `log_store`, the export, (in Log/Alloc) the
--                  allocation, (in Log/Text) the text of the file and (in Log/Closing) the end of a
--                  program, as in `myinit` and `myexit` of mymodule/kernel_module/intercept-module.c and
--                  `main` of mymodule/kernel_module/user-processing.c, mymodule/helper/server.c and
--                  eBPF_app/eBPF_measure/ebpf_measure_user.c.
-- Km               mymodule/kernel_module/intercept-module.c: `rxhPacketIn` (`rxh_packet_in`, with
--                  `is_for_us`, `take_packet`, `find_slot` and `fill_slot` for its parts) and `read`
--                  (`read`, with `gather` and `clean_up`), on a record of the module's globals.
--   Window, Ring   The cache as a ring: the occupied slots are those before `current_index`, and hold
--                  the packets of a queue.
--   Accept         Which packets the handler takes.
--   Fill, Receive  What a packet does to the ring.
--   Gather, CleanUp, Deliver
--                  What `read` does to it.
--   Overrun        Payloads longer than a slot.
--   Trace          Histories of packets and reads against a bounded queue.
--   Interleave     `read` in steps (`read_step`), between which the receive handler runs (`interleave`).
--                  Below it: Slots (counts over the cache), Pending (the slots that `read` has copied),
--                  Reading and Receiving (what a step and a packet do to them), Invariant, Steps and
--                  Safety (whole histories), Alone (a `read` that nothing interrupts), Late and
--                  Alone/Overtaking (a packet that comes in as a `read` begins).
--   Race           Two handlers on two CPUs: the handler in two halves (`handler_finds`, `handler_stores`),
--                  and the order in which both find the same slot (`race`, with its end in Race/Loses).
--   Readers        Two processes that read at once: `read` in two halves (`search_cache`, `hand_out`).
--   File, Mapping  The proc file's `open`, `write` and `release`; its `mmap` and `vm_fault`.
--   Module, Lifetime
--                  `registerRxHandlers`, `unregisterRxHandlers`, `myinit` and `myexit`, and the module from
--                  its load to its unload.
-- UserProcessing   mymodule/kernel_module/user-processing.c: the loop over the slots of a read buffer, and
--                  the whole `main` (in UserProcessing/Main).
-- Server           mymodule/helper/server.c: the loop over datagrams, and the whole `main` (Server/Main).
-- Client           mymodule/helper/client.c: the sending loop, and `main`.
-- Parsing          eBPF_app/common/parsing_helpers.h: the eight header parsers.
-- Bpf              BPF array maps, an interface with the kernel's documented behaviour as laws.
-- Rewrite          eBPF_app/common/rewrite_helpers.h: VLAN tags put on and taken off, and address swaps.
-- Xdp              eBPF_app/eBPF_measure/ebpf_measure_kern.c: `xdp_sock_prog`. Below it: Accept and Headers
--                  (which packets it goes on with), Effect, Frame (client frames), Tagged (VLAN tags).
-- XdpStats         eBPF_app/common/xdp_stats_kern.h: `xdp_stats_record_action`.
-- XdpLink          eBPF_app/common/common_user_bpf_xdp.c: `xdp_link_attach`, `xdp_link_detach`,
--                  `check_map_fd_info`, `load_bpf_and_xdp_attach` (in XdpLink/Load), `open_bpf_map_file`
--                  and `action2str` (in XdpLink/MapFile), over libbpf as an interface.
-- PinnedMaps       eBPF_app/common/common_libbpf.c: `bpf_prog_load_xattr_maps` (PinnedMaps/Object) over libbpf
--                  as an interface, its ends (Object/Outcome) and the name that it reads after it is freed
--                  (Object/Freed).
-- CommandLine      eBPF_app/common/common_params.c: `parse_cmdline_args`,
--                  `option_wrappers_to_options` and the usage text (in CommandLine/Usage).
-- EbpfUser         eBPF_app/eBPF_measure/ebpf_measure_user.c: `fetch_and_process_packet`, the loop round
--                  it, `main` from the log's allocation on (EbpfUser/Main), the whole `main`
--                  (EbpfUser/Program, with its ends in Outcome and Early) and the checksum helpers.
-- Measurement      eBPF_app/eBPF_measure: `xdp_sock_prog` and the loop of the user program on the same maps
--                  (`happen`). Below it: Arrival (a packet, as the user program sees the map), Sound (it
--                  notes only what has arrived), Kept and Complete (it notes all that has), FromClient
--                  (from the client's payloads to the log).
-- Prelude          Names of the libraries, Boolean tests, lists over the native numbers.
-- Tests            The theorems at concrete packets, buffers and maps.
--
-- How the parts meet: `client` makes the payloads, `encode` is the bytes that it sends, `frame` (in
-- Xdp/Frame) puts them behind the headers, and `decode` is what each receiver reads. All receivers write
-- their log by `log_store`. The user program of the module reads what `read` delivers; the user program
-- of the XDP program reads the map that `store_payload` writes.
--
-- Conventions. `none` is an access outside the memory that the program owns, so a theorem that the result
-- is `some` is one of memory safety. A pointer into a packet is an offset. Arithmetic on unsigned integers
-- is modulo the width where it can wrap. The machine is little-endian with 64-bit `long`, as x86-64.
-- The state of a device, a clock and an allocator is an argument: the time is a number or a function of
-- the round, the allocator a function from rounds to answers, `copy_to_user` a Boolean.
--
-- Loops. A `for` or `while` with a limit is a recursion on the rounds that are left, which starts at the
-- source's limit: `find_slot` at `KM_FIND_BUFF_SLOT_MAX_TRY`, `gather` at `MAX_PKT`, `vlan_loop` at
-- `VLAN_MAX_DEPTH`, the export at `MAX_LOG_ENTRY`. The loops that wait for input recurse on the list of
-- inputs. The client's `while (1)` has fuel, and its theorem says how much is enough.
--
-- Interleavings. Km/Trace takes packets and whole `read`s one after another. Km/Interleave lets the receive
-- handler run between any two steps of a `read`: a round of the search, the call of `copy_to_user`, the
-- clean-up of one slot. The handler itself runs from start to end, as on one CPU, where it interrupts
-- `read` and not the other way round. In Measurement a packet and a round of the user program's loop
-- alternate in any order, and each is one step: a lookup copies a whole value of the map.
--
-- Km/Race has one order of two handlers on two CPUs, in which both find their slot before either marks it,
-- and Km/Readers one of two reads, in which both search before either cleans up.
--
-- Not modelled. The kernel module takes no lock: other orders of two handlers, or of two processes
-- that read at once, are outside these theorems. Sockets, files, printed messages and the plot scripts
-- are input and output. libbpf, the kernel's headers and lkmc are other projects' code. A packet's
-- `sk_buff` is taken as linear.
pub mod Prelude
pub mod Params
pub mod Memory
pub mod Payload
pub mod Log
pub mod Km
pub mod UserProcessing
pub mod Server
pub mod Client
pub mod EbpfUser
pub mod Parsing
pub mod Rewrite
pub mod Bpf
pub mod Xdp
pub mod Measurement
pub mod XdpStats
pub mod XdpLink
pub mod PinnedMaps
pub mod CommandLine
pub mod Tests
