-- ===== src/Km/Module.antt =====
-- The module as a whole: `registerRxHandlers`, `unregisterRxHandlers`, `myinit` and `myexit`.
use thesis_b_cs_tu_berlin.Prelude.{
  ℕ, ◌==◌, if◌then◌else◌, Bool, not, Option, none, some, List, [], ◌∷◌,
}
use thesis_b_cs_tu_berlin.Params.{num_log_buff}
use thesis_b_cs_tu_berlin.Memory.{strcmp_is_0, ◌>>=◌}
use thesis_b_cs_tu_berlin.Log.{Log, Exported, export_log}
use thesis_b_cs_tu_berlin.Log.Alloc.{Outcome, allocated, failed, free_loop, alloc_log_buffs}
use thesis_b_cs_tu_berlin.Km.{Km}
use thesis_b_cs_tu_berlin.Km.Trace.{loaded}

-- A network device: its name, its number, and whether `netdev_rx_handler_register` fails on it.
pub record Device : Type 0 where
  pub name : List ℕ
  pub ifindex : ℕ
  pub register_fails : Bool

-- "ens33"
abbrev pub device_name : List ℕ
device_name = 101 ∷ 110 ∷ 115 ∷ 51 ∷ 51 ∷ []

-- The device that has the handler afterwards, if one has it.
unfoldable pub register_rx_handlers : List Device → Option ℕ
register_rx_handlers [] = none
register_rx_handlers (d ∷ ds) =
    let rest = register_rx_handlers ds in
    if strcmp_is_0 d.name device_name
    then (if d.register_fails then none else some d.ifindex)
    else rest

abbrev pub without : ℕ → Option ℕ → Option ℕ
without i none = none
without i (some j) = if j == i then none else some j

-- `handler` is the device that has it before.
unfoldable pub unregister_rx_handlers : List Device → Option ℕ → Option ℕ
unregister_rx_handlers [] handler = handler
unregister_rx_handlers (d ∷ ds) handler =
    let rest = unregister_rx_handlers ds handler in
    if strcmp_is_0 d.name device_name then without d.ifindex handler else rest

-- What the module meets: the answers of `kmalloc`, for the cache and for `buff_temp`, and of
-- `__get_free_pages`, what the pages hold, the devices, and whether `filp_open` succeeds.
pub record KernelHost : Type 0 where
  pub kmalloc_here : Option ℕ
  pub kmalloc_temp : Option ℕ
  pub alloc_pages : ℕ → Option ℕ
  pub memory : Log
  pub devices : List Device
  pub file_opens : Bool

-- The pointers of a loaded module, and the device that has its handler.
pub record Pointers : Type 0 where
  pub here : ℕ
  pub temp : ℕ
  pub held : List ℕ
  pub handler : Option ℕ

-- How `myinit` ends: it returns 0, or -1 with what it has freed.
pub data Init : Type 0 where
  loads : Pointers → Km → Init
  init_fails : List ℕ → Init

abbrev pub after_pages : KernelHost → ℕ → ℕ → Outcome → Init
after_pages h here temp (failed freed) = init_fails freed
after_pages h here temp (allocated held) =
    loads
      (record { here = here; temp = temp; held = held; handler = register_rx_handlers h.devices })
      (loaded h.memory)

-- `memset` on a NULL of `kmalloc` is `none`.
unfoldable pub myinit : KernelHost → Option Init
myinit h = do
  here ← h.kmalloc_here
  temp ← h.kmalloc_temp
  o ← alloc_log_buffs h.alloc_pages
  some (after_pages h here temp o)

-- What `myexit` leaves: the handler's device, the written file, and the freed pointers.
pub record Exit : Type 0 where
  pub handler : Option ℕ
  pub file : Option Exported
  pub freed : List ℕ

unfoldable pub myexit : KernelHost → Pointers → Km → Option Exit
myexit h m s =
    let handler = unregister_rx_handlers h.devices m.handler in
    if not h.file_opens then some (record { handler = handler; file = none; freed = [] }) else (do
      out ← export_log s.log_buffs
      freed ← free_loop m.held num_log_buff 0 (m.here ∷ m.temp ∷ [])
      some (record { handler = handler; file = some out; freed = freed }))
