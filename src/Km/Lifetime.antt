-- ===== src/Km/Lifetime.antt =====
-- The module from `myinit` to `myexit`.
use thesis_b_cs_tu_berlin.Prelude.{
  ℕ, ◌==◌, if◌then◌else◌, Bool-cases, ◌≡◌, refl, sym, inl, inr, true, false, Option, none, some,
  List, [], ◌∷◌, arith,
}
use thesis_b_cs_tu_berlin.Params.{num_log_buff}
use thesis_b_cs_tu_berlin.Memory.{strcmp_is_0}
use thesis_b_cs_tu_berlin.Log.{entry, Exported}
use thesis_b_cs_tu_berlin.Log.Alloc.{free_loop_lem, alloc_log_buffs_lem, obtained, all_succeed}
use thesis_b_cs_tu_berlin.Log.Closing.{Reports, length-obtained}
use thesis_b_cs_tu_berlin.Log.Export.{export_log_lem}
use thesis_b_cs_tu_berlin.Km.{Km, ReadReply}
use thesis_b_cs_tu_berlin.Km.Trace.{Event, run, loaded, AllHandled, Answers, run_refines}
use thesis_b_cs_tu_berlin.Km.Module.{
  Device, device_name, register_rx_handlers, unregister_rx_handlers, KernelHost, Pointers, loads,
  init_fails, myinit, Exit, myexit,
}

register-unregister :
    (ds : List Device) → unregister_rx_handlers ds (register_rx_handlers ds) ≡ none
unfolding register_rx_handlers unregister_rx_handlers
register-unregister [] = refl
register-unregister (d ∷ ds) = elim (Bool-cases (strcmp_is_0 d.name device_name)) [
  | inr other ↦ rw other (register-unregister ds)
  | inl found ↦ rw found (elim (Bool-cases d.register_fails) [
    | inl bad ↦ rw bad refl
    | inr good ↦ rw good (gone d.ifindex)
  ])
]
  where
    gone : (i : ℕ) → (if i == i then none else some i) ≡ none
    gone i = ground arith

module _ (h : KernelHost) (here temp : ℕ) (some_here : h.kmalloc_here ≡ some here)
    (some_temp : h.kmalloc_temp ≡ some temp) where
  abbrev pointers : Pointers
  pointers = record {
    here = here;
    temp = temp;
    held = obtained h.alloc_pages num_log_buff 0;
    handler = register_rx_handlers h.devices;
  }

  myinit_loads :
      all_succeed h.alloc_pages num_log_buff 0 ≡ true
      → myinit h ≡ some (loads pointers (loaded h.memory))
  unfolding myinit
  myinit_loads ok = rw (some_here, some_temp, alloc_log_buffs_lem h.alloc_pages, ok) refl

  myexit_frees :
      (s : Km)
      → all_succeed h.alloc_pages num_log_buff 0 ≡ true
      → h.file_opens ≡ true
      → (out : Exported) × (myexit h pointers s
          ≡ some (record {
            handler = none;
            file = some out;
            freed = here ∷ temp ∷ obtained h.alloc_pages num_log_buff 0;
          }))
        × Reports (entry s.log_buffs) out
  unfolding myexit
  myexit_frees s ok opens =
      let (out, e, len, each, zs) = export_log_lem s.log_buffs in
      let full = sym (length-obtained h.alloc_pages num_log_buff 0 ok) in
      (
        out,
        rw
            (
              opens,
              e,
              free_loop_lem (obtained h.alloc_pages num_log_buff 0) num_log_buff 0
                  (here ∷ temp ∷ []) full,
              register-unregister h.devices,
            )
            refl,
        record { one_each = len; in_order = each; zeroed_right = zs },
      )

  -- A module whose memory is allocated loads. Whatever reads follow, and packets that are another program's or
  -- have a payload that is there and of at most `PKT_BUFFER_SIZE` = 128 bytes (the repository's client sends
  -- 1024), it answers them as the bounded queue allows. Its unloading, if the file opens and the devices are the same, takes
  -- the handler off, writes one line for each uid with the entry of its log, and frees the cache, the
  -- read buffer and every log buffer, each once.
  pub lifetime :
      (es : List Event)
      → all_succeed h.alloc_pages num_log_buff 0 ≡ true
      → h.file_opens ≡ true
      → AllHandled es
      → (m : Pointers) × (s : Km) × (rs : List (Option ReadReply)) × (s' : Km) × (out : Exported)
        × (myinit h ≡ some (loads m s))
        × (run es s ≡ some (rs, s'))
        × Answers es [] rs
        × (myexit h m s'
            ≡ some (record {
              handler = none;
              file = some out;
              freed = here ∷ temp ∷ obtained h.alloc_pages num_log_buff 0;
            }))
        × Reports (entry s'.log_buffs) out
  lifetime es ok opens handled =
      let (rs, s', ran, answers, holds) = run_refines es h.memory handled in
      let (out, left, reports) = myexit_frees s' ok opens in
      (pointers, loaded h.memory, rs, s', out, myinit_loads ok, ran, answers, left, reports)

  -- What the error paths leave: a `myinit` that cannot allocate its log frees the log buffers that it
  -- got and neither the cache nor the read buffer; a `myexit` that cannot open its file frees nothing.
  pub error_paths :
      (m : Pointers) (s : Km)
      → all_succeed h.alloc_pages num_log_buff 0 ≡ false
      → h.file_opens ≡ false
      → (myinit h ≡ some (init_fails (obtained h.alloc_pages num_log_buff 0)))
        × ((x : Exit) × (myexit h m s ≡ some x) × (x.file ≡ none) × (x.freed ≡ []))
  unfolding myinit myexit
  error_paths m s no_room shut = (
    rw (some_here, some_temp, alloc_log_buffs_lem h.alloc_pages, no_room) refl,
    (
      record { handler = unregister_rx_handlers h.devices m.handler; file = none; freed = [] },
      rw shut refl,
      refl,
      refl,
    ),
  )
