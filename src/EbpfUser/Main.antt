-- ===== src/EbpfUser/Main.antt =====
-- `main` of eBPF_app/eBPF_measure/ebpf_measure_user.c from the allocation of the log on: the loop, the
-- export of the log and that of the time map.
use thesis_b_cs_tu_berlin.Prelude.{
  ℕ, zero, suc, ◌+◌, ◌≤◌, ◌<◌, length, get_elem?, get_or, ◌≡◌, refl, sym, ap, subst, ◌∙◌, true,
  Option, none, some, List, [], ◌∷◌, ◌++◌, append-nil, append_assoc, arith,
}
use thesis_b_cs_tu_berlin.Params.{max_log_entry, num_log_buff}
use thesis_b_cs_tu_berlin.Memory.{◌>>=◌}
use thesis_b_cs_tu_berlin.Payload.{Payload}
use thesis_b_cs_tu_berlin.Log.{entry, Exported}
use thesis_b_cs_tu_berlin.Log.Alloc.{obtained, all_succeed}
use thesis_b_cs_tu_berlin.Log.Closing.{
  ebpf_us, End, exported, Host, close_log, with_log, close_log_lem, with_log_lem,
  length-obtained_all,
}
use thesis_b_cs_tu_berlin.Bpf.{BpfArray}
use thesis_b_cs_tu_berlin.EbpfUser.{follow}
use thesis_b_cs_tu_berlin.EbpfUser.Follow.{AllKeyed}
use thesis_b_cs_tu_berlin.EbpfUser.Progress.{AllThere, times_of, follow_progress}

module _ (times : BpfArray ℕ) where
  -- One round of the second export: a line, or an error message and no line.
  abbrev pub time_line : times.Map → ℕ → List ℕ → List ℕ
  time_line m i lines = elim (times.lookup m i) [ none ↦ lines | some v ↦ lines ++ v ∷ [] ]

  -- `for (i = ...; i < MAX_LOG_ENTRY; i++)` with `rounds` rounds left.
  unfoldable pub time_loop : times.Map → ℕ → ℕ → List ℕ → List ℕ
  time_loop m zero i lines = lines
  time_loop m (suc rounds) i lines = time_loop m rounds (i + 1) (time_line m i lines)

  unfoldable pub export_times : times.Map → List ℕ
  export_times m = time_loop m max_log_entry 0 []

  -- `n` values of the map from key `i` on are `vs`.
  abbrev pub HasTimes : times.Map → ℕ → List ℕ → Type 0
  HasTimes m i [] = Unit {0}
  HasTimes m i (v ∷ vs) = (times.lookup m i ≡ some v) × HasTimes m (i + 1) vs

  time_loop_lem :
      (m : times.Map) (rounds i : ℕ) (lines : List ℕ)
      → i + rounds ≤ times.max_entries
      → (vs : List ℕ) × (time_loop m rounds i lines ≡ lines ++ vs)
        × (length vs ≡ rounds)
        × HasTimes m i vs
  unfolding time_loop
  time_loop_lem m zero i lines h = ([], sym (append-nil lines), refl, tt)
  time_loop_lem m (suc rounds) i lines h =
      let (v, e) = times.lookup_in m i (omega arith) in
      let (vs, run, len, has) = time_loop_lem m rounds (i + 1) (lines ++ v ∷ []) (omega arith) in
      (v ∷ vs, rw (e, time_line) (run ∙ append_assoc lines (v ∷ []) vs), ap suc len, (e, has))

  -- If the map has a key for each uid below `MAX_LOG_ENTRY`, the second export writes one line for each
  -- of them, in order, with the time that the XDP program has stored under it.
  pub export_times_lem :
      (m : times.Map)
      → max_log_entry ≤ times.max_entries
      → (length (export_times m) ≡ max_log_entry) × HasTimes m 0 (export_times m)
  unfolding export_times
  export_times_lem m h =
      let (vs, run, len, has) = time_loop_lem m max_log_entry 0 [] h in
      (ap length run ∙ len, subst (HasTimes m 0) (sym run) has)

module _ (pkts : BpfArray Payload) where
  -- From the allocation of the log to the end of the first export.
  unfoldable pub measure : Host → List (pkts.Map × ℕ) → Option End
  measure h rounds =
      with_log h (λ held. follow pkts rounds 0 h.memory >>= λ r. close_log h ebpf_us held r.1)

  -- A measurement that gets its memory and its file, and in which the map has the packets of the first
  -- `k` uids in each of `k` rounds or more, ends with the file written and every log buffer freed once.
  -- The file has one line for each uid, and line `i`, for `i` below `k`, is the time of round `i`.
  pub measure_reports :
      (h : Host) (k : ℕ) (rounds : List (pkts.Map × ℕ))
      → all_succeed h.alloc num_log_buff 0 ≡ true
      → h.opens ≡ true
      → k ≤ max_log_entry
      → k ≤ length rounds
      → AllThere pkts k rounds
      → AllKeyed pkts rounds
      → (out : Exported) × (measure h rounds
          ≡ some (exported ebpf_us out (obtained h.alloc num_log_buff 0)))
        × (length out.lines ≡ max_log_entry)
        × ((i : ℕ) → i < k → get_elem? out.lines i ≡ some (get_or (times_of pkts rounds) i 0))
  unfolding measure
  measure_reports h k rounds ok o hk enough there keyed =
      let held = obtained h.alloc num_log_buff 0 in
      let (next, log, e, bound, stamps) =
        follow_progress pkts k rounds h.memory hk enough there keyed in
      let (out, c, reports) =
        close_log_lem h ebpf_us held log (entry log) o (length-obtained_all h ok) (λ i hi. refl) in
      (
        out,
        (with_log_lem h _).0 ok ∙ rw e c,
        reports.one_each,
        λ i hi. reports.in_order i (omega arith) ∙ ap some (stamps i hi),
      )
