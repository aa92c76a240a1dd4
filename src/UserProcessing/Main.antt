-- ===== src/UserProcessing/Main.antt =====
-- `main` of mymodule/kernel_module/user-processing.c: the log, the proc file, the loop and the export.
use thesis_b_cs_tu_berlin.Prelude.{
  ℕ, ◌<◌, if◌then◌else◌, ◌≡◌, refl, ap, ◌∙◌, Bool, true, false, ◌||◌, Option, some, List, [], ◌∷◌,
}
use thesis_b_cs_tu_berlin.Params.{pkts_per_buffer, max_log_entry, num_log_buff}
use thesis_b_cs_tu_berlin.Memory.{Bytes, ◌>>=◌}
use thesis_b_cs_tu_berlin.Log.{Log, entry, Exported}
use thesis_b_cs_tu_berlin.Log.Alloc.{obtained, all_succeed}
use thesis_b_cs_tu_berlin.Log.Closing.{
  km_user, End, aborts, exported, Host, close_log, with_log, Reports, close_log_lem, with_log_lem,
  length-obtained_all,
}
use thesis_b_cs_tu_berlin.UserProcessing.{process_buffer}
use thesis_b_cs_tu_berlin.UserProcessing.Slots.{is_empty, overruns, noted, process_buffer_lem}

-- What one `pread` has put into the zeroed `buff_read`, and the answers of `get_nsecs` at its slots.
abbrev pub Read : Type 0
Read = Bytes × (ℕ → ℕ)

-- `while (keep_running)`: the signal comes after the last of these reads.
unfoldable pub process_reads : List Read → Log → Option Log
process_reads [] log = some log
process_reads ((b, clock) ∷ reads) log =
    process_buffer b clock log >>= λ log'. process_reads reads log'

-- Past the allocation. `open_fails` and `mmap_fails` are those calls' answers; `assert(0)` follows.
unfoldable pub watch : Host → Bool → Bool → List Read → List ℕ → Option End
watch h open_fails mmap_fails reads held =
    if open_fails || mmap_fails
    then some aborts
    else (process_reads reads h.memory >>= λ log. close_log h km_user held log)

unfoldable pub main : Host → Bool → Bool → List Read → Option End
main h open_fails mmap_fails reads = with_log h (watch h open_fails mmap_fails reads)

-- The slots from which a whole `struct Payload` does not fit are empty.
abbrev pub IsSafe : Bytes → Type 0
IsSafe b = (k : ℕ) → k < pkts_per_buffer → overruns k ≡ true → is_empty b k ≡ true

abbrev pub AllSafe : List Read → Type 0
AllSafe [] = Unit {0}
AllSafe ((b, clock) ∷ reads) = IsSafe b × AllSafe reads

-- The time that the reads give to a uid that had `old`.
unfoldable pub noted_in_all : List Read → ℕ → ℕ → ℕ
noted_in_all [] uid old = old
noted_in_all ((b, clock) ∷ reads) uid old =
    noted_in_all reads uid (noted b clock pkts_per_buffer 0 uid old)

process_reads_lem :
    (reads : List Read) (log : Log)
    → AllSafe reads
    → (log' : Log) × (process_reads reads log ≡ some log')
      × ((uid : ℕ) → uid < max_log_entry → entry log' uid ≡ noted_in_all reads uid (entry log uid))
unfolding process_reads noted_in_all
process_reads_lem [] log safe = (log, refl, λ uid h. refl)
process_reads_lem ((b, clock) ∷ reads) log safe =
    let (log₁, e₁, eqs₁) = process_buffer_lem b clock log safe.0 in
    let (log₂, e₂, eqs₂) = process_reads_lem reads log₁ safe.1 in
    (log₂, rw e₁ e₂, λ uid h. eqs₂ uid h ∙ ap (noted_in_all reads uid) (eqs₁ uid h))

-- A run of the program that gets its memory and its files, and reads only buffers in which the last
-- slots, from which a whole `struct Payload` does not fit, are empty, stays inside its memory, writes
-- its file and frees every log buffer once. Line `i` of the file is the time of the last slot, over all
-- reads, that carries a data packet of uid `i`, or else what the allocated memory held there.
pub user_main-Reports :
    (h : Host) (reads : List Read)
    → all_succeed h.alloc num_log_buff 0 ≡ true
    → h.opens ≡ true
    → AllSafe reads
    → (out : Exported) × (main h false false reads
        ≡ some (exported km_user out (obtained h.alloc num_log_buff 0)))
      × Reports (λ i. noted_in_all reads i (entry h.memory i)) out
unfolding main watch
user_main-Reports h reads ok o safe =
    let held = obtained h.alloc num_log_buff 0 in
    let (log, e, eqs) = process_reads_lem reads h.memory safe in
    let (out, c, reports) = close_log_lem h km_user held log _ o (length-obtained_all h ok) eqs in
    (out, (with_log_lem h (watch h false false reads)).0 ok ∙ rw e c, reports)
