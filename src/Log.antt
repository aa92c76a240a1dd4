-- ===== src/Log.antt =====
-- `log_buffs` and the code round it in intercept-module.c, user-processing.c, server.c and
-- ebpf_measure_user.c, which is the same in all four: one time stamp for each uid, in
-- `NUM_LOG_BUFF` buffers of `MAX_ENTRIES_PER_LOG_BUFF` entries.
use thesis_b_cs_tu_berlin.Prelude.{
  ℕ, zero, suc, ◌+◌, ◌/◌, ◌%◌, ◌^◌, Bool, ltb, ◌==◌, if◌then◌else◌, ◌&&◌, Option, none, some, List,
  [], ◌∷◌, ◌++◌,
}
use thesis_b_cs_tu_berlin.Params.{max_log_entry, max_entries_per_log_buff, num_log_buff}
use thesis_b_cs_tu_berlin.Memory.{◌>>=◌}
pub mod Alloc
pub mod Entries
pub mod Export
pub mod Closing
pub mod Text

-- `log_buffs[b][j]`, for b below `num_log_buff` and j below `max_entries_per_log_buff`.
abbrev pub Log : Type 0
Log = ℕ → ℕ → ℕ

-- `log_buffs[b][j]` is memory that the program has allocated.
abbrev pub in_log : ℕ → ℕ → Bool
in_log b j = ltb b num_log_buff && ltb j max_entries_per_log_buff

unfoldable pub log_load : Log → ℕ → Option ℕ
log_load l i =
    let b = i / max_entries_per_log_buff in
    let j = i % max_entries_per_log_buff in if in_log b j then some (l b j) else none

-- The guarded write of a time stamp, its guard included: a uid out of range is dropped.
unfoldable pub log_store : Log → ℕ → ℕ → Option Log
log_store l uid now =
    let b = uid / max_entries_per_log_buff in
    let j = uid % max_entries_per_log_buff in
    if ltb uid max_log_entry
    then (if in_log b j then some (λ b' j'. if b' == b && j' == j then now else l b' j') else none)
    else some l

-- The entry of a uid.
unfoldable pub entry : Log → ℕ → ℕ
entry l uid = l (uid / max_entries_per_log_buff) (uid % max_entries_per_log_buff)

-- What an export has written: the numbers of its lines, and the count that it prints at the end.
pub record Exported : Type 0 where
  pub lines : List ℕ
  pub zeroed : ℕ

-- One round of the export loop.
unfoldable pub export_line : Log → ℕ → Exported → Option Exported
unfolding log_load
export_line l i out = log_load l i >>= λ v. some (record {
  lines = out.lines ++ v ∷ [];
  zeroed = if v == 0 then (out.zeroed + 1) % 2 ^ 64 else out.zeroed;
})

-- `for (i = ...; i < MAX_LOG_ENTRY; i++)`, with `rounds` rounds left.
unfoldable pub export_loop : Log → ℕ → ℕ → Exported → Option Exported
export_loop l zero i out = some out
export_loop l (suc rounds) i out = export_line l i out >>= λ out'. export_loop l rounds (i + 1) out'

unfoldable pub export_log : Log → Option Exported
export_log l = export_loop l max_log_entry 0 (record { lines = []; zeroed = 0 })
