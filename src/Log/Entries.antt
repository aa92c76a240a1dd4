-- ===== src/Log/Entries.antt =====
-- Writing and reading one entry.
use thesis_b_cs_tu_berlin.Prelude.{
  ℕ, ◌/◌, ◌%◌, ◌<◌, ◌≡◌, ltb, ◌==◌, if◌then◌else◌, ◌&&◌, arith, some,
}
use thesis_b_cs_tu_berlin.Params.{max_log_entry, max_entries_per_log_buff}
use thesis_b_cs_tu_berlin.Log.{Log, log_load, log_store, entry}

-- The buffers after the write.
abbrev pub log_after : Log → ℕ → ℕ → Log
log_after l uid now =
    if ltb uid max_log_entry
    then (λ b j.
        if b == uid / max_entries_per_log_buff && j == uid % max_entries_per_log_buff
        then now
        else l b j)
    else l

pub log_store-after : (l : Log) (uid now : ℕ) → log_store l uid now ≡ some (log_after l uid now)
unfolding log_store
log_store-after l uid now = ground arith

pub entry-log_after :
    (l : Log) (uid now i : ℕ)
    → i < max_log_entry
    → entry (log_after l uid now) i ≡ (if i == uid then now else entry l i)
unfolding entry
entry-log_after l uid now i h = ground arith

pub log_load-entry : (l : Log) (i : ℕ) → i < max_log_entry → log_load l i ≡ some (entry l i)
unfolding log_load entry
log_load-entry l i h = ground arith
