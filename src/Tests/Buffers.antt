-- ===== src/Tests/Buffers.antt =====
-- The log buffers at concrete inputs.
use thesis_b_cs_tu_berlin.Prelude.{
  ℕ, ltb, ◌+◌, ◌^◌, ◌<◌, length, get_elem?, if◌then◌else◌, ◌≡◌, refl, false, Option, none, some,
  List, [], ◌∷◌, arith,
}
use thesis_b_cs_tu_berlin.Params.{max_log_entry}
use thesis_b_cs_tu_berlin.Log.{Log, entry, Exported, export_log}
use thesis_b_cs_tu_berlin.Log.Export.{count_zero}
use thesis_b_cs_tu_berlin.Log.Text.{decimal, file_text, read_file, export_log-read_file}
use thesis_b_cs_tu_berlin.Log.Alloc.{
  allocated, failed, alloc_loop, obtained, all_succeed, alloc_loop_lem,
}

abbrev counting : Log
counting b j = j

counting_fits : (i : ℕ) → i < max_log_entry → entry counting i < 2 ^ 64
unfolding entry
counting_fits i h = ground arith

export_log-read_file_example :
    (out : Exported) × (times : List ℕ) × (export_log counting ≡ some out)
    × (read_file (file_text out.lines) 0 false ≡ some times)
    × (length times ≡ max_log_entry)
    × ((i : ℕ) → i < max_log_entry → get_elem? times i ≡ some (entry counting i))
    × (out.zeroed ≡ count_zero times)
export_log-read_file_example = export_log-read_file counting counting_fits

-- "120\n7\n"
two_lines : file_text (120 ∷ 7 ∷ []) ≡ 49 ∷ 50 ∷ 48 ∷ 10 ∷ 55 ∷ 10 ∷ []
unfolding file_text decimal
two_lines = refl

-- Two requests succeed, and no other.
abbrev exhausted : ℕ → Option ℕ
exhausted i = if ltb i 2 then some (4096 + i) else none

alloc_loop_lem_example :
    alloc_loop exhausted 3 0 []
    ≡ some (
        if all_succeed exhausted 3 0
        then allocated (obtained exhausted 3 0)
        else failed (obtained exhausted 3 0))
alloc_loop_lem_example = alloc_loop_lem exhausted 3 0 [] refl

exhausted_frees : obtained exhausted 3 0 ≡ 4096 ∷ 4097 ∷ []
unfolding obtained
exhausted_frees = refl

exhausted_fails : all_succeed exhausted 3 0 ≡ false
unfolding all_succeed
exhausted_fails = refl
