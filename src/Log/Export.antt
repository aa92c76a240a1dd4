-- ===== src/Log/Export.antt =====
-- What the export loop writes.
use thesis_b_cs_tu_berlin.Prelude.{
  ℕ, zero, suc, ◌+◌, ◌%◌, ◌^◌, ◌≤◌, ◌<◌, length, get_elem?, ◌==◌, if◌then◌else◌, ◌≡◌, refl, sym, ap,
  ◌∙◌, some, List, [], ◌∷◌, ◌++◌, append-nil, append_assoc, arith,
}
use thesis_b_cs_tu_berlin.Params.{max_log_entry}
use thesis_b_cs_tu_berlin.Log.{Log, entry, Exported, export_line, export_loop, export_log}
use thesis_b_cs_tu_berlin.Log.Entries.{log_load-entry}

-- The entries of `n` uids from `i` on.
pub entries : Log → ℕ → ℕ → List ℕ
entries l i zero = []
entries l i (suc n) = entry l i ∷ entries l (i + 1) n

pub count_zero : List ℕ → ℕ
count_zero [] = 0
count_zero (x ∷ xs) = if x == 0 then suc (count_zero xs) else count_zero xs

pub length-entries : (l : Log) (i n : ℕ) → length (entries l i n) ≡ n
unfolding entries
length-entries l i zero = refl
length-entries l i (suc n) = ap suc (length-entries l (i + 1) n)

pub get_elem?-entries :
    (l : Log) (i n k : ℕ) → k < n → get_elem? (entries l i n) k ≡ some (entry l (i + k))
unfolding entries
get_elem?-entries l i zero k h = elim h [ ]
get_elem?-entries l i (suc n) zero h = ap (λ t. some (entry l t)) (omega arith)
get_elem?-entries l i (suc n) (suc k) h =
    get_elem?-entries l (i + 1) n k (omega arith) ∙ ap (λ t. some (entry l t)) (omega arith)

export_line_lem :
    (l : Log) (i : ℕ) (out : Exported)
    → i < max_log_entry
    → export_line l i out
      ≡ some (record {
        lines = out.lines ++ entry l i ∷ [];
        zeroed = if entry l i == 0 then (out.zeroed + 1) % 2 ^ 64 else out.zeroed;
      })
unfolding export_line
export_line_lem l i out h = rw (log_load-entry l i h)

abbrev Wrote : Log → ℕ → ℕ → Exported → Exported → Type 0
Wrote l rounds i out out' =
    (out'.lines ≡ out.lines ++ entries l i rounds)
    × (out'.zeroed ≡ out.zeroed + count_zero (entries l i rounds))

export_loop_lem :
    (l : Log) (rounds i : ℕ) (out : Exported)
    → i + rounds ≤ max_log_entry
    → out.zeroed + rounds < 2 ^ 64
    → (out' : Exported) × (export_loop l rounds i out ≡ some out') × Wrote l rounds i out out'
unfolding export_loop entries count_zero
export_loop_lem l zero i out h z = (out, refl, (sym (append-nil out.lines), omega arith))
export_loop_lem l (suc rounds) i out h z =
    let next : Exported = record {
      lines = out.lines ++ entry l i ∷ [];
      zeroed = if entry l i == 0 then (out.zeroed + 1) % 2 ^ 64 else out.zeroed;
    } in
    let bound : next.zeroed + rounds < 2 ^ 64 = ground arith in
    let (out', e, (lines_eq, zeroed_eq)) =
      export_loop_lem l rounds (i + 1) next (omega arith) bound in
    (
      out',
      rw (export_line_lem l i out (omega arith)) e,
      (lines_eq ∙ append_assoc out.lines (entry l i ∷ []) _, ground (arith, zeroed_eq)),
    )

-- The export always runs to its end. It writes one line for each uid below `MAX_LOG_ENTRY`, in
-- order, line `i` being the time stamp of uid `i`, and counts the lines that are 0.
pub export_log_lem :
    (l : Log)
    → (out : Exported) × (export_log l ≡ some out)
      × (length out.lines ≡ max_log_entry)
      × ((i : ℕ) → i < max_log_entry → get_elem? out.lines i ≡ some (entry l i))
      × (out.zeroed ≡ count_zero out.lines)
unfolding export_log
export_log_lem l =
    let (out, e, (lines_eq, zeroed_eq)) =
      export_loop_lem l max_log_entry 0 (record { lines = []; zeroed = 0 }) (omega arith)
        (omega arith) in
    (
      out,
      e,
      rw lines_eq (length-entries l 0 max_log_entry),
      λ i h.
          rw lines_eq
            (get_elem?-entries l 0 max_log_entry i h ∙ ap (λ t. some (entry l t)) (omega arith)),
      rw lines_eq (omega (arith, zeroed_eq)),
    )
