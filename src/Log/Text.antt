-- ===== src/Log/Text.antt =====
-- The log file's text: `fprintf(fp, "%lu\n", ...)` for each entry, as the four receivers write it.
use thesis_b_cs_tu_berlin.Prelude.{
  ℕ, zero, suc, ◌+◌, ◌-◌, ◌*◌, ◌/◌, ◌%◌, ◌^◌, ◌<◌, length, get_elem?, ltb, leb, ◌==◌, if◌then◌else◌,
  ltb→lt, Bool-cases, ◌≡◌, refl, sym, ap, subst, ◌∙◌, inl, inr, Bool, true, false, ◌&&◌, Option,
  none, some, List, [], ◌∷◌, ◌++◌, append_assoc, arith,
}
use thesis_b_cs_tu_berlin.Params.{max_log_entry}
use thesis_b_cs_tu_berlin.Log.{Log, entry, Exported, export_log}
use thesis_b_cs_tu_berlin.Log.Export.{count_zero, export_log_lem}

-- `%lu`, for a number of `places + 1` digits or less; '0' is 48.
unfoldable pub decimal : ℕ → ℕ → List ℕ
decimal zero n = (48 + n % 10) ∷ []
decimal (suc places) n =
    let before = decimal places (n / 10) in
    if ltb n 10 then (48 + n) ∷ [] else before ++ (48 + n % 10) ∷ []

-- An `unsigned long` has 20 digits at most.
abbrev pub line_text : ℕ → List ℕ
line_text n = decimal 19 n ++ 10 ∷ []

unfoldable pub file_text : List ℕ → List ℕ
file_text [] = []
file_text (n ∷ lines) = line_text n ++ file_text lines

-- How a reader takes such a file: lines of one digit or more, each ended by a newline. `n` is the number
-- that the line's digits spell so far, and `begun` whether there was one.
unfoldable pub read_file : List ℕ → ℕ → Bool → Option (List ℕ)
read_file [] n begun = if begun then none else some []
read_file (c ∷ text) n begun =
    let line_ends = read_file text 0 false in
    let goes_on = read_file text (n * 10 + (c - 48)) true in
    if c == 10
    then (if begun then (elim line_ends [ none ↦ none | some lines ↦ some (n ∷ lines) ]) else none)
    else (if leb 48 c && leb c 57 then goes_on else none)

-- The least number that has too many digits.
limit : ℕ → ℕ
limit zero = 10
limit (suc places) = 10 * limit places

read-digit :
    (text : List ℕ) (n d : ℕ) (begun : Bool)
    → d < 10
    → read_file ((48 + d) ∷ text) n begun ≡ read_file text (n * 10 + d) true
unfolding read_file
read-digit text n d begun h =
    let no_newline : (48 + d == 10) ≡ false = ground arith in
    let digit : (leb 48 (48 + d) && leb (48 + d) 57) ≡ true = ground arith in
    rw (no_newline, digit) (ap (λ m. read_file text m true) (omega arith))

read-decimal :
    (places n : ℕ) (text : List ℕ) (begun : Bool)
    → n < limit places
    → read_file (decimal places n ++ text) 0 begun ≡ read_file text n true
unfolding decimal limit
read-decimal zero n text begun h =
    read-digit text 0 (n % 10) begun (omega arith) ∙ ap (λ m. read_file text m true) (omega arith)
read-decimal (suc places) n text begun h = elim (Bool-cases (ltb n 10)) [
  | inl one ↦
      rw one
        (read-digit text 0 n begun (ltb→lt _ _ one) ∙ ap (λ m. read_file text m true) (omega arith))
  | inr more ↦
      rw (more, append_assoc (decimal places (n / 10)) ((48 + n % 10) ∷ []) text)
        (read-decimal places (n / 10) ((48 + n % 10) ∷ text) begun (omega arith)
          ∙ read-digit text (n / 10) (n % 10) true (omega arith)
          ∙ ap (λ m. read_file text m true) (omega arith))
]

-- Every line is an `unsigned long`.
abbrev pub AllWide : List ℕ → Type 0
AllWide [] = Unit {0}
AllWide (n ∷ lines) = (n < 2 ^ 64) × AllWide lines

read_file-file_text :
    (lines : List ℕ) → AllWide lines → read_file (file_text lines) 0 false ≡ some lines
unfolding file_text read_file limit
read_file-file_text [] h = refl
read_file-file_text (n ∷ lines) (h, hs) =
    ap (λ t. read_file t 0 false) (append_assoc (decimal 19 n) (10 ∷ []) (file_text lines))
    ∙ read-decimal 19 n (10 ∷ file_text lines) false (omega arith)
    ∙ rw (read_file-file_text lines hs) refl

AllWide-each :
    (lines : List ℕ) → ((i v : ℕ) → get_elem? lines i ≡ some v → v < 2 ^ 64) → AllWide lines
AllWide-each [] h = tt
AllWide-each (n ∷ lines) h = (h 0 n refl, AllWide-each lines (λ i v e. h (suc i) v e))

get_elem?-lt : (lines : List ℕ) (i v : ℕ) → get_elem? lines i ≡ some v → i < length lines
get_elem?-lt [] i v e = cc
get_elem?-lt (n ∷ lines) zero v e = omega arith
get_elem?-lt (n ∷ lines) (suc i) v e = omega (arith, get_elem?-lt lines i v e)

-- The export of a log of `unsigned long`s always runs to its end, and a reader of its file gets the log
-- back: one number for each uid below `MAX_LOG_ENTRY`, in order, number `i` being the time stamp of uid
-- `i`. The count `zeroed` is the number of zeros among them.
pub export_log-read_file :
    (l : Log)
    → ((i : ℕ) → i < max_log_entry → entry l i < 2 ^ 64)
    → (out : Exported) × (times : List ℕ) × (export_log l ≡ some out)
      × (read_file (file_text out.lines) 0 false ≡ some times)
      × (length times ≡ max_log_entry)
      × ((i : ℕ) → i < max_log_entry → get_elem? times i ≡ some (entry l i))
      × (out.zeroed ≡ count_zero times)
export_log-read_file l wide =
    let (out, e, len, each, zeros) = export_log_lem l in
    (
      out,
      out.lines,
      e,
      read_file-file_text out.lines (
          AllWide-each out.lines λ i v found.
            let hi : i < max_log_entry = omega (arith, get_elem?-lt out.lines i v found, len) in
            subst (λ t. t < 2 ^ 64) (same i v (sym (each i hi) ∙ found)) (wide i hi)),
      len,
      each,
      zeros,
    )
  where
    same : (i v : ℕ) → some (entry l i) ≡ some v → entry l i ≡ v
    same i v e = cc
