-- ===== src/CommandLine/Table.antt =====
-- `option_wrappers_to_options`: the table of options that goes to `getopt_long`.
use thesis_b_cs_tu_berlin.Prelude.{
  ℕ, ◌+◌, length, take, if◌then◌else◌, ◌≡◌, refl, ap, Bool, true, false, Option, none, some, List,
  [], ◌∷◌, ◌++◌, arith,
}
use thesis_b_cs_tu_berlin.Prelude.Int.{ℤ, pos, negsuc}
use thesis_b_cs_tu_berlin.Memory.{◌>>=◌}

-- An entry of the table, `struct option`: the entry with a NULL name (`none`) is the end mark.
pub record LongOption : Type 0 where
  pub name : Option (List ℕ)
  pub value : ℕ

abbrev pub is_null : Option (List ℕ) → Bool
is_null none = true
is_null (some n) = false

-- `for (i = 0; wrapper[i].option.name != 0; i++) {}`: `none` is a read past the table's end.
unfoldable pub count_options : List LongOption → Option ℕ
count_options [] = none
count_options (o ∷ wrapper) =
    let rest = count_options wrapper in
    if is_null o.name then some 0 else (rest >>= λ n. some (n + 1))

-- The return value and `*options`; `malloc_fails` is whether `malloc` returns NULL.
unfoldable pub option_wrappers_to_options : Bool → List LongOption → Option (ℤ × List LongOption)
option_wrappers_to_options malloc_fails wrapper = count_options wrapper >>= λ num.
    if malloc_fails then some (negsuc 0, []) else some (pos 0, take num wrapper)

abbrev pub AllNamed : List LongOption → Type 0
AllNamed [] = Unit {0}
AllNamed (o ∷ os) = (is_null o.name ≡ false) × AllNamed os

count_options-append :
    (os rest : List LongOption) (end_mark : LongOption)
    → AllNamed os
    → is_null end_mark.name ≡ true
    → count_options (os ++ end_mark ∷ rest) ≡ some (length os)
unfolding count_options
count_options-append [] rest end_mark named last = rw last refl
count_options-append (o ∷ os) rest end_mark named last =
    rw (named.0, count_options-append os rest end_mark named.1 last) (ap some (omega arith))

take-append : (os rest : List LongOption) → take (length os) (os ++ rest) ≡ os
take-append [] rest = refl
take-append (o ∷ os) rest = ap (λ t. o ∷ t) (take-append os rest)

-- A table of named options with an end mark behind them is read no further than the mark. The array
-- that comes out has the named options and no end mark, so a reader that stops at one, as `getopt_long`
-- does, runs past it; when `malloc` fails, the result is -1 and there is no array.
pub option_wrappers_to_options_lem :
    (os rest : List LongOption) (end_mark : LongOption)
    → AllNamed os
    → is_null end_mark.name ≡ true
    → (option_wrappers_to_options false (os ++ end_mark ∷ rest) ≡ some (pos 0, os))
      × (count_options os ≡ none)
      × (option_wrappers_to_options true (os ++ end_mark ∷ rest) ≡ some (negsuc 0, []))
unfolding option_wrappers_to_options count_options
option_wrappers_to_options_lem os rest end_mark named last = (
  rw (count_options-append os rest end_mark named last, take-append os (end_mark ∷ rest)) refl,
  runs_past os named,
  rw (count_options-append os rest end_mark named last) refl,
)
  where
    runs_past : (xs : List LongOption) → AllNamed xs → count_options xs ≡ none
    runs_past [] n = refl
    runs_past (x ∷ xs) n = rw (n.0, runs_past xs n.1) refl
