-- ===== src/CommandLine/Usage/Bounds.antt =====
-- The buffer of the usage text.
use thesis_b_cs_tu_berlin.Prelude.{
  length, ltb, Bool-cases, is_none, ◌≡◌, refl, ap, ap₂, subst, ◌∙◌, inl, inr, Bool, true, false,
  ◌&&◌, ◌||◌, Option, none, some, List, [], ◌∷◌, ◌++◌, arith,
}
use thesis_b_cs_tu_berlin.Memory.{◌>>=◌}
use thesis_b_cs_tu_berlin.CommandLine.{Text}
use thesis_b_cs_tu_berlin.CommandLine.Usage.{
  OptionWrapper, option_buf, option_line, same_flag, entry_text, print_options, usage, long_options,
}

-- An entry with a metavariable and a name of more than 27 bytes.
abbrev pub too_long : Option Text → Text → Bool
too_long none name = false
too_long (some metavar) name = ltb 27 (length name)

-- Some entry before the end mark is too long, of those that `required` asks for, or of all.
abbrev pub some_too_long : List OptionWrapper → Bool
some_too_long [] = false
some_too_long (w ∷ table) = elim w.option.name [
  | none ↦ false
  | some name ↦ too_long w.metavar name || some_too_long table
]

abbrev one_too_long : Bool → List OptionWrapper → Bool
one_too_long required [] = false
one_too_long required (w ∷ table) = elim w.option.name [
  | none ↦ false
  | some name ↦
      (same_flag w.required required && too_long w.metavar name) || one_too_long required table
]

-- The table has an end mark.
abbrev pub HasEnd : List OptionWrapper → Type 0
HasEnd [] = ⊥
HasEnd (w ∷ table) = elim w.option.name [ none ↦ Unit {0} | some name ↦ HasEnd table ]

abbrev HasEndBelow : List OptionWrapper → Option Text → Type 0
HasEndBelow table none = Unit {0}
HasEndBelow table (some name) = HasEnd table

option_buf_lem :
    (name : Text) (metavar : Option Text)
    → is_none (option_buf name metavar) ≡ too_long metavar name
unfolding option_buf
option_buf_lem name none = refl
option_buf_lem name (some metavar) = ground arith

-- A run of two parts fails if one of them does.
both_lem :
    (o p : Option Text) (f : Text → Text → Text)
    → is_none (o >>= λ a. p >>= λ b. some (f a b)) ≡ (is_none o || is_none p)
both_lem none p f = refl
both_lem (some a) none f = refl
both_lem (some a) (some b) f = refl

then_lem : (o : Option Text) (f : Text → Text) → is_none (o >>= λ a. some (f a)) ≡ is_none o
then_lem none f = refl
then_lem (some a) f = refl

entry_text_lem :
    (required : Bool) (w : OptionWrapper) (name : Text)
    → is_none (entry_text required w name)
      ≡ (same_flag w.required required && too_long w.metavar name)
unfolding option_line
entry_text_lem required w name = elim (Bool-cases (same_flag w.required required)) [
  | inl asked ↦ rw asked (then_lem (option_buf name w.metavar) _ ∙ option_buf_lem name w.metavar)
  | inr other ↦ rw other refl
]

print_options_lem :
    (table : List OptionWrapper) (required : Bool)
    → HasEnd table
    → is_none (print_options table required) ≡ one_too_long required table
unfolding print_options
print_options_lem [] required h = absurd h
print_options_lem (w ∷ table) required h =
    by_name w.option.name refl (print_options_lem table required) h
  where
    by_name :
        (o : Option Text)
        → w.option.name ≡ o
        → (HasEnd table → is_none (print_options table required) ≡ one_too_long required table)
        → HasEnd (w ∷ table)
        → is_none (print_options (w ∷ table) required) ≡ one_too_long required (w ∷ table)
    by_name none e ih h = rw (e, print_options, one_too_long) refl
    by_name (some name) e ih h =
        rw (e, print_options, one_too_long)
          (both_lem (entry_text required w name) (print_options table required) (λ a b. a ++ b)
            ∙ ap₂ ◌||◌ (entry_text_lem required w name) (ih (subst (HasEndBelow table) e h)))

either_lem :
    (table : List OptionWrapper)
    → (one_too_long true table || one_too_long false table) ≡ some_too_long table
either_lem [] = refl
either_lem (w ∷ table) = by_name w.option.name refl (either_lem table)
  where
    by_name :
        (o : Option Text)
        → w.option.name ≡ o
        → (one_too_long true table || one_too_long false table) ≡ some_too_long table
        → (one_too_long true (w ∷ table) || one_too_long false (w ∷ table))
          ≡ some_too_long (w ∷ table)
    by_name none e ih = rw (e, one_too_long, some_too_long) refl
    by_name (some name) e ih =
        rw (e, one_too_long, some_too_long)
          (one_of_two w.required (too_long w.metavar name) _ _
            ∙ ap (λ b. too_long w.metavar name || b) ih)
      where
        one_of_two :
            (asked long b c : Bool)
            → ((same_flag asked true && long) || b || ((same_flag asked false && long) || c))
              ≡ (long || (b || c))
        one_of_two asked long b c = ground arith

usage_fits :
    (prog_name doc : Text) (table : List OptionWrapper) (full : Bool)
    → HasEnd table
    → is_none (usage prog_name doc table full) ≡ (full && some_too_long table)
unfolding usage
usage_fits prog_name doc table false h = refl
usage_fits prog_name doc table true h =
    both_lem (print_options table true) (print_options table false) _
    ∙ ap₂ ◌||◌ (print_options_lem table true h) (print_options_lem table false h)
    ∙ either_lem table

-- Printing the usage of a table with an end mark stays inside the table and inside the buffer of 30
-- bytes, exactly unless the full text is asked for and some option has a metavariable and a name of more
-- than 27 bytes. The program's own table has no such option.
pub usage_lem :
    (prog_name doc : Text) (table : List OptionWrapper) (full : Bool)
    → HasEnd table
    → (is_none (usage prog_name doc table full) ≡ (full && some_too_long table))
      × (is_none (usage prog_name doc long_options full) ≡ false)
usage_lem prog_name doc table full h = (
  usage_fits prog_name doc table full h,
  usage_fits prog_name doc long_options full tt ∙ own_table full,
)
  where
    own_table : (full : Bool) → (full && some_too_long long_options) ≡ false
    own_table true = refl
    own_table false = refl
