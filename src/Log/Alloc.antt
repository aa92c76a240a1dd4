-- ===== src/Log/Alloc.antt =====
-- The loop that allocates `log_buffs`, with the clean-up when an allocation fails, as in `myinit`
-- of intercept-module.c and `main` of user-processing.c, server.c and ebpf_measure_user.c.
-- `alloc i` is what the allocator (`malloc`, `__get_free_pages`) answers at round `i`.
use thesis_b_cs_tu_berlin.Prelude.{
  ℕ, zero, suc, ◌+◌, ◌<◌, length, get_elem?, drop, length-append, if◌then◌else◌, Option-cases, ◌≡◌,
  refl, sym, ap, ◌∙◌, inl, inr, Bool, true, false, Option, none, some, List, [], ◌∷◌, ◌++◌,
  append-nil, append_assoc, arith,
}
use thesis_b_cs_tu_berlin.Params.{num_log_buff}

-- What the loop leaves: the filled array, or the `return -1` with the pointers passed to `free`.
pub data Outcome : Type 0 where
  allocated : List ℕ → Outcome
  failed : List ℕ → Outcome

-- `for (j = ...; j < i; j++) free(log_buffs[j])` with `rounds` rounds left. `none` is a read of an
-- entry that was never set.
unfoldable pub free_loop : List ℕ → ℕ → ℕ → List ℕ → Option (List ℕ)
free_loop log_buffs zero j freed = some freed
free_loop log_buffs (suc rounds) j freed = elim (get_elem? log_buffs j) [
  | none ↦ none
  | some r ↦ free_loop log_buffs rounds (j + 1) (freed ++ r ∷ [])
]

module _ (alloc : ℕ → Option ℕ) where
  -- `log_buffs` holds the entries that are set.
  unfoldable pub alloc_loop : ℕ → ℕ → List ℕ → Option Outcome
  alloc_loop zero i log_buffs = some (allocated log_buffs)
  alloc_loop (suc rounds) i log_buffs = elim (alloc i) [
    | none ↦ elim (free_loop log_buffs i 0 []) [ none ↦ none | some freed ↦ some (failed freed) ]
    | some r ↦ alloc_loop rounds (i + 1) (log_buffs ++ r ∷ [])
  ]

  unfoldable pub alloc_log_buffs : Option Outcome
  alloc_log_buffs = alloc_loop num_log_buff 0 []

  -- The pointers of rounds `i`, ..., `i + n - 1`, up to the first failure, and whether one failed.
  unfoldable pub obtained : ℕ → ℕ → List ℕ
  obtained zero i = []
  obtained (suc n) i = elim (alloc i) [ none ↦ [] | some r ↦ r ∷ obtained n (i + 1) ]

  unfoldable pub all_succeed : ℕ → ℕ → Bool
  all_succeed zero i = true
  all_succeed (suc n) i = elim (alloc i) [ none ↦ false | some r ↦ all_succeed n (i + 1) ]

drop-cons :
    (xs : List ℕ) (j : ℕ)
    → j < length xs
    → (r : ℕ) × (get_elem? xs j ≡ some r) × (drop j xs ≡ r ∷ drop (suc j) xs)
drop-cons [] j h = elim h [ ]
drop-cons (x ∷ xs) zero h = (x, refl, refl)
drop-cons (x ∷ xs) (suc j) h = drop-cons xs j (omega arith)

drop_all : (xs : List ℕ) (j : ℕ) → j ≡ length xs → drop j xs ≡ []
drop_all [] zero h = refl
drop_all [] (suc j) h = refl
drop_all (x ∷ xs) zero h = absurd (omega arith)
drop_all (x ∷ xs) (suc j) h = drop_all xs j (omega arith)

pub free_loop_lem :
    (xs : List ℕ) (rounds j : ℕ) (freed : List ℕ)
    → j + rounds ≡ length xs
    → free_loop xs rounds j freed ≡ some (freed ++ drop j xs)
unfolding free_loop
free_loop_lem xs zero j freed h = rw (drop_all xs j (omega arith), append-nil)
free_loop_lem xs (suc rounds) j freed h =
    let (r, e, d) = drop-cons xs j (omega arith) in
    rw (e, free_loop)
      (free_loop_lem xs rounds (j + 1) (freed ++ r ∷ []) (omega arith)
        ∙ ap some (
            append_assoc freed (r ∷ []) (drop (j + 1) xs)
            ∙ ap (λ t. freed ++ t)
                (sym (d ∙ ap (λ k. r ∷ drop k xs) {x = suc j} {y = j + 1} (omega arith)))))

module _ (alloc : ℕ → Option ℕ) where
  -- The allocation loop, for any number of requests and any buffers that it has got before: it ends with
  -- every buffer set, in the allocator's order, exactly when all requests succeed. Otherwise it has freed the
  -- buffers that were there and those that it got before the first failure, each once and in order, and no
  -- entry that was never set is read.
  pub alloc_loop_lem :
      (rounds i : ℕ) (held : List ℕ)
      → i ≡ length held
      → alloc_loop alloc rounds i held
        ≡ some (
            if all_succeed alloc rounds i
            then allocated (held ++ obtained alloc rounds i)
            else failed (held ++ obtained alloc rounds i))
  unfolding alloc_loop all_succeed obtained
  alloc_loop_lem zero i held h = rw append-nil
  alloc_loop_lem (suc rounds) i held h = elim (Option-cases (alloc i)) [
    | inl e ↦
        rw (
          e,
          alloc_loop,
          all_succeed,
          obtained,
          append-nil,
          free_loop_lem held i 0 [] (omega arith),
        )
    | inr (r, e) ↦
        rw (e, alloc_loop, all_succeed, obtained)
          (alloc_loop_lem rounds (i + 1) (held ++ r ∷ [])
              (omega (arith, length-append held (r ∷ [])))
            ∙ rw (append_assoc held (r ∷ [])))
  ]

  pub alloc_log_buffs_lem :
      alloc_log_buffs alloc
      ≡ some (
          if all_succeed alloc num_log_buff 0
          then allocated (obtained alloc num_log_buff 0)
          else failed (obtained alloc num_log_buff 0))
  unfolding alloc_log_buffs
  alloc_log_buffs_lem = alloc_loop_lem num_log_buff 0 [] refl
