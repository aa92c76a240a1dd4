-- ===== src/Log/Closing.antt =====
-- What the receivers share round their loops: they allocate the log first, and at the end they write
-- it to a file of mymodule/common.h and free it.
use thesis_b_cs_tu_berlin.Prelude.{
  ℕ, zero, suc, ◌+◌, ◌<◌, length, get_elem?, if◌then◌else◌, Option-cases, ◌≡◌, refl, sym, ap, ◌∙◌,
  inl, inr, Bool, true, false, Option, none, some, List, [],
}
use mathlib.Core.Bool.{false≢true}
use thesis_b_cs_tu_berlin.Params.{max_log_entry, num_log_buff}
use thesis_b_cs_tu_berlin.Memory.{◌>>=◌}
use thesis_b_cs_tu_berlin.Log.{Log, entry, Exported, export_log}
use thesis_b_cs_tu_berlin.Log.Export.{count_zero, export_log_lem}
use thesis_b_cs_tu_berlin.Log.Alloc.{
  Outcome, allocated, failed, free_loop, free_loop_lem, alloc_log_buffs, alloc_log_buffs_lem,
  obtained, all_succeed,
}

-- The files `path_km_user`, ....
pub data File : Type 0 where
  km_user km_socket_server ebpf_socket_server ebpf_us : File

-- How a receiver ends: by `exit`, by a failed `assert`, after a failed allocation with the pointers that
-- it has freed, after its export with the pointers that it has freed; or it still waits for input.
pub data End : Type 0 where
  exits : ℕ → End
  aborts : End
  no_memory : List ℕ → End
  exported : File → Exported → List ℕ → End
  waits : Log → End

-- What the receiver meets: the allocator's answers, what the allocated buffers hold, and whether
-- `fopen` succeeds.
pub record Host : Type 0 where
  pub alloc : ℕ → Option ℕ
  pub memory : Log
  pub opens : Bool

-- `none` is a write to the NULL that `fopen` has returned.
unfoldable pub close_log : Host → File → List ℕ → Log → Option End
close_log h file held log =
    if h.opens
    then (export_log log >>= λ out.
        free_loop held num_log_buff 0 [] >>= λ freed. some (exported file out freed))
    else none

abbrev after_alloc : Outcome → (List ℕ → Option End) → Option End
after_alloc (failed freed) k = some (no_memory freed)
after_alloc (allocated held) k = k held

unfoldable pub with_log : Host → (List ℕ → Option End) → Option End
with_log h k = alloc_log_buffs h.alloc >>= λ o. after_alloc o k

-- The lines of an export are the entries of a log whose entry `i` is `now i`.
pub record Reports (now : ℕ → ℕ) (out : Exported) : Type 0 where
  pub one_each : length out.lines ≡ max_log_entry
  pub in_order : (i : ℕ) → i < max_log_entry → get_elem? out.lines i ≡ some (now i)
  pub zeroed_right : out.zeroed ≡ count_zero out.lines

pub length-obtained :
    (alloc : ℕ → Option ℕ) (n i : ℕ)
    → all_succeed alloc n i ≡ true
    → length (obtained alloc n i) ≡ n
unfolding obtained all_succeed
length-obtained alloc zero i h = refl
length-obtained alloc (suc n) i h = elim (Option-cases (alloc i)) [
  | inl e ↦ absurd (false≢true (sym (none_fails e) ∙ h))
  | inr (r, e) ↦
      rw (e, obtained) (ap suc (length-obtained alloc n (i + 1) (sym (some_goes_on r e) ∙ h)))
]
  where
    none_fails : alloc i ≡ none → all_succeed alloc (suc n) i ≡ false
    none_fails e = rw (e, all_succeed)

    some_goes_on :
        (r : ℕ) → alloc i ≡ some r → all_succeed alloc (suc n) i ≡ all_succeed alloc n (i + 1)
    some_goes_on r e = rw (e, all_succeed)

pub close_log_lem :
    (h : Host) (file : File) (held : List ℕ) (log : Log) (now : ℕ → ℕ)
    → h.opens ≡ true
    → length held ≡ num_log_buff
    → ((i : ℕ) → i < max_log_entry → entry log i ≡ now i)
    → (out : Exported) × (close_log h file held log ≡ some (exported file out held))
      × Reports now out
unfolding close_log
close_log_lem h file held log now o n eqs =
    let (out, e, len, each, zs) = export_log_lem log in
    (
      out,
      rw (o, e, free_loop_lem held num_log_buff 0 [] (sym n)),
      record {
        one_each = len;
        in_order = λ i hi. each i hi ∙ ap some (eqs i hi);
        zeroed_right = zs;
      },
    )

pub with_log_lem :
    (h : Host) (k : List ℕ → Option End)
    → (all_succeed h.alloc num_log_buff 0 ≡ true
        → with_log h k ≡ k (obtained h.alloc num_log_buff 0))
      × (all_succeed h.alloc num_log_buff 0 ≡ false
          → with_log h k ≡ some (no_memory (obtained h.alloc num_log_buff 0)))
unfolding with_log
with_log_lem h k =
    (λ e. rw (alloc_log_buffs_lem h.alloc, e), λ e. rw (alloc_log_buffs_lem h.alloc, e))

pub length-obtained_all :
    (h : Host)
    → all_succeed h.alloc num_log_buff 0 ≡ true
    → length (obtained h.alloc num_log_buff 0) ≡ num_log_buff
length-obtained_all h = length-obtained h.alloc num_log_buff 0
