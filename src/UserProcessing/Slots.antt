-- ===== src/UserProcessing/Slots.antt =====
-- Which slots can be processed, and what processing them notes.
use thesis_b_cs_tu_berlin.Prelude.{
  ℕ, zero, suc, ◌+◌, ◌*◌, ◌≤◌, ◌<◌, ltb, ◌==◌, if◌then◌else◌, Bool-cases, ◌≡◌, refl, sym, ap, ◌∙◌,
  ◌↔◌, ◌⊎◌, inl, inr, Bool, true, false, ◌&&◌, not, none, some, arith,
}
use thesis_b_cs_tu_berlin.Params.{
  buffer_size, pkt_buffer_size, pkts_per_buffer, payload_size, max_log_entry,
}
use thesis_b_cs_tu_berlin.Memory.{Bytes, shift}
use thesis_b_cs_tu_berlin.Payload.{Payload, decode, is_data_payload}
use thesis_b_cs_tu_berlin.Log.{Log, entry}
use thesis_b_cs_tu_berlin.Log.Entries.{log_after, log_store-after, entry-log_after}
use thesis_b_cs_tu_berlin.UserProcessing.{slot_payload, process_slot, process_slots, process_buffer}

-- The payload in slot `i` and the bytes behind it.
abbrev pub payload_in : Bytes → ℕ → Payload
payload_in b i = decode (shift b (i * pkt_buffer_size))

abbrev pub is_empty : Bytes → ℕ → Bool
is_empty b i = b (i * pkt_buffer_size) == 0

-- Slot `i` is one whose uid is noted.
abbrev pub is_noted : Bytes → ℕ → Bool
is_noted b i = not (is_empty b i) && is_data_payload (payload_in b i)

-- The last slots of the buffer, from which the copy of a whole `struct Payload` runs over its end.
abbrev pub overruns : ℕ → Bool
overruns i = ltb buffer_size (i * pkt_buffer_size + payload_size)

-- The time that the slots `i`, ..., `i + rounds - 1` give to a uid that had `old`.
unfoldable pub noted : Bytes → (ℕ → ℕ) → ℕ → ℕ → ℕ → ℕ → ℕ
noted b clock zero i uid old = old
noted b clock (suc rounds) i uid old =
    noted b clock rounds (i + 1) uid
      (if is_noted b i && uid == (payload_in b i).uid then clock i else old)

slot_step :
    (b : Bytes) (i now : ℕ) (log : Log)
    → (is_empty b i ≡ true) ⊎ (overruns i ≡ false)
    → process_slot b i now log
      ≡ some (if is_noted b i then log_after log (payload_in b i).uid now else log)
unfolding process_slot slot_payload
slot_step b i now log h = ground (arith, log_store-after log (payload_in b i).uid now)

slots_step :
    (b : Bytes) (clock : ℕ → ℕ) (rounds i : ℕ) (log : Log)
    → ((k : ℕ) → i ≤ k → k < i + rounds → (is_empty b k ≡ true) ⊎ (overruns k ≡ false))
    → (log' : Log) × (process_slots b clock rounds i log ≡ some log')
      × ((uid : ℕ)
          → uid < max_log_entry
          → entry log' uid ≡ noted b clock rounds i uid (entry log uid))
unfolding process_slots noted
slots_step b clock zero i log h = (log, refl, λ uid hu. refl)
slots_step b clock (suc rounds) i log h =
    let next : Log = if is_noted b i then log_after log (payload_in b i).uid (clock i) else log in
    let (log', e, eqs) =
      slots_step b clock rounds (i + 1) next (λ k a c. h k (omega arith) (omega arith)) in
    (
      log',
      rw (slot_step b i (clock i) log (h i (omega arith) (omega arith))) e,
      λ uid hu. eqs uid hu ∙ ap (noted b clock rounds (i + 1) uid) (one uid hu),
    )
  where
    one :
        (uid : ℕ)
        → uid < max_log_entry
        → entry (if is_noted b i then log_after log (payload_in b i).uid (clock i) else log) uid
          ≡ (if is_noted b i && uid == (payload_in b i).uid then clock i else entry log uid)
    one uid hu = elim (Bool-cases (is_noted b i)) [
      | inl yes_it ↦ rw yes_it (entry-log_after log (payload_in b i).uid (clock i) uid hu)
      | inr other ↦ rw other
    ]

-- Reading a buffer never leaves it, and notes every packet, if the last slots, from which a whole
-- `struct Payload` does not fit before the buffer's end, are empty. Then each uid below `MAX_LOG_ENTRY`
-- has the time of the last slot that carries it and passes the packet test, or what it had before.
pub process_buffer_lem :
    (b : Bytes) (clock : ℕ → ℕ) (log : Log)
    → ((k : ℕ) → k < pkts_per_buffer → overruns k ≡ true → is_empty b k ≡ true)
    → (log' : Log) × (process_buffer b clock log ≡ some log')
      × ((uid : ℕ)
          → uid < max_log_entry
          → entry log' uid ≡ noted b clock pkts_per_buffer 0 uid (entry log uid))
unfolding process_buffer
process_buffer_lem b clock log h = slots_step b clock pkts_per_buffer 0 log λ k a c.
    elim (Bool-cases (overruns k)) [ inl out ↦ inl (h k (omega arith) out) | inr fits ↦ inr fits ]

-- A slot with a packet makes the program read past the end of `buff_read` exactly when it is one of the
-- last slots, from which a whole `struct Payload` does not fit.
pub process_slot-overrun :
    (b : Bytes) (i now : ℕ) (log : Log)
    → is_empty b i ≡ false
    → (process_slot b i now log ≡ none) ↔ (overruns i ≡ true)
unfolding process_slot slot_payload
process_slot-overrun b i now log full = (
  λ e. elim (Bool-cases (overruns i)) [
    | inl out ↦ out
    | inr fits ↦ absurd (some≢none (sym (slot_step b i now log (inr fits)) ∙ e))
  ],
  λ out. ground arith,
)
  where
    some≢none : {l : Log} → some l ≡ none → ⊥
    some≢none e = cc
