-- ===== src/Km/Interleave.antt =====
-- mymodule/kernel_module/intercept-module.c: `read` cut at the points where the receive handler can
-- run in between, and histories in which the two alternate.
use thesis_b_cs_tu_berlin.Prelude.{
  ℕ, zero, suc, ◌+◌, ◌%◌, length, ltb, leb, ◌==◌, if◌then◌else◌, Bool, true, ◌&&◌, not, Option,
  none, some, List, [], ◌∷◌, ◌++◌,
}
use thesis_b_cs_tu_berlin.Params.{buffer_size, max_pkt, pkts_per_buffer}
use thesis_b_cs_tu_berlin.Memory.{Bytes, mem_zero, ◌>>=◌}
use thesis_b_cs_tu_berlin.Km.{Km, SkBuff, is_for_us, rxh_packet_in, Gathered, gather_one, clean_up}
use thesis_b_cs_tu_berlin.Km.Window.{slot_of}
use thesis_b_cs_tu_berlin.Km.Fill.{packet_slot}
use thesis_b_cs_tu_berlin.Km.Trace.{Event, receives, reads, loaded, payload_len}
use thesis_b_cs_tu_berlin.Log.{Log}
pub mod Slots
pub mod Pending
pub mod Reading
pub mod Receiving
pub mod Invariant
pub mod Steps
pub mod Safety
pub mod Late
pub mod Alone

-- Where the reading process is: outside `read`, in the search loop with `rounds` tries left, at
-- `copy_to_user`, or in the clean-up loop with these slots left.
pub data Phase : Type 0 where
  idle : Phase
  searching : (rounds ci : ℕ) → Gathered → Phase
  copying : Gathered → Phase
  cleaning : List ℕ → Phase

-- `stored` and `delivered` record what went into the cache and what reached the user, in order. The
-- code has no such variables.
pub record System : Type 0 where
  pub km : Km
  pub reader : Phase
  pub stored : List Bytes
  pub delivered : List Bytes

-- The first `n` slots of `read`'s buffer.
unfoldable pub slots : Bytes → ℕ → List Bytes
slots b zero = []
slots b (suc n) = slots b n ++ slot_of b n ∷ []

-- The next step of `read` at offset `off`; `fails` is what `copy_to_user` does if it is next.
unfoldable pub read_step : Phase → ℕ → Bool → System → System
read_step idle off fails s = if leb buffer_size off then s else record s {
  reader =
      searching max_pkt s.km.current_index
        (record { temp = mem_zero s.km.buff_temp 0 buffer_size; copied_index = [] });
}
read_step (searching zero ci g) off fails s = record s {
  km = record s.km { buff_temp = g.temp };
  reader = copying g;
}
read_step (searching (suc rounds) ci g) off fails s =
    if ltb (length g.copied_index) pkts_per_buffer
    then record s { reader = searching rounds ((ci + 1) % max_pkt) (gather_one s.km ci g) }
    else record s { km = record s.km { buff_temp = g.temp }; reader = copying g }
read_step (copying g) off fails s = if fails then record s { reader = idle } else record s {
  reader = cleaning g.copied_index;
  delivered = s.delivered ++ slots g.temp (length g.copied_index);
}
read_step (cleaning []) off fails s = record s { reader = idle }
read_step (cleaning (i ∷ rest)) off fails s = record s {
  km = clean_up (i ∷ []) s.km;
  reader = cleaning rest;
}

-- Is none of the first `n` slots free?
unfoldable pub all_used : ℕ → (ℕ → ℕ) → Bool
all_used zero status = true
all_used (suc n) status = not (status n == 0) && all_used n status

-- The packets that the cache is to take: the module's own, if a slot is free.
abbrev pub newly_stored : SkBuff → Km → List Bytes
newly_stored pkt s = elim (is_for_us pkt) [
  | some b ↦
      if b && not (all_used max_pkt s.status) then packet_slot pkt (payload_len pkt) ∷ [] else []
  | none ↦ []
]

-- One event: the receive handler runs from start to end, `read` takes one step.
unfoldable pub interleave : Event → System → Option System
interleave (receives pkt now) s = do
  km' ← rxh_packet_in pkt now s.km
  some (record s { km = km'; stored = s.stored ++ newly_stored pkt s.km })
interleave (reads off fails) s = some (read_step s.reader off fails s)

unfoldable pub interleave_all : List Event → System → Option System
interleave_all [] s = some s
interleave_all (e ∷ es) s = do s' ← interleave e s; interleave_all es s'

-- The module as it is loaded, with no `read` under way.
abbrev pub started : Log → System
started log = record { km = loaded log; reader = idle; stored = []; delivered = [] }
