-- ===== src/Km/Interleave/Safety.antt =====
-- Whole histories in which the receive handler interrupts `read`.
use thesis_b_cs_tu_berlin.Prelude.{◌+◌, ◌≡◌, refl, sym, ap, Bool, some, List, [], ◌∷◌, arith}
use thesis_b_cs_tu_berlin.Params.{max_pkt}
use thesis_b_cs_tu_berlin.Memory.{Bytes}
use thesis_b_cs_tu_berlin.Log.{Log}
use thesis_b_cs_tu_berlin.Km.Trace.{Event, receives, reads, IsHandled, AllHandled}
use thesis_b_cs_tu_berlin.Km.Interleave.{System, read_step, interleave, interleave_all, started}
use thesis_b_cs_tu_berlin.Km.Interleave.Slots.{count, cached, total-zero}
use thesis_b_cs_tu_berlin.Km.Interleave.Invariant.{out_of, Inv, receives-Inv}
use thesis_b_cs_tu_berlin.Km.Interleave.Steps.{read_step-Inv}

interleave-Inv :
    (e : Event) (s : System)
    → Inv s
    → IsHandled e
    → (s' : System) × (interleave e s ≡ some s') × Inv s'
unfolding interleave
interleave-Inv (receives pkt now) s v h = receives-Inv pkt now s v h
interleave-Inv (reads off fails) s v h =
    (read_step s.reader off fails s, refl, read_step-Inv s.reader off fails s refl v v.reading)

-- The invariant: `current_index` is a slot, every free slot is zero, what `read` has copied are
-- different slots that are still in use and unchanged, in order in its buffer and no more than it has
-- room for, and every stored packet is in the cache or delivered, and not both. Every history of
-- receive events and steps of `read` from such a state has no access out of bounds and ends in such a
-- state, if each packet is another program's or its payload is there and fits a slot.
pub interleave_all-Inv :
    (es : List Event) (s : System)
    → Inv s
    → AllHandled es
    → (s' : System) × (interleave_all es s ≡ some s') × Inv s'
unfolding interleave_all
interleave_all-Inv [] s v h = (s, refl, v)
interleave_all-Inv (e ∷ es) s v (h, hs) =
    let (s', eq, v') = interleave-Inv e s v h in
    let (s'', eqs, v'') = interleave_all-Inv es s' v' hs in (s'', rw eq eqs, v'')

pub started-Inv : (log : Log) → Inv (started log)
unfolding count
started-Inv log = record {
  index_in = omega arith;
  clean = λ i j hi hj h. refl;
  reading = tt;
  kept = λ test. sym (ap (λ n. n + 0) (total-zero max_pkt _ (λ i. refl)));
}

-- However the receive handler and the steps of one `read` after another alternate after loading, no
-- access is out of bounds, if each packet is another program's or its payload is there and fits a
-- slot. At every point each packet that found a free slot is either in the cache or delivered to the
-- user, once: by any test on packets, as many have been stored as are cached and not yet copied out,
-- plus those that have been delivered. Only a packet that finds all slots in use is not stored. The
-- handler runs from start to end between two steps of `read`.
pub interleaved_lem :
    (es : List Event) (log : Log)
    → AllHandled es
    → (s' : System) × (interleave_all es (started log) ≡ some s')
      × ((test : Bytes → Bool)
          → count test s'.stored ≡ cached test (out_of s'.reader) s'.km + count test s'.delivered)
interleaved_lem es log h =
    let (s', e, v) = interleave_all-Inv es (started log) (started-Inv log) h in (s', e, v.kept)
