-- ===== src/Km/Interleave/Invariant.antt =====
-- The invariant of the cache and of a `read` that the receive handler interrupts, and the handler.
use thesis_b_cs_tu_berlin.Prelude.{
  ℕ, ◌+◌, ◌≤◌, ◌<◌, ◌≡◌, refl, sym, ap₂, ◌∙◌, inl, inr, Bool, false, some, List, [], ◌∷◌, ◌++◌, map,
  append-nil, arith,
}
use thesis_b_cs_tu_berlin.Params.{max_pkt}
use thesis_b_cs_tu_berlin.Memory.{Bytes}
use thesis_b_cs_tu_berlin.Km.{Km, SkBuff, Gathered}
use thesis_b_cs_tu_berlin.Km.Window.{slot_of}
use thesis_b_cs_tu_berlin.Km.Receive.{rxh_packet_in-pass}
use thesis_b_cs_tu_berlin.Km.Trace.{receives, IsHandled, payload_len}
use thesis_b_cs_tu_berlin.Km.Interleave.{
  Phase, idle, searching, copying, cleaning, System, newly_stored, interleave,
}
use thesis_b_cs_tu_berlin.Km.Interleave.Slots.{count, mem, cached, count-append}
use thesis_b_cs_tu_berlin.Km.Interleave.Pending.{Pending, Pending-keep, Pending-used}
use thesis_b_cs_tu_berlin.Km.Interleave.Reading.{Copied, Ahead}
use thesis_b_cs_tu_berlin.Km.Interleave.Receiving.{FreeClean, Kept, added, rxh_packet_in-Kept}

-- The slots that the user has got and that are not cleaned up yet.
abbrev pub out_of : Phase → List ℕ
out_of idle = []
out_of (searching rounds ci g) = []
out_of (copying g) = []
out_of (cleaning l) = l

-- What `read` relies on when it goes on.
abbrev pub ReaderInv : Phase → Km → Type 0
ReaderInv idle s = Unit {0}
ReaderInv (searching rounds ci g) s =
    (ci < max_pkt) × (rounds ≤ max_pkt) × Ahead rounds ci g.copied_index × Copied g s
ReaderInv (copying g) s = Copied g s
ReaderInv (cleaning l) s = Pending s.status l

-- Every free slot is zero, `read` holds copies of different slots that are still in use and unchanged,
-- and every stored packet is in the cache or delivered, and not both.
pub record Inv (s : System) : Type 0 where
  pub index_in : s.km.current_index < max_pkt
  pub clean : FreeClean s.km
  pub reading : ReaderInv s.reader s.km
  pub kept :
      (test : Bytes → Bool)
      → count test s.stored ≡ cached test (out_of s.reader) s.km + count test s.delivered

map-keep :
    (s s' : Km) (xs : List ℕ)
    → Kept s s'
    → Pending s.status xs
    → map (slot_of s'.buff_from_here) xs ≡ map (slot_of s.buff_from_here) xs
map-keep s s' [] k h = refl
map-keep s s' (x ∷ xs) k (hx, ux, nx, h) = ap₂ ◌∷◌ (k.same x ux) (map-keep s s' xs k h)

Pending-Kept : (s s' : Km) (xs : List ℕ) → Kept s s' → Pending s.status xs → Pending s'.status xs
Pending-Kept s s' xs k h = Pending-keep s.status s'.status xs (λ i hi m u. k.used i u) h

Copied-Kept : (s s' : Km) (g : Gathered) → Kept s s' → Copied g s → Copied g s'
Copied-Kept s s' g k v = record {
  fits = v.fits;
  pending = Pending-Kept s s' g.copied_index k v.pending;
  same = v.same ∙ sym (map-keep s s' g.copied_index k v.pending);
}

ReaderInv-Kept : (p : Phase) (s s' : Km) → Kept s s' → ReaderInv p s → ReaderInv p s'
ReaderInv-Kept idle s s' k h = h
ReaderInv-Kept (searching rounds ci g) s s' k (hc, hr, ahead, v) =
    (hc, hr, ahead, Copied-Kept s s' g k v)
ReaderInv-Kept (copying g) s s' k v = Copied-Kept s s' g k v
ReaderInv-Kept (cleaning l) s s' k h = Pending-Kept s s' l k h

-- A free slot is not one that waits for its clean-up.
pub out_used :
    (p : Phase) (s : Km) → ReaderInv p s → (i : ℕ) → s.status i ≡ 0 → mem i (out_of p) ≡ false
unfolding mem
out_used idle s h i e = refl
out_used (searching rounds ci g) s h i e = refl
out_used (copying g) s h i e = refl
out_used (cleaning l) s h i e = Pending-used s.status l i h e

pub receives-Inv :
    (pkt : SkBuff) (now : ℕ) (s : System)
    → Inv s
    → IsHandled (receives pkt now)
    → (s' : System) × (interleave (receives pkt now) s ≡ some s') × Inv s'
unfolding interleave
receives-Inv pkt now s v (inl other) = (
  record s { stored = s.stored ++ newly_stored pkt s.km },
  rw (rxh_packet_in-pass pkt now s.km other) refl,
  record {
    index_in = v.index_in;
    clean = v.clean;
    reading = v.reading;
    kept = λ test. rw (other, newly_stored, append-nil) (v.kept test);
  },
)
receives-Inv pkt now s v (inr (ours, hp, fits)) =
    let (km', e, k, counts) =
      rxh_packet_in-Kept pkt (payload_len pkt) now s.km v.index_in v.clean hp fits ours in
    (
      record s { km = km'; stored = s.stored ++ newly_stored pkt s.km },
      rw e refl,
      record {
        index_in = k.index_in;
        clean = k.clean;
        reading = ReaderInv-Kept s.reader s.km km' k v.reading;
        kept = λ test.
            rw (ours, newly_stored, count-append test s.stored (added pkt (payload_len pkt) s.km))
              (omega (
                arith,
                v.kept test,
                counts test (out_of s.reader) (out_used s.reader s.km v.reading),
              ));
      },
    )
