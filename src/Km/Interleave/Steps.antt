-- ===== src/Km/Interleave/Steps.antt =====
-- The steps of `read` keep the invariant.
use thesis_b_cs_tu_berlin.Prelude.{
  ℕ, zero, suc, ◌+◌, ◌%◌, ◌<◌, length, ltb, leb, ltb→lt, Bool-cases, ◌≡◌, refl, ap, subst, ◌∙◌, inl,
  inr, Bool, true, false, List, [], ◌∷◌, ◌++◌, arith,
}
use thesis_b_cs_tu_berlin.Params.{max_pkt, pkts_per_buffer, buffer_size}
use thesis_b_cs_tu_berlin.Memory.{Bytes, mem_zero}
use thesis_b_cs_tu_berlin.Km.{Km, Gathered, gather_one, clean_up}
use thesis_b_cs_tu_berlin.Km.CleanUp.{cleaned}
use thesis_b_cs_tu_berlin.Km.Interleave.{
  Phase, idle, searching, copying, cleaning, System, slots, read_step,
}
use thesis_b_cs_tu_berlin.Km.Interleave.Slots.{count, mem, cached, count-append}
use thesis_b_cs_tu_berlin.Km.Interleave.Pending.{Pending, cached-out}
use thesis_b_cs_tu_berlin.Km.Interleave.Reading.{
  Copied, gather_one-Copied, gather_one-Ahead, cleaned-Pending, cached-cleaned, cleaned-clean,
}
use thesis_b_cs_tu_berlin.Km.Interleave.Invariant.{out_of, ReaderInv, Inv}

kept_at :
    (p : Phase) (out : List ℕ) (s : System)
    → s.reader ≡ p
    → out_of p ≡ out
    → Inv s
    → (test : Bytes → Bool) → count test s.stored ≡ cached test out s.km + count test s.delivered
kept_at p out s e same v test =
    subst (λ out. count test s.stored ≡ cached test out s.km + count test s.delivered)
      (ap out_of e ∙ same) (v.kept test)

to_copying :
    (p : Phase) (g : Gathered) (s : System)
    → s.reader ≡ p
    → out_of p ≡ []
    → Inv s
    → Copied g s.km
    → Inv (record s { km = record s.km { buff_temp = g.temp }; reader = copying g })
to_copying p g s e nothing v c = record {
  index_in = v.index_in;
  clean = v.clean;
  reading = record { fits = c.fits; pending = c.pending; same = c.same };
  kept = λ test. kept_at p [] s e nothing v test;
}

-- A step that moves the reader alone.
to_phase :
    (p p' : Phase) (s : System)
    → s.reader ≡ p
    → out_of p ≡ out_of p'
    → Inv s
    → ReaderInv p' s.km
    → Inv (record s { reader = p' })
to_phase p p' s e same v h = record {
  index_in = v.index_in;
  clean = v.clean;
  reading = h;
  kept = λ test. kept_at p (out_of p') s e same v test;
}

-- `copy_to_user` moves the copied slots' packets from the cache to the user.
delivered-Inv :
    (g : Gathered) (s : System)
    → s.reader ≡ copying g
    → Inv s
    → Copied g s.km
    → Inv (record s {
      reader = cleaning g.copied_index;
      delivered = s.delivered ++ slots g.temp (length g.copied_index);
    })
delivered-Inv g s e v c = record {
  index_in = v.index_in;
  clean = v.clean;
  reading = c.pending;
  kept = λ test.
      rw (count-append test s.delivered (slots g.temp (length g.copied_index)), c.same)
        (omega (
          arith,
          kept_at (copying g) [] s e refl v test,
          cached-out test g.copied_index s.km c.pending,
        ));
}

cleaned-Inv :
    (i : ℕ) (rest : List ℕ) (s : System)
    → s.reader ≡ cleaning (i ∷ rest)
    → Inv s
    → Pending s.km.status (i ∷ rest)
    → Inv (record s { km = cleaned i s.km; reader = cleaning rest })
cleaned-Inv i rest s e v h = record {
  index_in = v.index_in;
  clean = λ k j hk hj. cleaned-clean s.km i k j hj (v.clean k j hk hj);
  reading = cleaned-Pending s.km i rest h;
  kept = λ test.
      kept_at (cleaning (i ∷ rest)) (i ∷ rest) s e refl v test
      ∙ ap (λ n. n + count test s.delivered) (cached-cleaned test s.km i rest);
}

begun :
    (s : Km) (temp : Bytes)
    → s.current_index < max_pkt
    → ReaderInv (searching max_pkt s.current_index (record { temp = temp; copied_index = [] })) s
unfolding mem slots
begun s temp h =
    (h, omega arith, (λ k hk. refl), record { fits = omega arith; pending = tt; same = refl })

search_on :
    (rounds ci : ℕ) (g : Gathered) (s : Km)
    → length g.copied_index < pkts_per_buffer
    → ReaderInv (searching (suc rounds) ci g) s
    → ReaderInv (searching rounds ((ci + 1) % max_pkt) (gather_one s ci g)) s
search_on rounds ci g s room (hc, hr, ahead, c) = (
  omega arith,
  omega arith,
  gather_one-Ahead s rounds ci g hc (omega arith) ahead,
  gather_one-Copied s ci g c room hc
      (subst (λ m. mem m g.copied_index ≡ false) (omega arith) (ahead 0 (omega arith))),
)

pub read_step-Inv :
    (p : Phase) (off : ℕ) (fails : Bool) (s : System)
    → s.reader ≡ p
    → Inv s
    → ReaderInv p s.km
    → Inv (read_step p off fails s)
unfolding read_step clean_up
read_step-Inv idle off fails s e v h = elim (Bool-cases (leb buffer_size off)) [
  | inl past ↦ rw past v
  | inr before ↦ rw before (
      to_phase idle
        (searching max_pkt s.km.current_index
          (record { temp = mem_zero s.km.buff_temp 0 buffer_size; copied_index = [] }))
        s e refl v (begun s.km (mem_zero s.km.buff_temp 0 buffer_size) v.index_in))
]
read_step-Inv (searching zero ci g) off fails s e v (hc, hr, ahead, c) =
    to_copying (searching zero ci g) g s e refl v c
read_step-Inv (searching (suc rounds) ci g) off fails s e v h =
    elim (Bool-cases (ltb (length g.copied_index) pkts_per_buffer)) [
      | inl room ↦ rw room (
          to_phase (searching (suc rounds) ci g)
            (searching rounds ((ci + 1) % max_pkt) (gather_one s.km ci g)) s e refl v
            (search_on rounds ci g s.km (ltb→lt _ _ room) h))
      | inr enough ↦ rw enough (to_copying (searching (suc rounds) ci g) g s e refl v h.3)
    ]
read_step-Inv (copying g) off true s e v c = to_phase (copying g) idle s e refl v tt
read_step-Inv (copying g) off false s e v c = delivered-Inv g s e v c
read_step-Inv (cleaning []) off fails s e v h = to_phase (cleaning []) idle s e refl v tt
read_step-Inv (cleaning (i ∷ rest)) off fails s e v h = cleaned-Inv i rest s e v h
