-- ===== src/Km/Interleave/Alone.antt =====
-- `read` with no packet in between: its steps add up to the whole.
use thesis_b_cs_tu_berlin.Prelude.{
  ℕ, zero, suc, ◌+◌, ◌%◌, ◌<◌, length, replicate, ltb, leb, if◌then◌else◌, Bool-cases, ◌≡◌, refl,
  sym, subst, ap, ap₂, ◌∙◌, ◌≤◌, min, take, drop, get_or, inl, inr, Bool, true, false, none, some,
  List, [], ◌∷◌, ◌++◌, append-nil, arith,
}
use thesis_b_cs_tu_berlin.Params.{max_pkt, pkts_per_buffer, buffer_size}
use thesis_b_cs_tu_berlin.Memory.{Bytes, zeros, mem_zero}
use thesis_b_cs_tu_berlin.Km.Window.{slot_of}
use thesis_b_cs_tu_berlin.Km.Ring.{Holds}
use thesis_b_cs_tu_berlin.Km.Gather.{length-indices}
use thesis_b_cs_tu_berlin.Km.Deliver.{gathered_copied, read-Holds, read_fails-Holds}
use thesis_b_cs_tu_berlin.Km.{Km, Gathered, gather_one, gather, clean_up, read}
use thesis_b_cs_tu_berlin.Km.Trace.{reads}
use thesis_b_cs_tu_berlin.Km.Interleave.{
  Phase, idle, searching, copying, cleaning, System, slots, read_step, interleave, interleave_all,
}
pub mod Overtaking

abbrev at : Phase → System → System
at p s = record s { reader = p }

searches_on :
    (s : Km) (rounds ci : ℕ) (g : Gathered)
    → ltb (length g.copied_index) pkts_per_buffer ≡ true
    → gather s (suc rounds) ci g ≡ gather s rounds ((ci + 1) % max_pkt) (gather_one s ci g)
unfolding gather
searches_on s rounds ci g room = rw room refl

searches_no_more :
    (s : Km) (rounds ci : ℕ) (g : Gathered)
    → ltb (length g.copied_index) pkts_per_buffer ≡ false
    → gather s (suc rounds) ci g ≡ g
unfolding gather
searches_no_more s rounds ci g enough = rw enough refl

module _ (off : ℕ) (fails : Bool) where
  -- Some number of steps of `read` leads from one state to the other.
  abbrev Leads : System → System → Type 0
  Leads s s' = (n : ℕ) × (interleave_all (replicate n (reads off fails)) s ≡ some s')

  arrived : (s : System) → Leads s s
  unfolding interleave_all
  arrived s = (0, refl)

  next : (s s' : System) → Leads (read_step s.reader off fails s) s' → Leads s s'
  unfolding interleave_all interleave
  next s s' (n, e) = (suc n, e)

  found : (g : Gathered) (s : System) → System
  found g s = record s { km = record s.km { buff_temp = g.temp }; reader = copying g }

  search_lem :
      (rounds ci : ℕ) (g : Gathered) (s s' : System)
      → Leads (found (gather s.km rounds ci g) s) s'
      → Leads (at (searching rounds ci g) s) s'
  unfolding gather read_step found
  search_lem zero ci g s s' h = next (at (searching zero ci g) s) s' h
  search_lem (suc rounds) ci g s s' h =
      next (at (searching (suc rounds) ci g) s) s'
        (elim (Bool-cases (ltb (length g.copied_index) pkts_per_buffer)) [
          | inl room ↦ rw room (
              search_lem rounds ((ci + 1) % max_pkt) (gather_one s.km ci g) s s'
                (subst (λ k. Leads (found k s) s') (searches_on s.km rounds ci g room) h))
          | inr enough ↦
              rw enough
                (subst (λ k. Leads (found k s) s') (searches_no_more s.km rounds ci g enough) h)
        ])

  clean_lem :
      (l : List ℕ) (s : System)
      → Leads (at (cleaning l) s) (record s { km = clean_up l s.km; reader = idle })
  unfolding clean_up read_step
  clean_lem [] s = next (at (cleaning []) s) _ (arrived (at idle s))
  clean_lem (i ∷ l) s =
      next (at (cleaning (i ∷ l)) s) _ (clean_lem l (record s { km = clean_up (i ∷ []) s.km }))

copied_lem :
    (off : ℕ) (fails : Bool) (g : Gathered) (s : System)
    → Leads off fails (at (copying g) s) (record s {
      km = (if fails then s.km else clean_up g.copied_index s.km);
      reader = idle;
      delivered = s.delivered ++ (if fails then [] else slots g.temp (length g.copied_index));
    })
unfolding read_step
copied_lem off true g s =
    rw (append-nil s.delivered)
      (next off true (at (copying g) s) (at idle s) (arrived off true (at idle s)))
copied_lem off false g s =
    let s' : System = record s {
      delivered = s.delivered ++ slots g.temp (length g.copied_index);
    } in
    next off false (at (copying g) s)
      (record s' { km = clean_up g.copied_index s.km; reader = idle })
      (clean_lem off false g.copied_index s')

-- What `read` starts its search with, and what it finds.
abbrev pub found_by : Km → Gathered
found_by s =
    gather s max_pkt s.current_index
      (record { temp = mem_zero s.buff_temp 0 buffer_size; copied_index = [] })

-- The state after a whole call.
abbrev pub after_read : ℕ → Bool → System → System
after_read off fails s = record s {
  km = (read off fails s.km).1;
  reader = idle;
  delivered = s.delivered ++ elim (read off fails s.km).0.delivered [
    | some t ↦ slots t (length (found_by s.km).copied_index)
    | none ↦ []
  ];
}

begin_lem :
    (off : ℕ) (fails : Bool) (s s' : System)
    → off < buffer_size
    → Leads off fails (found off fails (found_by s.km) s) s'
    → Leads off fails (at idle s) s'
unfolding read_step
begin_lem off fails s s' h l =
    let near : leb buffer_size off ≡ false = ground arith in
    let g : Gathered = record { temp = mem_zero s.km.buff_temp 0 buffer_size; copied_index = [] } in
    next off fails (at idle s) s'
      (rw near (search_lem off fails max_pkt s.km.current_index g s s' l))

from_idle :
    (off : ℕ) (fails : Bool) (s : System)
    → off < buffer_size
    → Leads off fails (at idle s) (after_read off fails s)
unfolding read found
from_idle off true s h =
    let near : leb buffer_size off ≡ false = ground arith in
    begin_lem off true s (after_read off true s) h (
      rw near (
        copied_lem off true (found_by s.km)
          (record s { km = record s.km { buff_temp = (found_by s.km).temp } })))
from_idle off false s h =
    let near : leb buffer_size off ≡ false = ground arith in
    begin_lem off false s (after_read off false s) h (
      rw near (
        copied_lem off false (found_by s.km)
          (record s { km = record s.km { buff_temp = (found_by s.km).temp } })))

whole_call :
    (off : ℕ) (fails : Bool) (s : System)
    → off < buffer_size
    → s.reader ≡ idle
    → (n : ℕ) × (interleave_all (replicate n (reads off fails)) s ≡ some (after_read off fails s))
whole_call off fails s h e =
    subst (λ p. Leads off fails (record s { reader = p }) (after_read off fails s)) (sym e)
      (from_idle off fails s h)

take-suc :
    (q : List Bytes) (n : ℕ) → n < length q → take (suc n) q ≡ take n q ++ get_or q n zeros ∷ []
take-suc [] n h = elim h [ ]
take-suc (p ∷ q) zero h = refl
take-suc (p ∷ q) (suc n) h = ap (λ t. p ∷ t) (take-suc q n (omega arith))

slots-take :
    (t : Bytes) (q : List Bytes) (n : ℕ)
    → n ≤ length q
    → ((k : ℕ) → k < n → slot_of t k ≡ get_or q k zeros)
    → slots t n ≡ take n q
unfolding slots
slots-take t q zero h same = refl
slots-take t q (suc n) h same =
    ap₂ (λ xs x. xs ++ x ∷ []) (slots-take t q n (omega arith) (λ k hk. same k (omega arith)))
      (same n (omega arith))
    ∙ sym (take-suc q n (omega arith))

take-min : (m : ℕ) (q : List Bytes) → take (min (length q) m) q ≡ take m q
take-min zero q = ap (λ n. take n q) {x = min (length q) 0} {y = 0} (omega arith)
take-min (suc m) [] = ap (λ n. take n []) {x = min 0 (suc m)} {y = 0} (omega arith)
take-min (suc m) (p ∷ q) =
    ap (λ n. take n (p ∷ q)) {x = min (length (p ∷ q)) (suc m)} {y = suc (min (length q) m)}
      (omega arith)
    ∙ ap (λ t. p ∷ t) (take-min m q)

-- A `read` at an offset below `BUFFER_SIZE` that no packet interrupts comes to an end. Where
-- `copy_to_user` works, its steps deliver the oldest packets of the queue in order, as many as the read
-- buffer has slots, and these packets alone leave the cache; where it fails, nothing is delivered and the
-- cache keeps its packets.
pub alone_lem :
    (off : ℕ) (fails : Bool) (s : System) (q : List Bytes)
    → Holds s.km q
    → off < buffer_size
    → s.reader ≡ idle
    → (n : ℕ) × (s' : System) × (interleave_all (replicate n (reads off fails)) s ≡ some s')
      × (s'.reader ≡ idle)
      × (s'.delivered ≡ s.delivered ++ (if fails then [] else take pkts_per_buffer q))
      × Holds s'.km (if fails then q else drop pkts_per_buffer q)
alone_lem off true s q v h e =
    let (n, eq) = whole_call off true s h e in
    let (r, v') = read_fails-Holds off true s.km q v (ground arith) in
    (n, after_read off true s, eq, refl, rw r refl, v')
alone_lem off false s q v h e =
    let (n, eq) = whole_call off false s h e in
    let (t, r, slots_are, v') = read-Holds off s.km q v h in
    let found : length (found_by s.km).copied_index ≡ min (length q) pkts_per_buffer =
      ap length (gathered_copied (length q) s.km v.ring) ∙ length-indices _ _ in
    let n_in : min (length q) pkts_per_buffer ≤ length q = omega arith in
    let out : slots t (length (found_by s.km).copied_index) ≡ take pkts_per_buffer q =
      ap (slots t) found
      ∙ slots-take t q (min (length q) pkts_per_buffer) n_in (λ k hk. slots_are k (omega arith))
      ∙ take-min pkts_per_buffer q in
    (n, after_read off false s, eq, refl, rw r (ap (λ l. s.delivered ++ l) out), v')
