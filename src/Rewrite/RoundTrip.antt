-- ===== src/Rewrite/RoundTrip.antt =====
-- A tag that is put on and taken off again.
use thesis_b_cs_tu_berlin.Prelude.{
  ℕ, ◌+◌, ◌*◌, ◌/◌, ◌%◌, ◌^◌, ◌≤◌, ◌<◌, ltb, leb, ◌==◌, if◌then◌else◌, ◌≡◌, refl, ap, ◌∙◌, true,
  false, some, arith,
}
use thesis_b_cs_tu_berlin.Prelude.Int.{pos, negsuc}
use thesis_b_cs_tu_berlin.Memory.{Bytes, mem_copy, shift, Packet, load16, bswap16}
use thesis_b_cs_tu_berlin.Parsing.{proto_is_vlan, ethhdr_size}
use thesis_b_cs_tu_berlin.Rewrite.{
  AdjustHead, store16, restore_header, vlan_tag_pop, write_tag, move_header, vlan_tag_push,
}

-- A frame at the start of the packet, of bytes.
pub record IsFrame (p : Packet) : Type 0 where
  pub long : ethhdr_size ≤ p.size
  pub type_high : p.bytes 12 < 256
  pub type_low : p.bytes 13 < 256

is_8021q : proto_is_vlan (0x81 + 256 * 0) ≡ true
unfolding proto_is_vlan bswap16
is_8021q = refl

module _ (k : AdjustHead) where
  -- The bytes of a frame after the tag is put on, over what the new packet holds.
  abbrev tagged : Packet → ℕ → Bytes → ℕ → ℕ
  tagged p vlid old a =
      if ltb a 12
      then p.bytes a
      else (if a == 12
          then 0x81
          else (if a == 13
              then 0
              else (if a == 14
                  then vlid / 256
                  else (if a == 15
                      then vlid % 256
                      else (if a == 16
                          then p.bytes 12
                          else (if a == 17 then p.bytes 13 else old a))))))

  long_enough :
      (p q : Packet) (n : ℕ) → IsFrame p → q.size ≡ p.size + 3 + 1 → n ≤ 18 → ltb q.size n ≡ false
  long_enough p q n f size h = let long = f.long in ground arith

  push_bytes :
      (p q : Packet) (vlid a : ℕ)
      → IsFrame p
      → vlid < 2 ^ 16
      → q.size ≡ p.size + 3 + 1
      → (move_header k (shift p.bytes 0) vlid q).packet.bytes a ≡ tagged p vlid q.bytes a
  unfolding move_header write_tag store16 mem_copy bswap16
  push_bytes p q vlid a f h size =
      let high = f.type_high in
      let low = f.type_low in
      rw (long_enough p q 14 f size (omega arith), long_enough p q 18 f size (omega arith))
        (ground arith)

  push_runs :
      (p q : Packet) (vlid : ℕ)
      → IsFrame p
      → k.adjust_head p (negsuc 3) ≡ some q
      → (vlan_tag_push k p 0 vlid ≡ some (move_header k (shift p.bytes 0) vlid q))
        × ((move_header k (shift p.bytes 0) vlid q).ret ≡ pos 0)
        × ((move_header k (shift p.bytes 0) vlid q).packet.size ≡ p.size + 4)
  unfolding vlan_tag_push move_header write_tag
  push_runs p q vlid f e =
      let (size, rest) = k.add_front p q 3 e in
      let short : ltb p.size 14 ≡ false = let long = f.long in ground arith in
      (
        rw (short, e),
        rw (long_enough p q 14 f size (omega arith), long_enough p q 18 f size (omega arith)),
        rw (long_enough p q 14 f size (omega arith), long_enough p q 18 f size (omega arith))
            (omega arith),
      )

  pop_runs :
      (t r : Packet)
      → 18 ≤ t.size
      → t.bytes 12 ≡ 0x81
      → t.bytes 13 ≡ 0
      → k.adjust_head t (pos 4) ≡ some r
      → vlan_tag_pop k t 0
        ≡ some (
            restore_header k
              (shift t.bytes 0)
              (t.bytes 14 + 256 * t.bytes 15)
              (t.bytes 16 + 256 * t.bytes 17)
              r)
  unfolding vlan_tag_pop load16
  pop_runs t r long high low e =
      let vlan : proto_is_vlan (t.bytes 12 + 256 * t.bytes 13) ≡ true = rw (high, low) is_8021q in
      let a : leb (0 + 12 + 2) t.size ≡ true = ground arith in
      let b : leb (0 + 14 + 2) t.size ≡ true = ground arith in
      let c : leb (0 + 14 + 2 + 2) t.size ≡ true = ground arith in
      let d : ltb t.size (0 + 14 + 4) ≡ false = ground arith in rw (a, vlan, d, b, c, e)

  restored :
      (t r : Packet) (tci h_proto : ℕ)
      → 14 ≤ r.size
      → restore_header k (shift t.bytes 0) tci h_proto r ≡ record {
        ret = pos (bswap16 tci);
        packet = record {
          bytes = store16 (mem_copy r.bytes 0 (shift t.bytes 0) ethhdr_size) 12 h_proto;
          size = r.size;
        };
      }
  unfolding restore_header
  restored t r tci h_proto h = let enough : ltb r.size 14 ≡ false = ground arith in rw enough

  -- The popped bytes, from those of the tagged packet `t` and of the cut one `r`.
  popped_bytes :
      (p t r : Packet) (old : Bytes) (vlid : ℕ)
      → IsFrame p
      → ((a : ℕ) → t.bytes a ≡ tagged p vlid old a)
      → ((a : ℕ) → old (4 + a) ≡ p.bytes a)
      → ((a : ℕ) → r.bytes a ≡ t.bytes (4 + a))
      → (a : ℕ)
      → store16
          (mem_copy r.bytes 0 (shift t.bytes 0) ethhdr_size)
          12
          (t.bytes 16 + 256 * t.bytes 17)
          a
        ≡ p.bytes a
  unfolding store16 mem_copy
  popped_bytes p t r old vlid f at old_is kept a =
      let high = f.type_high in
      let low = f.type_low in ground (arith, at a, at 16, at 17, at (4 + a), kept a, old_is a)

  popped_id :
      (x y vlid : ℕ)
      → vlid < 2 ^ 16
      → x ≡ vlid / 256
      → y ≡ vlid % 256
      → bswap16 (x + 256 * y) ≡ vlid
  unfolding bswap16
  popped_id x y vlid h ex ey = omega arith

  -- A frame that gets a tag, where the kernel has headroom for it, and loses it again comes back as it
  -- was, byte by byte and in length; the first call returns 0 and the second the number that was put in
  -- the tag.
  pub pop-push :
      (p q : Packet) (vlid : ℕ)
      → IsFrame p
      → vlid < 2 ^ 16
      → k.adjust_head p (negsuc 3) ≡ some q
      → (t r : Packet) × (vlan_tag_push k p 0 vlid ≡ some (record { ret = pos 0; packet = t }))
        × (vlan_tag_pop k t 0 ≡ some (record { ret = pos vlid; packet = r }))
        × (r.size ≡ p.size)
        × ((a : ℕ) → r.bytes a ≡ p.bytes a)
  pop-push p q vlid f h e =
      let m = move_header k (shift p.bytes 0) vlid q in
      let t = m.packet in
      let (pushed, ret, size) = push_runs p q vlid f e in
      let (grown, moved) = k.add_front p q 3 e in
      let at : (a : ℕ) → t.bytes a ≡ tagged p vlid q.bytes a =
        λ a. push_bytes p q vlid a f h grown in
      let long = f.long in
      let (r, cut) = k.cut_works t 4 (omega arith) in
      let (cut_size, kept) = k.cut_front t r 4 cut in
      let id : bswap16 (t.bytes 14 + 256 * t.bytes 15) ≡ vlid =
        popped_id (t.bytes 14) (t.bytes 15) vlid h (at 14) (at 15) in
      let bytes =
        store16 (mem_copy r.bytes 0 (shift t.bytes 0) ethhdr_size) 12
          (t.bytes 16 + 256 * t.bytes 17) in
      let r' : Packet = record { bytes = bytes; size = r.size } in
      (
        t,
        r',
        pushed ∙ ap (λ x. some (record { ret = x; packet = t })) ret,
        pop_runs t r (omega arith) (at 12) (at 13) cut
            ∙ ap some (
                restored t r (t.bytes 14 + 256 * t.bytes 15) (t.bytes 16 + 256 * t.bytes 17)
                  (omega arith)
                ∙ ap (λ v. record { ret = pos v; packet = r' }) id),
        omega arith,
        popped_bytes p t r q.bytes vlid f at moved kept,
      )
