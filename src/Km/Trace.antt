-- ===== src/Km/Trace.antt =====
-- Histories of the kernel module: received packets and reads, in the order in which they happen.
use thesis_b_cs_tu_berlin.Prelude.{
  ℕ, ◌+◌, ◌-◌, ◌*◌, ◌≤◌, ◌<◌, drop, get_or, leb, if◌then◌else◌, Bool-cases, ◌≡◌, refl, ap, ◌⊎◌, inl,
  inr, Bool, true, false, ◌||◌, Option, none, some, List, [], ◌∷◌, arith,
}
use thesis_b_cs_tu_berlin.Params.{pkt_buffer_size, pkts_per_buffer, buffer_size}
use thesis_b_cs_tu_berlin.Memory.{Bytes, zeros, bswap16, ◌>>=◌}
use thesis_b_cs_tu_berlin.Log.{Log}
use thesis_b_cs_tu_berlin.Km.{Km, SkBuff, is_for_us, rxh_packet_in, ReadReply, read}
use thesis_b_cs_tu_berlin.Km.Window.{slot_of, window}
use thesis_b_cs_tu_berlin.Km.Ring.{Holds}
use thesis_b_cs_tu_berlin.Km.Fill.{packet_slot}
use thesis_b_cs_tu_berlin.Km.Receive.{HasPayload, enqueue, rxh_packet_in-Holds, rxh_packet_in-pass}
use thesis_b_cs_tu_berlin.Km.Deliver.{read-Holds, read_fails-Holds}

pub data Event : Type 0 where
  receives : SkBuff → ℕ → Event
  reads : ℕ → Bool → Event

-- One event; a read has a reply.
unfoldable pub step : Event → Km → Option (Option ReadReply × Km)
step (receives pkt now) s = rxh_packet_in pkt now s >>= λ s'. some (none, s')
step (reads off fails) s = let (r, s') = read off fails s in some (some r, s')

unfoldable pub run : List Event → Km → Option (List (Option ReadReply) × Km)
run [] s = some ([], s)
run (e ∷ es) s = do (r, s') ← step e s; (rs, s'') ← run es s'; some (r ∷ rs, s'')

-- The module as it is loaded: an empty cache, with whatever the log buffers hold.
abbrev pub loaded : Log → Km
loaded log = record {
  buff_from_here = zeros;
  buff_temp = zeros;
  current_index = 0;
  status = λ i. 0;
  count_pkt = 0;
  count_pkt_overflow = 0;
  log_buffs = log;
}

-- The length of the UDP payload, by the packet's own field.
abbrev pub payload_len : SkBuff → ℕ
payload_len pkt =
    bswap16 (
      pkt.linear.bytes (pkt.transport_header + 4)
      + 256 * pkt.linear.bytes (pkt.transport_header + 4 + 1))
    - 8

-- A packet is another program's, or has a payload that is there and fits a slot.
abbrev pub IsHandled : Event → Type 0
IsHandled (receives pkt now) =
    (is_for_us pkt ≡ some false)
    ⊎ ((is_for_us pkt ≡ some true)
        × HasPayload (payload_len pkt) pkt
        × (payload_len pkt ≤ pkt_buffer_size))
IsHandled (reads off fails) = Unit {0}

abbrev pub AllHandled : List Event → Type 0
AllHandled [] = Unit {0}
AllHandled (e ∷ es) = IsHandled e × AllHandled es

-- What an event does to the queue that the module promises.
abbrev pub queue_step : Event → List Bytes → List Bytes
queue_step (receives pkt now) q = elim (is_for_us pkt) [
  | some b ↦ if b then enqueue q (packet_slot pkt (payload_len pkt)) else q
  | none ↦ q
]
queue_step (reads off fails) q = if leb buffer_size off || fails then q else drop pkts_per_buffer q

abbrev pub queue_run : List Event → List Bytes → List Bytes
queue_run [] q = q
queue_run (e ∷ es) q = queue_run es (queue_step e q)

-- The reply that the queue allows: a read that works hands out the oldest packets.
abbrev pub ReadAnswer : Bool → List Bytes → Option ReadReply → Type 0
ReadAnswer true q r = r ≡ some (record { ret = buffer_size; delivered = none })
ReadAnswer false q r =
    (t : Bytes) × (r ≡ some (record { ret = buffer_size; delivered = some t }))
    × ((k : ℕ) → k < pkts_per_buffer → slot_of t k ≡ get_or q k zeros)

abbrev pub Answer : Event → List Bytes → Option ReadReply → Type 0
Answer (receives pkt now) q r = r ≡ none
Answer (reads off fails) q r = ReadAnswer (leb buffer_size off || fails) q r

abbrev pub Answers : List Event → List Bytes → List (Option ReadReply) → Type 0
Answers [] q rs = rs ≡ []
Answers (e ∷ es) q [] = ⊥
Answers (e ∷ es) q (r ∷ rs) = Answer e q r × Answers es (queue_step e q) rs

step-Holds :
    (e : Event) (s : Km) (q : List Bytes)
    → Holds s q
    → IsHandled e
    → (r : Option ReadReply) × (s' : Km) × (step e s ≡ some (r, s'))
      × Answer e q r
      × Holds s' (queue_step e q)
unfolding step
step-Holds (receives pkt now) s q v (inl other) =
    (none, s, rw (rxh_packet_in-pass pkt now s other), refl, rw (other, queue_step) v)
step-Holds (receives pkt now) s q v (inr (ours, hp, fits)) =
    let (s', e, v', _, _, _) = rxh_packet_in-Holds pkt (payload_len pkt) now s q v hp fits ours in
    (none, s', rw e, refl, rw (ours, queue_step) v')
step-Holds (reads off fails) s q v h = elim (Bool-cases (leb buffer_size off || fails)) [
  | inl blocked ↦
      let (e, v') = read_fails-Holds off fails s q v blocked in
      (some (read off fails s).0, (read off fails s).1, refl, rw (blocked, e), rw blocked v')
  | inr works ↦
      let near : leb buffer_size off ≡ false = ground arith in
      let copied : fails ≡ false = ground arith in
      let (t, e, slots, v') = read-Holds off s q v (ground arith) in
      rw (copied, near)
        (some (read off false s).0, (read off false s).1, refl, (t, ap some e, slots), v')
]

run-Holds :
    (es : List Event) (s : Km) (q : List Bytes)
    → Holds s q
    → AllHandled es
    → (rs : List (Option ReadReply)) × (s' : Km) × (run es s ≡ some (rs, s'))
      × Answers es q rs
      × Holds s' (queue_run es q)
unfolding run
run-Holds [] s q v h = ([], s, refl, refl, v)
run-Holds (e ∷ es) s q v h =
    let (r, s', eq, a, v') = step-Holds e s q v h.0 in
    let (rs, s'', eqs, as', v'') = run-Holds es s' (queue_step e q) v' h.1 in
    (r ∷ rs, s'', rw (eq, eqs), (a, as'), v'')

pub loaded-Holds : (log : Log) → Holds (loaded log) []
unfolding window
loaded-Holds log = record {
  ring = record {
    index_in = omega arith;
    held_le = omega arith;
    free = λ k h. refl;
    used = λ k h h'. absurd (omega arith);
    clean = λ k j h h'. refl;
  };
  contents = refl;
}

-- Let each packet of a history be another program's, or one that the module takes with a payload that is
-- there and has at most `PKT_BUFFER_SIZE` = 128 bytes (the repository's client sends 1024). From loading on,
-- no history of such packets and of reads ends in an access out of bounds, and each reply is the one that
-- the bounded queue allows: a read that works hands out the oldest packets that no earlier read has handed
-- out, in order, and a packet is lost only if it finds the cache full. The events happen one after another.
pub run_refines :
    (es : List Event) (log : Log)
    → AllHandled es
    → (rs : List (Option ReadReply)) × (s' : Km) × (run es (loaded log) ≡ some (rs, s'))
      × Answers es [] rs
      × Holds s' (queue_run es [])
run_refines es log h = run-Holds es (loaded log) [] (loaded-Holds log) h
