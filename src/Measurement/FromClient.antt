-- ===== src/Measurement/FromClient.antt =====
-- The whole experiment: the client's payloads, in frames, through the XDP program into the log.
use thesis_b_cs_tu_berlin.Prelude.{
  ℕ, zero, suc, ◌+◌, ◌-◌, ◌^◌, ◌≤◌, ◌<◌, length, get_elem?, get_or, ltb, if◌then◌else◌, ◌≡◌, sym,
  ap, subst, ◌∙◌, ◌⊎◌, inl, inr, true, Option, some, List, [], ◌∷◌, map, arith,
}
use thesis_b_cs_tu_berlin.Params.{max_log_entry}
use thesis_b_cs_tu_berlin.Memory.{Bytes, Packet}
use thesis_b_cs_tu_berlin.Payload.{Payload, IsWide, is_data_payload}
use thesis_b_cs_tu_berlin.Log.{Log, entry}
use thesis_b_cs_tu_berlin.Bpf.{BpfArray}
use thesis_b_cs_tu_berlin.Client.{Action, Outcome, client}
use thesis_b_cs_tu_berlin.Client.Sends.{sent, payload_at, client_lem}
use thesis_b_cs_tu_berlin.Xdp.{Maps}
use thesis_b_cs_tu_berlin.Xdp.Effect.{payload_at_42, IsMeasured}
use thesis_b_cs_tu_berlin.Xdp.Frame.{frame, IsClientHeader, frame-IsMeasured, frame_payload}
use thesis_b_cs_tu_berlin.Measurement.{
  Happening, arrives, polls, Experiment, happen_all, Carries, Arrived,
}
use thesis_b_cs_tu_berlin.Measurement.Sound.{begins, IsFresh}
use thesis_b_cs_tu_berlin.Measurement.Kept.{AllData}
use thesis_b_cs_tu_berlin.Measurement.Complete.{notes_all}

-- The packet is a client's frame round the payload.
abbrev pub Framed : Payload → Packet → Type 0
Framed pl p = (h : Bytes) × IsClientHeader h × (p ≡ frame h pl)

-- Every packet that arrives is a frame round one of the payloads.
abbrev pub AllFrom : List Payload → List Happening → Type 0
AllFrom pls [] = Unit {0}
AllFrom pls (arrives p index now ∷ es) =
    ((i : ℕ) × (pl : Payload) × (get_elem? pls i ≡ some pl) × Framed pl p) × AllFrom pls es
AllFrom pls (polls now ∷ es) = AllFrom pls es

-- A frame round the payload is among the arrivals.
abbrev pub Delivered : Payload → List Happening → Type 0
Delivered pl [] = ⊥
Delivered pl (arrives p index now ∷ es) = Framed pl p ⊎ Delivered pl es
Delivered pl (polls now ∷ es) = Delivered pl es

-- A data payload of the client's.
abbrev IsClientData : Payload → Type 0
IsClientData pl = IsWide pl × (is_data_payload pl ≡ true) × (pl.uid < 2 ^ 32)

Framed-payload : (pl : Payload) (p : Packet) → IsWide pl → Framed pl p → payload_at_42 p ≡ pl
Framed-payload pl p wide (h, v, e) = ap payload_at_42 e ∙ frame_payload h pl wide

Framed-Carries : (pl : Payload) (p : Packet) → IsClientData pl → Framed pl p → Carries pl.uid p
Framed-Carries pl p (wide, d, small) (h, v, e) =
    let same = Framed-payload pl p wide (h, v, e) in
    record {
      measured = subst IsMeasured (sym e) (frame-IsMeasured h pl v);
      is_data = subst (λ q. is_data_payload q ≡ true) (sym same) d;
      uid_is = ap (λ q. q.uid) same;
    }

AllFrom-AllData :
    (pls : List Payload) (es : List Happening)
    → ((i : ℕ) (pl : Payload) → get_elem? pls i ≡ some pl → IsClientData pl)
    → AllFrom pls es
    → AllData es
AllFrom-AllData pls [] ok h = tt
AllFrom-AllData pls (arrives p index now ∷ es) ok ((i, pl, e, f), hs) =
    let (wide, d, small) = ok i pl e in
    let same = Framed-payload pl p wide f in
    (
      (λ m. (
        subst (λ q. is_data_payload q ≡ true) (sym same) d,
        subst (λ q. q.uid < 2 ^ 32) (sym same) small,
      )),
      AllFrom-AllData pls es ok hs,
    )
AllFrom-AllData pls (polls now ∷ es) ok hs = AllFrom-AllData pls es ok hs

Delivered-Arrived :
    (pl : Payload) (es : List Happening) → IsClientData pl → Delivered pl es → Arrived pl.uid es
Delivered-Arrived pl [] ok h = h
Delivered-Arrived pl (arrives p index now ∷ es) ok (inl f) = inl (Framed-Carries pl p ok f)
Delivered-Arrived pl (arrives p index now ∷ es) ok (inr h) = inr (Delivered-Arrived pl es ok h)
Delivered-Arrived pl (polls now ∷ es) ok h = Delivered-Arrived pl es ok h

payload_at-IsClientData :
    (clock : ℕ → ℕ) (i : ℕ)
    → i ≤ max_log_entry
    → 0 < clock i
    → clock i < 2 ^ 64
    → IsClientData (payload_at clock i)
unfolding is_data_payload
payload_at-IsClientData clock i hi past fits = (omega arith, ground arith, omega arith)

get_elem?-lt :
    (pls : List Payload) (i : ℕ) (pl : Payload) → get_elem? pls i ≡ some pl → i < length pls
get_elem?-lt [] i pl e = cc
get_elem?-lt (x ∷ pls) zero pl e = omega arith
get_elem?-lt (x ∷ pls) (suc i) pl e = omega (arith, get_elem?-lt pls i pl e)

sent-IsClientData :
    (clock : ℕ → ℕ) (pls : List Payload)
    → length pls ≡ max_log_entry + 1
    → ((i : ℕ) → i ≤ max_log_entry → get_elem? pls i ≡ some (payload_at clock i))
    → ((i : ℕ) → i ≤ max_log_entry → (0 < clock i) × (clock i < 2 ^ 64))
    → (i : ℕ) (pl : Payload) → get_elem? pls i ≡ some pl
    → IsClientData pl
sent-IsClientData clock pls len each ticks i pl e =
    let hi : i ≤ max_log_entry = omega (arith, get_elem?-lt pls i pl e) in
    subst IsClientData (same (sym (each i hi) ∙ e))
      (payload_at-IsClientData clock i hi (ticks i hi).0 (ticks i hi).1)
  where
    same : some (payload_at clock i) ≡ some pl → payload_at clock i ≡ pl
    same h = cc

module _ (times : BpfArray ℕ) (pkts : BpfArray Payload) (stats : BpfArray ℕ) where
  -- The whole experiment, on maps that hold no packet to note and have room for `MAX_LOG_ENTRY` keys: if
  -- all that arrives are frames round payloads that one run of the client has sent, in any order and as
  -- often as may be, and each of its first `MAX_LOG_ENTRY` payloads arrives at least once, then after
  -- `MAX_LOG_ENTRY` more rounds of its loop the user program has noted every one of these packets. A uid
  -- that was not noted before the last arrival has the time of its round, and the earlier times stay.
  -- The client's clock is positive and below 2^64.
  pub client_noted :
      (clock : ℕ → ℕ) (start fuel : ℕ) (actions : List Action) (out : Outcome) (es : List Happening)
      (nows : List ℕ) (m : Maps times pkts stats) (log : Log)
      → max_log_entry + 1 < fuel
      → client clock start fuel ≡ some (actions, out)
      → ((i : ℕ) → i ≤ max_log_entry → (0 < clock i) × (clock i < 2 ^ 64))
      → max_log_entry ≤ pkts.max_entries
      → IsFresh times pkts stats m
      → AllFrom (sent actions) es
      → ((i : ℕ) (pl : Payload)
          → i < max_log_entry
          → get_elem? (sent actions) i ≡ some pl
          → Delivered pl es)
      → max_log_entry ≤ length nows
      → (mid : Experiment times pkts stats) × (s' : Experiment times pkts stats) × (happen_all times
            pkts stats es
            (begins times pkts stats m log)
          ≡ some mid)
        × (happen_all times pkts stats (map polls nows) mid ≡ some s')
        × (max_log_entry ≤ s'.next_uid)
        × ((i : ℕ)
            → i < max_log_entry
            → entry s'.log i
              ≡ (if ltb i mid.next_uid then entry mid.log i else get_or nows (i - mid.next_uid) 0))
  client_noted clock start fuel actions out es nows m log enough runs ticks big fresh from all len =
      let (actions', out', e, count, each, _) = client_lem clock start fuel enough in
      let same : actions' ≡ actions = equal actions' out' (sym e ∙ runs) in
      let each' =
        subst (λ l. (i : ℕ) → i ≤ max_log_entry → get_elem? (sent l) i ≡ some (payload_at clock i))
          same each in
      let count' = subst (λ l. length (sent l) ≡ max_log_entry + 1) same count in
      let ok = sent-IsClientData clock (sent actions) count' each' ticks in
      notes_all times pkts stats max_log_entry es nows m log big fresh
        (AllFrom-AllData (sent actions) es ok from)
        (λ j h.
          Delivered-Arrived (payload_at clock j) es
            (ok j (payload_at clock j) (each' j (omega arith)))
            (all j (payload_at clock j) h (each' j (omega arith))))
        (omega arith) len
    where
      equal :
          (actions' : List Action) (out' : Outcome)
          → ◌≡◌ {A = Option (List Action × Outcome)} (some (actions', out')) (some (actions, out))
          → actions' ≡ actions
      equal actions' out' e = cc
