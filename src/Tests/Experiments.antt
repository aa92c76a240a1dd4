-- ===== src/Tests/Experiments.antt =====
-- The eBPF experiment at concrete packets.
use native.Mathlib.Decide.{ℕ_discrete}
use thesis_b_cs_tu_berlin.Prelude.{
  ℕ, zero, suc, ◌+◌, ◌-◌, ◌≤◌, ◌<◌, length, get_elem?, get_or, ltb, if◌then◌else◌, ◌≡◌, refl, sym,
  ap, subst, ◌∙◌, inl, inr, some, List, [], ◌∷◌, map, arith,
}
use thesis_b_cs_tu_berlin.Params.{max_log_entry}
use thesis_b_cs_tu_berlin.Payload.{Payload, is_data_payload}
use thesis_b_cs_tu_berlin.Log.{Log, entry}
use thesis_b_cs_tu_berlin.Client.{Action, Outcome, client}
use thesis_b_cs_tu_berlin.Client.Sends.{sent, payload_at, client_lem}
use thesis_b_cs_tu_berlin.Xdp.Frame.{frame}
use thesis_b_cs_tu_berlin.Measurement.{Happening, arrives, polls, Experiment, happen_all, Arrived}
use thesis_b_cs_tu_berlin.Measurement.Sound.{begins, IsFresh, notes_nothing_else}
use thesis_b_cs_tu_berlin.Measurement.FromClient.{AllFrom, Delivered, client_noted}
use thesis_b_cs_tu_berlin.Tests.Frames.{
  client_header, client_header-IsClientHeader, times, pkts, stats, blank_maps,
}

abbrev no_log : Log
no_log b j = 0

blank_maps-IsFresh : IsFresh times pkts stats blank_maps
unfolding is_data_payload
blank_maps-IsFresh k = ground arith

-- The client's clock.
abbrev clock : ℕ → ℕ
clock i = 100 + i

abbrev first_two : List Happening
first_two =
    polls 5
    ∷ arrives (frame client_header (payload_at clock 1)) 0 20
    ∷ arrives (frame client_header (payload_at clock 0)) 0 21
    ∷ polls 30
    ∷ []

notes_nothing_else_example :
    (s' : Experiment times pkts stats) × (happen_all times pkts stats first_two
        (begins times pkts stats blank_maps no_log)
      ≡ some s')
    × ((k : ℕ) → k < s'.next_uid → Arrived k first_two)
    × ((k : ℕ) → s'.next_uid ≤ k → k < max_log_entry → entry s'.log k ≡ entry no_log k)
notes_nothing_else_example =
    notes_nothing_else times pkts stats first_two blank_maps no_log blank_maps-IsFresh

-- The packets of the uids below `n`, the last one first.
unfoldable all_frames : ℕ → List Happening
all_frames zero = []
all_frames (suc n) = arrives (frame client_header (payload_at clock n)) 0 n ∷ all_frames n

unfoldable ticks : ℕ → List ℕ
ticks zero = []
ticks (suc n) = n ∷ ticks n

length-ticks : (n : ℕ) → length (ticks n) ≡ n
unfolding ticks
length-ticks zero = refl
length-ticks (suc n) = ap suc (length-ticks n)

fuel_is_enough : max_log_entry + 1 < max_log_entry + 2
fuel_is_enough = omega arith

abbrev actions : List Action
actions = (client_lem clock 0 (max_log_entry + 2) fuel_is_enough).0

abbrev outcome : Outcome
outcome = (client_lem clock 0 (max_log_entry + 2) fuel_is_enough).1

the_run : client clock 0 (max_log_entry + 2) ≡ some (actions, outcome)
the_run = (client_lem clock 0 (max_log_entry + 2) fuel_is_enough).2

sent_each : (i : ℕ) → i ≤ max_log_entry → get_elem? (sent actions) i ≡ some (payload_at clock i)
sent_each = (client_lem clock 0 (max_log_entry + 2) fuel_is_enough).4

frames_from : (n : ℕ) → n ≤ max_log_entry → AllFrom (sent actions) (all_frames n)
unfolding all_frames
frames_from zero h = tt
frames_from (suc n) h = (
  (
    n,
    payload_at clock n,
    sent_each n (omega arith),
    (client_header, client_header-IsClientHeader, refl),
  ),
  frames_from n (omega arith),
)

frame_comes : (n i : ℕ) → i < n → Delivered (payload_at clock i) (all_frames n)
unfolding all_frames
frame_comes zero i h = absurd (omega arith)
frame_comes (suc n) i h = elim (ℕ_discrete i n) [
  | yes last ↦ inl (
    client_header,
    client_header-IsClientHeader,
    ap (λ j. frame client_header (payload_at clock j)) (sym last),
  )
  | no before ↦ inr (frame_comes n i (omega arith))
]

all_come :
    (i : ℕ) (pl : Payload)
    → i < max_log_entry
    → get_elem? (sent actions) i ≡ some pl
    → Delivered pl (all_frames max_log_entry)
all_come i pl h e =
    subst (λ q. Delivered q (all_frames max_log_entry)) (same (sym (sent_each i (omega arith)) ∙ e))
      (frame_comes max_log_entry i h)
  where
    same : some (payload_at clock i) ≡ some pl → payload_at clock i ≡ pl
    same h = cc

client_noted_example :
    (mid : Experiment times pkts stats) × (s' : Experiment times pkts stats) × (happen_all times
        pkts stats
        (all_frames max_log_entry)
        (begins times pkts stats blank_maps no_log)
      ≡ some mid)
    × (happen_all times pkts stats (map polls (ticks max_log_entry)) mid ≡ some s')
    × (max_log_entry ≤ s'.next_uid)
    × ((i : ℕ)
        → i < max_log_entry
        → entry s'.log i ≡ (
            if ltb i mid.next_uid
            then entry mid.log i
            else get_or (ticks max_log_entry) (i - mid.next_uid) 0))
client_noted_example =
    client_noted times pkts stats clock 0 (max_log_entry + 2) actions outcome
      (all_frames max_log_entry) (ticks max_log_entry) blank_maps no_log fuel_is_enough the_run
      (λ i h. (omega arith, omega arith)) (omega arith) blank_maps-IsFresh
      (frames_from max_log_entry (omega arith)) all_come (omega (arith, length-ticks max_log_entry))
