-- ===== src/Client/Sends.antt =====
-- What the client sends.
use thesis_b_cs_tu_berlin.Prelude.{
  ℕ, zero, suc, ◌+◌, ◌%◌, ◌≤◌, ◌<◌, length, get_elem?, ltb, ◌==◌, lt→ltb, Bool-cases, ◌≡◌, refl, ap,
  ◌∙◌, ◌↔◌, inl, inr, true, false, some, List, [], ◌∷◌, ◌++◌, arith,
}
use thesis_b_cs_tu_berlin.Params.{max_log_entry, client_rate}
use thesis_b_cs_tu_berlin.Payload.{Payload}
use thesis_b_cs_tu_berlin.Client.{
  initial, Action, sends, sleeps, Outcome, divides_by_zero, elapsed, report, round_actions,
  client_loop, client, no_socket, sent_all, main,
}

-- The payload of round `k`.
abbrev pub payload_at : (ℕ → ℕ) → ℕ → Payload
payload_at clock k = record initial { uid = k; created_time = clock k }

-- The actions of the rounds `k`, ..., `k + n - 1`.
pub rounds : (ℕ → ℕ) → ℕ → ℕ → List Action
rounds clock k zero = []
rounds clock k (suc n) = round_actions (payload_at clock k) k ++ rounds clock (k + 1) n

-- The payloads that a list of actions sends.
pub sent : List Action → List Payload
sent [] = []
sent (sends pl ∷ rest) = pl ∷ sent rest
sent (sleeps ∷ rest) = sent rest

pub payloads : (ℕ → ℕ) → ℕ → ℕ → List Payload
payloads clock k zero = []
payloads clock k (suc n) = payload_at clock k ∷ payloads clock (k + 1) n

loop_lem :
    (clock : ℕ → ℕ) (start : ℕ) (n fuel k old_uid old_time : ℕ)
    → k + n ≡ max_log_entry + 1
    → n < fuel
    → client_loop clock start fuel (record initial { uid = old_uid; created_time = old_time }) k k
      ≡ some (rounds clock k n, report start (clock (max_log_entry + 1)))
unfolding client_loop rounds
loop_lem clock start zero (suc fuel) k u t e h =
    let last : k ≡ max_log_entry + 1 = omega arith in
    let over : ltb max_log_entry k ≡ true = lt→ltb _ _ (omega arith) in rw (over, last)
loop_lem clock start (suc n) (suc fuel) k u t e h =
    let more : ltb max_log_entry k ≡ false = ground arith in
    rw (more, loop_lem clock start n fuel (k + 1) k (clock k) (omega arith) (omega arith))
loop_lem clock start n zero k u t e h = absurd (omega arith)

sent-rounds : (clock : ℕ → ℕ) (k n : ℕ) → sent (rounds clock k n) ≡ payloads clock k n
unfolding sent rounds payloads
sent-rounds clock k zero = refl
sent-rounds clock k (suc n) = elim (Bool-cases (k % client_rate == 0)) [
  | inl pause ↦ rw pause (ap (λ r. payload_at clock k ∷ r) (sent-rounds clock (k + 1) n))
  | inr go_on ↦ rw go_on (ap (λ r. payload_at clock k ∷ r) (sent-rounds clock (k + 1) n))
]

length-payloads : (clock : ℕ → ℕ) (k n : ℕ) → length (payloads clock k n) ≡ n
unfolding payloads
length-payloads clock k zero = refl
length-payloads clock k (suc n) = ap suc (length-payloads clock (k + 1) n)

get_elem?-payloads :
    (clock : ℕ → ℕ) (k n i : ℕ)
    → i < n
    → get_elem? (payloads clock k n) i ≡ some (payload_at clock (k + i))
unfolding payloads
get_elem?-payloads clock k zero i h = elim h [ ]
get_elem?-payloads clock k (suc n) zero h =
    ap (λ j. some (payload_at clock j)) {x = k} {y = k + 0} (omega arith)
get_elem?-payloads clock k (suc n) (suc i) h =
    get_elem?-payloads clock (k + 1) n i (omega arith)
    ∙ ap (λ j. some (payload_at clock j)) {x = k + 1 + i} {y = k + suc i} (omega arith)

fast_iff :
    (start stop : ℕ) → (report start stop ≡ divides_by_zero) ↔ (elapsed start stop < 1_000_000)
unfolding report
fast_iff start stop = (λ e. ground arith, λ h. ground arith)

-- With fuel for one round more than it makes, the client's loop ends. It has then sent
-- `MAX_LOG_ENTRY + 1` payloads, the `i`-th with uid `i`, one more than the receivers have log entries
-- for; and it divides by zero exactly when the loop has taken less than a millisecond.
pub client_lem :
    (clock : ℕ → ℕ) (start fuel : ℕ)
    → max_log_entry + 1 < fuel
    → (actions : List Action) × (out : Outcome) × (client clock start fuel ≡ some (actions, out))
      × (length (sent actions) ≡ max_log_entry + 1)
      × ((i : ℕ) → i ≤ max_log_entry → get_elem? (sent actions) i ≡ some (payload_at clock i))
      × ((out ≡ divides_by_zero) ↔ (elapsed start (clock (max_log_entry + 1)) < 1_000_000))
unfolding client
client_lem clock start fuel h = (
  rounds clock 0 (max_log_entry + 1),
  report start (clock (max_log_entry + 1)),
  loop_lem clock start (max_log_entry + 1) fuel 0 0 0 (omega arith) h,
  rw (sent-rounds clock 0 (max_log_entry + 1)) (length-payloads clock 0 (max_log_entry + 1)),
  λ i hi. rw (sent-rounds clock 0 (max_log_entry + 1)) (
      get_elem?-payloads clock 0 (max_log_entry + 1) i (omega arith)
      ∙ ap (λ j. some (payload_at clock j)) {x = 0 + i} {y = i} (omega arith)),
  fast_iff start (clock (max_log_entry + 1)),
)

-- The client's `main`: with no socket it ends with EXIT_FAILURE and sends nothing. With one, and with
-- fuel for one round more than it makes, its loop ends. It has then sent `MAX_LOG_ENTRY + 1` payloads,
-- the `i`-th with uid `i`, one more than the receivers have log entries for; and it divides by zero
-- exactly when the loop has taken less than a millisecond.
pub main_lem :
    (clock : ℕ → ℕ) (start fuel : ℕ)
    → max_log_entry + 1 < fuel
    → (main clock start fuel true ≡ some (no_socket 1))
      × ((actions : List Action) × (out : Outcome) × (main clock start fuel false
            ≡ some (sent_all actions out))
          × (length (sent actions) ≡ max_log_entry + 1)
          × ((i : ℕ) → i ≤ max_log_entry → get_elem? (sent actions) i ≡ some (payload_at clock i))
          × ((out ≡ divides_by_zero) ↔ (elapsed start (clock (max_log_entry + 1)) < 1_000_000)))
unfolding main
main_lem clock start fuel h =
    let (actions, out, e, count, each, fast) = client_lem clock start fuel h in
    (refl, (actions, out, rw (e, main) refl, count, each, fast))
