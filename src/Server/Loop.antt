-- ===== src/Server/Loop.antt =====
-- What the server's loop notes, and when it ends.
use thesis_b_cs_tu_berlin.Prelude.{
  ℕ, ◌-◌, ◌≤◌, ◌<◌, ◌==◌, if◌then◌else◌, Bool-cases, ◌≡◌, refl, ap, ◌∙◌, inl, inr, true, some, List,
  [], ◌∷◌, arith,
}
use thesis_b_cs_tu_berlin.Params.{max_log_entry}
use thesis_b_cs_tu_berlin.Memory.{le64}
use thesis_b_cs_tu_berlin.Payload.{decode}
use thesis_b_cs_tu_berlin.Log.{Log, entry}
use thesis_b_cs_tu_berlin.Log.Entries.{log_after, log_store-after, entry-log_after}
use thesis_b_cs_tu_berlin.Server.{
  Round, payload_of, Ended, by_signal, by_last_uid, still_waiting, serve,
}

-- The rounds that are served: those up to a cleared `keep_running`, or up to the last uid.
unfoldable pub served : List Round → List Round
served [] = []
served (r ∷ rs) =
    if r.keep_running
    then (if (payload_of r).uid == max_log_entry - 1 then r ∷ [] else r ∷ served rs)
    else []

-- The time of the last of these rounds that carries a uid.
unfoldable pub last_time : ℕ → List Round → ℕ → ℕ
last_time uid [] old = old
last_time uid (r ∷ rs) old = last_time uid rs (if uid == (payload_of r).uid then r.now else old)

unfoldable pub ending : List Round → Ended
ending [] = still_waiting
ending (r ∷ rs) =
    if r.keep_running
    then (if (payload_of r).uid == max_log_entry - 1 then by_last_uid else ending rs)
    else by_signal

-- The server never writes outside its log. It serves the datagrams in order until it is told to stop
-- or has served the last uid, and then each uid below `MAX_LOG_ENTRY` has the time of the last served
-- datagram that carries it, or what it had before.
pub serve_lem :
    (rs : List Round) (log : Log)
    → (log' : Log) × (serve rs log ≡ some (ending rs, log'))
      × ((uid : ℕ)
          → uid < max_log_entry
          → entry log' uid ≡ last_time uid (served rs) (entry log uid))
unfolding serve ending served last_time
serve_lem [] log = (log, refl, λ uid h. refl)
serve_lem (r ∷ rs) log = elim (Bool-cases r.keep_running) [
  | inr stopped ↦ rw stopped (log, refl, λ uid h. refl)
  | inl running ↦ elim (Bool-cases ((payload_of r).uid == max_log_entry - 1)) [
    | inl last ↦
        rw (running, last, log_store-after log (payload_of r).uid r.now)
          (
            log_after log (payload_of r).uid r.now,
            refl,
            λ uid h. entry-log_after log (payload_of r).uid r.now uid h,
          )
    | inr more ↦
        let (log', e, eqs) = serve_lem rs (log_after log (payload_of r).uid r.now) in
        rw (running, more, log_store-after log (payload_of r).uid r.now)
          (
            log',
            e,
            λ uid h.
                eqs uid h
                ∙ ap (last_time uid (served rs))
                    (entry-log_after log (payload_of r).uid r.now uid h),
          )
  ]
]

short_uid : (r : Round) → r.received ≤ 8 → (payload_of r).uid ≡ 0
unfolding decode le64
short_uid r short = ground arith

-- A datagram of at most eight bytes, an empty one too, is noted as an arrival of uid 0, and the server
-- goes on.
pub short_datagram :
    (r : Round) (rs : List Round) (log : Log)
    → r.received ≤ 8
    → r.keep_running ≡ true
    → serve (r ∷ rs) log ≡ serve rs (log_after log 0 r.now)
unfolding serve
short_datagram r rs log short running = rw (running, short_uid r short, log_store-after log 0 r.now)
