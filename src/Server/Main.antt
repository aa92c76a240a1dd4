-- ===== src/Server/Main.antt =====
-- `main` of mymodule/helper/server.c: its arguments, the log, the socket, the loop and the export.
use thesis_b_cs_tu_berlin.Prelude.{
  ℕ, codes, sym, Bool-cases, ◌⊎◌, inl, inr, if◌then◌else◌, ◌≡◌, refl, ◌∙◌, ◌≢◌, Bool, true, false,
  ◌&&◌, ◌||◌, not, Option, some, List, [], ◌∷◌, arith,
}
use thesis_b_cs_tu_berlin.Params.{num_log_buff}
use thesis_b_cs_tu_berlin.Memory.{strcmp_is_0, strcmp_is_0-true, ◌>>=◌}
use thesis_b_cs_tu_berlin.Log.{Log, entry, Exported}
use thesis_b_cs_tu_berlin.Log.Alloc.{obtained, all_succeed}
use thesis_b_cs_tu_berlin.Log.Closing.{
  File, km_socket_server, ebpf_socket_server, End, exits, exported, waits, Host, close_log,
  with_log, Reports, close_log_lem, with_log_lem, length-obtained_all,
}
use thesis_b_cs_tu_berlin.Server.{Round, Ended, by_signal, by_last_uid, still_waiting, serve}
use thesis_b_cs_tu_berlin.Server.Loop.{served, last_time, ending, serve_lem}

abbrev pub exit_failure : ℕ
exit_failure = 1

-- "km" and "ebpf"
abbrev pub km_text : List ℕ
km_text = 107 ∷ 109 ∷ []

abbrev pub ebpf_text : List ℕ
ebpf_text = 101 ∷ 98 ∷ 112 ∷ 102 ∷ []

abbrev pub log_file : List ℕ → File
log_file a = if strcmp_is_0 km_text a then km_socket_server else ebpf_socket_server

-- Past the loop, which a signal or the last uid has ended.
abbrev pub after_loop : Host → List ℕ → List ℕ → Ended → Log → Option End
after_loop h a held still_waiting log = some (waits log)
after_loop h a held by_signal log = close_log h (log_file a) held log
after_loop h a held by_last_uid log = close_log h (log_file a) held log

-- Past the allocation. `socket_fails` and `bind_fails` are those calls' answers.
unfoldable pub listen : Host → Bool → Bool → List ℕ → List Round → List ℕ → Option End
listen h socket_fails bind_fails a rounds held =
    if socket_fails || bind_fails
    then some (exits exit_failure)
    else (serve rounds h.memory >>= λ r. after_loop h a held r.0 r.1)

-- `args` are the arguments from `argv[1]` on.
unfoldable pub main : Host → Bool → Bool → List (List ℕ) → List Round → Option End
main h socket_fails bind_fails [] rounds = some (exits exit_failure)
main h socket_fails bind_fails (a ∷ b ∷ more) rounds = some (exits exit_failure)
main h socket_fails bind_fails (a ∷ []) rounds =
    if not (strcmp_is_0 km_text a) && not (strcmp_is_0 ebpf_text a)
    then some (exits exit_failure)
    else with_log h (listen h socket_fails bind_fails a rounds)

abbrev pub IsTarget : List ℕ → Type 0
IsTarget a = (strcmp_is_0 km_text a || strcmp_is_0 ebpf_text a) ≡ true

started :
    (h : Host) (sf bf : Bool) (a : List ℕ) (rounds : List Round)
    → IsTarget a
    → main h sf bf (a ∷ []) rounds ≡ with_log h (listen h sf bf a rounds)
unfolding main
started h sf bf a rounds t = rw (refused (strcmp_is_0 km_text a) (strcmp_is_0 ebpf_text a) t)
  where
    refused : (b c : Bool) → (b || c) ≡ true → (not b && not c) ≡ false
    refused b c e = ground arith

closes :
    (h : Host) (a held : List ℕ) (e : Ended) (log : Log)
    → e ≢ still_waiting
    → after_loop h a held e log ≡ close_log h (log_file a) held log
closes h a held still_waiting log n = absurd (n refl)
closes h a held by_signal log n = refl
closes h a held by_last_uid log n = refl

-- The argument asks for this file.
abbrev pub IsFileFor : List ℕ → File → Type 0
IsFileFor a file =
    ((a ≡ codes "km") × (file ≡ km_socket_server))
    ⊎ ((a ≡ codes "ebpf") × (file ≡ ebpf_socket_server))

log_file-IsFileFor : (a : List ℕ) → IsTarget a → IsFileFor a (log_file a)
log_file-IsFileFor a t = elim (Bool-cases (strcmp_is_0 km_text a)) [
  | inl km ↦ rw km (inl (sym (strcmp_is_0-true km_text a km), refl))
  | inr other ↦
      let ebpf : strcmp_is_0 ebpf_text a ≡ true = ground (arith, t, other) in
      rw other (inr (sym (strcmp_is_0-true ebpf_text a ebpf), refl))
]

-- A server that is started for `km` or `ebpf`, gets its memory, its socket and its file, and is told to
-- stop or is sent the last uid, writes the km or the ebpf server's file, as it was started for, and frees
-- every buffer once. Line `i` of the file is the time of the last served datagram that carries uid `i`, or
-- else what the allocated memory held there.
pub main-Reports :
    (h : Host) (a : List ℕ) (rounds : List Round)
    → IsTarget a
    → all_succeed h.alloc num_log_buff 0 ≡ true
    → h.opens ≡ true
    → ending rounds ≢ still_waiting
    → (file : File) × (out : Exported) × IsFileFor a file
      × (main h false false (a ∷ []) rounds
          ≡ some (exported file out (obtained h.alloc num_log_buff 0)))
      × Reports (λ i. last_time i (served rounds) (entry h.memory i)) out
unfolding listen
main-Reports h a rounds t ok o ends =
    let held = obtained h.alloc num_log_buff 0 in
    let (log, e, eqs) = serve_lem rounds h.memory in
    let (out, c, reports) =
      close_log_lem h (log_file a) held log _ o (length-obtained_all h ok) eqs in
    (
      log_file a,
      out,
      log_file-IsFileFor a t,
      started h false false a rounds t
          ∙ (with_log_lem h (listen h false false a rounds)).0 ok
          ∙ rw e (closes h a held (ending rounds) log ends ∙ c),
      reports,
    )
