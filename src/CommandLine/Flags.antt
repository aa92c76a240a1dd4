-- ===== src/CommandLine/Flags.antt =====
-- The flags that the options leave.
use thesis_b_cs_tu_berlin.Prelude.{
  ℕ, ◌+◌, ◌*◌, ◌/◌, ◌%◌, if◌then◌else◌, Option-cases, ◌≡◌, refl, sym, ap, subst, ◌∙◌, inl, inr,
  Bool, true, false, ◌||◌, Option, none, some, List, [], ◌∷◌, arith,
}
use thesis_b_cs_tu_berlin.Prelude.Int.{ℤ}
use thesis_b_cs_tu_berlin.CommandLine.{
  Text, Config, Opt, dev, redirect_dev, auto_mode, opt_skb, native, offload_mode, force, reuse,
  unload, poll_mode, quiet, queue, opt_filename, opt_progsec, opt_src_mac, opt_dest_mac, opt_copy,
  zero_copy, help, unknown, skb_mode, drv_mode, hw_mode, index_of, parse_option, parse_options,
}

-- The mode bits after an option, from those before it.
abbrev pub mode_after : Opt → ℕ → ℕ
mode_after auto_mode old = 0
mode_after opt_skb old = skb_mode
mode_after native old = drv_mode
mode_after offload_mode old = hw_mode
mode_after o old = old

abbrev pub is_force : Opt → Bool
is_force force = true
is_force o = false

abbrev pub asks_copy : Opt → Bool
asks_copy opt_skb = true
asks_copy opt_copy = true
asks_copy o = false

abbrev pub asks_zero_copy : Opt → Bool
asks_zero_copy zero_copy = true
asks_zero_copy o = false

-- What one option does to the flags `f` and the bind flags `b`.
record Stepped (o : Opt) (f b f' b' : ℕ) : Type 0 where
  high : f' / 16 ≡ f / 16
  mode : f' / 2 % 8 * 2 ≡ mode_after o (f / 2 % 8 * 2)
  low : f' % 2 ≡ (if is_force o then 0 else f % 2)
  copy : b' / 2 % 2 ≡ (if asks_copy o then 1 else b / 2 % 2)
  zero_copy : b' / 4 % 2 ≡ (if asks_zero_copy o then 1 else b / 4 % 2)

abbrev Steps : Opt → Config → Config → Type 0
Steps o c c' = Stepped o c.xdp_flags c.xsk_bind_flags c'.xdp_flags c'.xsk_bind_flags

config_of : Config → Option Config → Config
config_of d none = d
config_of d (some c) = c

via : (o : Opt) (c x c' : Config) → some x ≡ some c' → Steps o c x → Steps o c c'
unfolding config_of
via o c x c' e s = subst (Steps o c) (ap (config_of x) e) s

through_index :
    (o : Opt) (c c' : Config) (found : Option ℕ) (mk : ℕ → Config)
    → ((i : ℕ) → Steps o c (mk i))
    → (elim found [ none ↦ none | some i ↦ some (mk i) ]) ≡ some c'
    → Steps o c c'
through_index o c c' none mk s e = cc
through_index o c c' (some i) mk s e = via o c (mk i) c' e (s i)

module _ (if_nametoindex : Text → ℕ) (atoi : Text → ℤ) where
  option-Steps :
      (o : Opt) (c c' : Config) → parse_option if_nametoindex atoi o c ≡ some c' → Steps o c c'
  unfolding parse_option
  option-Steps (dev name) c c' e =
      through_index (dev name) c c' (index_of if_nametoindex atoi name) _ (λ i. omega arith) e
  option-Steps (redirect_dev name) c c' e =
      through_index (redirect_dev name) c c' (index_of if_nametoindex atoi name) _
        (λ i. omega arith) e
  option-Steps auto_mode c c' e = via auto_mode c _ c' e (omega arith)
  option-Steps opt_skb c c' e = via opt_skb c _ c' e (omega arith)
  option-Steps native c c' e = via native c _ c' e (omega arith)
  option-Steps offload_mode c c' e = via offload_mode c _ c' e (omega arith)
  option-Steps force c c' e = via force c _ c' e (omega arith)
  option-Steps reuse c c' e = via reuse c _ c' e (omega arith)
  option-Steps unload c c' e = via unload c _ c' e (omega arith)
  option-Steps poll_mode c c' e = via poll_mode c _ c' e (omega arith)
  option-Steps quiet c c' e = via quiet c _ c' e (omega arith)
  option-Steps (queue arg) c c' e = via (queue arg) c _ c' e (omega arith)
  option-Steps (opt_filename arg) c c' e = via (opt_filename arg) c _ c' e (omega arith)
  option-Steps (opt_progsec arg) c c' e = via (opt_progsec arg) c _ c' e (omega arith)
  option-Steps (opt_src_mac arg) c c' e = via (opt_src_mac arg) c _ c' e (omega arith)
  option-Steps (opt_dest_mac arg) c c' e = via (opt_dest_mac arg) c _ c' e (omega arith)
  option-Steps opt_copy c c' e = via opt_copy c _ c' e (omega arith)
  option-Steps zero_copy c c' e = via zero_copy c _ c' e (omega arith)
  option-Steps help c c' e = cc
  option-Steps unknown c c' e = cc

-- The mode bits after some options: those of the last option that names a mode.
abbrev pub last_mode : List Opt → ℕ → ℕ
last_mode [] old = old
last_mode (o ∷ os) old = last_mode os (mode_after o old)

abbrev pub any_force : List Opt → Bool
any_force [] = false
any_force (o ∷ os) = is_force o || any_force os

abbrev pub any_copy : List Opt → Bool
any_copy [] = false
any_copy (o ∷ os) = asks_copy o || any_copy os

abbrev pub any_zero_copy : List Opt → Bool
any_zero_copy [] = false
any_zero_copy (o ∷ os) = asks_zero_copy o || any_zero_copy os

-- What the options leave of the flags, in order: the XDP flags and the two bind flags.
abbrev pub Left : List Opt → Config → Config → Type 0
Left os c c' =
    (c'.xdp_flags
      ≡ c.xdp_flags / 16 * 16
        + last_mode os (c.xdp_flags / 2 % 8 * 2)
        + (if any_force os then 0 else c.xdp_flags % 2))
    × (c'.xsk_bind_flags / 2 % 2 ≡ (if any_copy os then 1 else c.xsk_bind_flags / 2 % 2))
    × (c'.xsk_bind_flags / 4 % 2 ≡ (if any_zero_copy os then 1 else c.xsk_bind_flags / 4 % 2))

module _ (if_nametoindex : Text → ℕ) (atoi : Text → ℤ) where
  refused_stops :
      (o : Opt) (os : List Opt) (c : Config)
      → parse_option if_nametoindex atoi o c ≡ none
      → parse_options if_nametoindex atoi (o ∷ os) c ≡ none
  unfolding parse_options
  refused_stops o os c n = rw (n, parse_options) refl

  accepted_goes_on :
      (o : Opt) (os : List Opt) (c d : Config)
      → parse_option if_nametoindex atoi o c ≡ some d
      → parse_options if_nametoindex atoi (o ∷ os) c ≡ parse_options if_nametoindex atoi os d
  unfolding parse_options
  accepted_goes_on o os c d s = rw (s, parse_options) refl

  Left-cons :
      (o : Opt) (os : List Opt) (c d c' : Config) → Steps o c d → Left os d c' → Left (o ∷ os) c c'
  Left-cons o os c d c' st (flags, copied, zero_copied) = (
    ground (arith, flags, st.high, ap (last_mode os) st.mode, st.low),
    ground (arith, copied, st.copy),
    ground (arith, zero_copied, st.zero_copy),
  )

  -- A command line that is accepted leaves the XDP mode of its last mode option, or the one from before
  -- where it has none, with XDP_FLAGS_UPDATE_IF_NOEXIST cleared if `--force` is anywhere and kept if not,
  -- and the bits above the modes kept. The two bind flags add up: each is set if its option is anywhere,
  -- or was set before, and an option for one never clears the other.
  pub parse_options-flags :
      (os : List Opt) (c c' : Config)
      → parse_options if_nametoindex atoi os c ≡ some c'
      → Left os c c'
  unfolding parse_options config_of
  parse_options-flags [] c c' e = subst (Left [] c) (ap (config_of c) e) (omega arith)
  parse_options-flags (o ∷ os) c c' e = elim (Option-cases (parse_option if_nametoindex atoi o c)) [
    | inl n ↦ let stopped = sym (refused_stops o os c n) ∙ e in cc
    | inr (d, s) ↦
        Left-cons o os c d c' (option-Steps if_nametoindex atoi o c d s)
          (parse_options-flags os d c' (sym (accepted_goes_on o os c d s) ∙ e))
  ]
