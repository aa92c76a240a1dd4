-- ===== src/CommandLine.antt =====
-- eBPF_app/common/common_params.c: the command line of the eBPF user program. `getopt_long` is the C
-- library's: its answers are a list of options with their arguments.
use thesis_b_cs_tu_berlin.Prelude.{
  ℕ, ◌+◌, ◌-◌, ◌*◌, ◌/◌, ◌%◌, length, take, replicate, leb, ◌==◌, if◌then◌else◌, Bool, true, false,
  Option, none, some, List, [], ◌∷◌, ◌++◌,
}
use thesis_b_cs_tu_berlin.Prelude.Int.{ℤ}
pub mod Flags
pub mod Table
pub mod Usage

-- `IF_NAMESIZE`
abbrev pub if_namesize : ℕ
if_namesize = 16

abbrev pub exit_fail_option : ℕ
exit_fail_option = 2

-- The bits of `XDP_FLAGS_SKB_MODE`, `XDP_FLAGS_DRV_MODE` and `XDP_FLAGS_HW_MODE`, and of `XDP_COPY` and
-- `XDP_ZEROCOPY`.
abbrev pub skb_mode : ℕ
skb_mode = 2

abbrev pub drv_mode : ℕ
drv_mode = 4

abbrev pub hw_mode : ℕ
hw_mode = 8

abbrev pub xdp_copy : ℕ
xdp_copy = 2

abbrev pub xdp_zerocopy : ℕ
xdp_zerocopy = 4

-- `flags & XDP_COPY` and `flags & XDP_ZEROCOPY`
abbrev pub and_copy : ℕ → ℕ
and_copy flags = flags / 2 % 2 * xdp_copy

abbrev pub and_zerocopy : ℕ → ℕ
and_zerocopy flags = flags / 4 % 2 * xdp_zerocopy

-- `flags & ~XDP_FLAGS_MODES` and `flags & ~XDP_FLAGS_UPDATE_IF_NOEXIST`
abbrev pub and_not_modes : ℕ → ℕ
and_not_modes flags = flags / 16 * 16 + flags % 2

abbrev pub and_not_if_noexist : ℕ → ℕ
and_not_if_noexist flags = flags / 2 * 2

-- A byte of a string and its closing zero.
abbrev pub Text : Type 0
Text = List ℕ

-- `strncpy(dest, s, n)`: the `n` bytes of `dest`.
abbrev pub strncpy : ℕ → Text → List ℕ
strncpy n s = take n s ++ replicate (n - length s) 0

-- The fields of `struct config` that the parser sets, and the global `verbose`.
pub record Config : Type 0 where
  pub xdp_flags : ℕ
  pub ifindex : ℕ
  pub ifname_buf : List ℕ
  pub redirect_ifindex : ℕ
  pub redirect_ifname_buf : List ℕ
  pub do_unload : Bool
  pub reuse_maps : Bool
  pub filename : List ℕ
  pub progsec : List ℕ
  pub src_mac : List ℕ
  pub dest_mac : List ℕ
  pub xsk_bind_flags : ℕ
  pub xsk_if_queue : ℤ
  pub xsk_poll_mode : Bool
  pub verbose : Bool

-- An answer of `getopt_long`: 'd', 'r', 'A', 'S', 'N', 3, 'F', 'M', 'U', 'p', 'q', 'Q', 1, 2, 'L', 'R',
-- 'c', 'z', 'h', or any other.
pub data Opt : Type 0 where
  dev redirect_dev : Text → Opt
  auto_mode opt_skb native offload_mode force reuse unload poll_mode quiet : Opt
  queue : Text → Opt
  opt_filename opt_progsec opt_src_mac opt_dest_mac : Text → Opt
  opt_copy zero_copy help unknown : Opt

module _ (if_nametoindex : Text → ℕ) (atoi : Text → ℤ) where
  -- `case 'd'` and `case 'r'`: the name's index, or `goto error`.
  abbrev pub index_of : Text → Option ℕ
  index_of name =
      if leb if_namesize (length name)
      then none
      else (if if_nametoindex name == 0 then none else some (if_nametoindex name))

  -- The `switch`: the new configuration, or `none` for the exit with a usage message.
  unfoldable pub parse_option : Opt → Config → Option Config
  parse_option (dev name) cfg = elim (index_of name) [
    | none ↦ none
    | some i ↦ some (record cfg { ifname_buf = strncpy if_namesize name; ifindex = i })
  ]
  parse_option (redirect_dev name) cfg = elim (index_of name) [
    | none ↦ none
    | some i ↦
        some (record cfg { redirect_ifname_buf = strncpy if_namesize name; redirect_ifindex = i })
  ]
  parse_option auto_mode cfg = some (record cfg { xdp_flags = and_not_modes cfg.xdp_flags })
  parse_option opt_skb cfg = some (record cfg {
    xdp_flags = and_not_modes cfg.xdp_flags + skb_mode;
    xsk_bind_flags = and_zerocopy cfg.xsk_bind_flags + xdp_copy;
  })
  parse_option native cfg = some (record cfg { xdp_flags = and_not_modes cfg.xdp_flags + drv_mode })
  parse_option offload_mode cfg =
      some (record cfg { xdp_flags = and_not_modes cfg.xdp_flags + hw_mode })
  parse_option force cfg = some (record cfg { xdp_flags = and_not_if_noexist cfg.xdp_flags })
  parse_option reuse cfg = some (record cfg { reuse_maps = true })
  parse_option unload cfg = some (record cfg { do_unload = true })
  parse_option poll_mode cfg = some (record cfg { xsk_poll_mode = true })
  parse_option quiet cfg = some (record cfg { verbose = false })
  parse_option (queue arg) cfg = some (record cfg { xsk_if_queue = atoi arg })
  parse_option (opt_filename arg) cfg = some (record cfg { filename = strncpy 512 arg })
  parse_option (opt_progsec arg) cfg = some (record cfg { progsec = strncpy 32 arg })
  parse_option (opt_src_mac arg) cfg = some (record cfg { src_mac = strncpy 18 arg })
  parse_option (opt_dest_mac arg) cfg = some (record cfg { dest_mac = strncpy 18 arg })
  parse_option opt_copy cfg =
      some (record cfg { xsk_bind_flags = and_zerocopy cfg.xsk_bind_flags + xdp_copy })
  parse_option zero_copy cfg =
      some (record cfg { xsk_bind_flags = and_copy cfg.xsk_bind_flags + xdp_zerocopy })
  parse_option help cfg = none
  parse_option unknown cfg = none

  -- `while ((opt = getopt_long(...)) != -1)`: `none` is `exit(EXIT_FAIL_OPTION)`.
  unfoldable pub parse_options : List Opt → Config → Option Config
  parse_options [] cfg = some cfg
  parse_options (o ∷ os) cfg = elim (parse_option o cfg) [
    | none ↦ none
    | some cfg' ↦ parse_options os cfg'
  ]
