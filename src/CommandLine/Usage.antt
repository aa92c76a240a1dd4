-- ===== src/CommandLine/Usage.antt =====
-- `usage` and `_print_options` of eBPF_app/common/common_params.c, and the table of options of
-- eBPF_app/eBPF_measure/ebpf_measure_user.c.
use thesis_b_cs_tu_berlin.Prelude.{
  ℕ, ◌-◌, length, take, replicate, ltb, leb, if◌then◌else◌, codes, Bool, true, false, not, Option,
  none, some, List, [], ◌∷◌, ◌++◌,
}
use Prim.Native.String.{String}
use thesis_b_cs_tu_berlin.Memory.{◌>>=◌}
use thesis_b_cs_tu_berlin.CommandLine.{Text}
use thesis_b_cs_tu_berlin.CommandLine.Table.{LongOption}
pub mod Bounds

-- `struct option_wrapper`
pub record OptionWrapper : Type 0 where
  pub option : LongOption
  pub help : Text
  pub metavar : Option Text
  pub required : Bool

-- `BUFSIZE`
abbrev pub bufsize : ℕ
bufsize = 30

-- The string that the two calls of `snprintf` leave in `buf`. The second one starts at `pos`, with
-- `BUFSIZE-pos` bytes left: past 30 that is a huge number, and the write is outside `buf` (`none`).
unfoldable pub option_buf : Text → Option Text → Option Text
option_buf name none = some (take (bufsize - 1) (codes " --" ++ name))
option_buf name (some metavar) =
    let pos = length (codes " --" ++ name) in
    if leb pos bufsize
    then some (
        take (bufsize - 1) (codes " --" ++ name) ++ take (bufsize - 1 - pos) (codes " " ++ metavar))
    else none

-- `printf("%-22s", buf)`
abbrev pub pad_22 : Text → Text
pad_22 buf = buf ++ replicate (22 - length buf) 32

unfoldable pub option_line : OptionWrapper → Text → Option Text
unfolding option_buf
option_line w name = do
  buf ← option_buf name w.metavar
  some (
      (if ltb 64 w.option.value then codes " -" ++ (w.option.value ∷ codes ",") else codes "    ")
      ++ (pad_22 buf ++ (codes "  " ++ (w.help ++ codes "\n"))))

abbrev pub same_flag : Bool → Bool → Bool
same_flag true b = b
same_flag false b = not b

-- The line of an entry that is printed, or nothing.
abbrev pub entry_text : Bool → OptionWrapper → Text → Option Text
entry_text required w name = if same_flag w.required required then option_line w name else some []

-- `_print_options`: the text, or `none` for an access outside the table or `buf`.
unfoldable pub print_options : List OptionWrapper → Bool → Option Text
print_options [] required = none
print_options (w ∷ table) required =
    let rest = print_options table required in
    elim w.option.name [
      | none ↦ some []
      | some name ↦ entry_text required w name >>= λ line. rest >>= λ more. some (line ++ more)
    ]

unfoldable pub usage : Text → Text → List OptionWrapper → Bool → Option Text
usage prog_name doc table false = some (
    codes "Usage: "
    ++ (prog_name
        ++ (codes " [options]\n" ++ codes "Use --help (or -h) to see full option list.\n")))
usage prog_name doc table true = do
  required ← print_options table true
  others ← print_options table false
  some (
      codes "Usage: "
      ++ (prog_name
          ++ (codes " [options]\n"
              ++ (codes "\nDOCUMENTATION:\n "
                  ++ (doc
                      ++ (codes "\n"
                          ++ (codes "Required options:\n"
                              ++ (required
                                  ++ (codes "\n"
                                      ++ (codes "Other options:\n"
                                          ++ (others ++ codes "\n")))))))))))

abbrev pub entry_of : String → ℕ → String → Option Text → Bool → OptionWrapper
entry_of name value help metavar required = record {
  option = record { name = some (codes name); value = value };
  help = codes help;
  metavar = metavar;
  required = required;
}

-- `long_options`; 'h' is 104, and so on.
abbrev pub long_options : List OptionWrapper
long_options =
    entry_of "help" 104 "Show help" none false
    ∷ entry_of "dev" 100 "Operate on device <ifname>" (some (codes "<ifname>")) true
    ∷ entry_of "skb-mode" 83 "Install XDP program in SKB (AKA generic) mode" none false
    ∷ entry_of "native-mode" 78 "Install XDP program in native mode" none false
    ∷ entry_of "auto-mode" 65 "Auto-detect SKB or native mode" none false
    ∷ entry_of "force" 70 "Force install, replacing existing program on interface" none false
    ∷ entry_of "copy" 99 "Force copy mode" none false
    ∷ entry_of "zero-copy" 122 "Force zero-copy mode" none false
    ∷ entry_of "queue" 81 "Configure interface receive queue for AF_XDP, default=0" none false
    ∷ entry_of "poll-mode" 112 "Use the poll() API waiting for packets to arrive" none false
    ∷ entry_of "unload" 85 "Unload XDP program instead of loading" none false
    ∷ entry_of "quiet" 113 "Quiet mode (no output)" none false
    ∷ entry_of "filename" 1 "Load program from <file>" (some (codes "<file>")) false
    ∷ entry_of "progsec" 2 "Load program in <section> of the ELF file" (some (codes "<section>"))
        false
    ∷ record {
      option = record { name = none; value = 0 };
      help = [];
      metavar = none;
      required = false;
    }
    ∷ []
