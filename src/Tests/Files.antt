-- ===== src/Tests/Files.antt =====
-- Pinned map files and the usage text at concrete inputs.
use thesis_b_cs_tu_berlin.Prelude.{codes, is_none, ◌≡◌, refl, true, false, ◌&&◌, none, some}
use thesis_b_cs_tu_berlin.XdpLink.MapFile.{action2str}
use thesis_b_cs_tu_berlin.CommandLine.Usage.{usage, option_buf, long_options}
use thesis_b_cs_tu_berlin.CommandLine.Usage.Bounds.{some_too_long, usage_lem}

usage_lem_example :
    (is_none (usage (codes "measure") (codes "doc") long_options true)
      ≡ (true && some_too_long long_options))
    × (is_none (usage (codes "measure") (codes "doc") long_options true) ≡ false)
usage_lem_example = usage_lem (codes "measure") (codes "doc") long_options true tt

dev_entry : option_buf (codes "dev") (some (codes "<ifname>")) ≡ some (codes " --dev <ifname>")
unfolding option_buf
dev_entry = refl

names : (action2str 2 ≡ some (codes "XDP_PASS")) × (action2str 6 ≡ none)
unfolding action2str
names = (refl, refl)
