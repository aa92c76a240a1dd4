-- ===== src/XdpLink/MapInfo.antt =====
-- `check_map_fd_info`: a map's info against the expected one.
use thesis_b_cs_tu_berlin.Prelude.{ℕ, ◌==◌, if◌then◌else◌, ◌≡◌, ◌↔◌, ◌⊎◌, Bool, ◌&&◌, not, arith}
use thesis_b_cs_tu_berlin.XdpLink.{exit_fail}

-- The fields of `struct bpf_map_info` that are compared.
pub record MapInfo : Type 0 where
  pub key_size : ℕ
  pub value_size : ℕ
  pub max_entries : ℕ
  pub map_type : ℕ

-- `exp->f && exp->f != info->f`
abbrev pub differs : ℕ → ℕ → Bool
differs expected actual = not (expected == 0) && not (expected == actual)

unfoldable pub check_map_fd_info : MapInfo → MapInfo → ℕ
check_map_fd_info info exp =
    if differs exp.key_size info.key_size
    then exit_fail
    else (if differs exp.value_size info.value_size
        then exit_fail
        else (if differs exp.max_entries info.max_entries
            then exit_fail
            else (if differs exp.map_type info.map_type then exit_fail else 0)))

-- An expected number is met: there is none (0), or it is the actual one.
abbrev pub IsMet : ℕ → ℕ → Type 0
IsMet expected actual = (expected ≡ 0) ⊎ (expected ≡ actual)

-- The check returns 0 exactly for a map that meets every expected number, and else EXIT_FAIL.
pub check_map_fd_info_lem :
    (info exp : MapInfo)
    → ((check_map_fd_info info exp ≡ 0) ↔ (
        IsMet exp.key_size info.key_size
        × IsMet exp.value_size info.value_size
        × IsMet exp.max_entries info.max_entries
        × IsMet exp.map_type info.map_type))
      × ((check_map_fd_info info exp ≡ 0) ⊎ (check_map_fd_info info exp ≡ exit_fail))
unfolding check_map_fd_info
check_map_fd_info_lem info exp = (ground arith, ground arith)
