-- ===== src/XdpLink.antt =====
-- eBPF_app/common/common_user_bpf_xdp.c: a program is put on an interface, or taken off it.
use thesis_b_cs_tu_berlin.Prelude.{
  ℕ, ◌+◌, ◌*◌, ◌/◌, ◌%◌, ◌==◌, if◌then◌else◌, ◌≡◌, Bool, false, ◌&&◌, not, [],
}
use thesis_b_cs_tu_berlin.Prelude.Int.{ℤ, pos, negsuc}
pub mod Attach
pub mod MapInfo
pub mod Load
pub mod MapFile

-- What the code uses of libbpf and the kernel. `set_link_xdp_fd` is `bpf_set_link_xdp_fd` and
-- `get_link_xdp_id` is `bpf_get_link_xdp_id`, which answer 0 or a negative errno. `attached l i f` is
-- the id of the program on interface `i` in the mode that the flags `f` name, or 0, and `id_of` the id
-- of a program's file descriptor.
pub record LinkApi : Type 1 where
  pub Link : Type 0
  pub attached : Link → ℕ → ℕ → ℕ
  pub id_of : ℕ → ℕ
  pub set_link_xdp_fd : Link → ℕ → ℤ → ℕ → ℤ × Link
  pub get_link_xdp_id : Link → ℕ → ℕ → ℤ × ℕ
  pub set_answers :
      (l : Link) (i : ℕ) (fd : ℤ) (f n : ℕ) → (set_link_xdp_fd l i fd f).0 ≡ pos n → n ≡ 0
  pub set_fails :
      (l : Link) (i : ℕ) (fd : ℤ) (f n : ℕ)
      → (set_link_xdp_fd l i fd f).0 ≡ negsuc n
      → (set_link_xdp_fd l i fd f).1 ≡ l
  pub set_attaches :
      (l : Link) (i fd f n : ℕ)
      → (set_link_xdp_fd l i (pos fd) f).0 ≡ pos n
      → attached (set_link_xdp_fd l i (pos fd) f).1 i f ≡ id_of fd
  pub set_detaches :
      (l : Link) (i f n : ℕ)
      → (set_link_xdp_fd l i (negsuc 0) f).0 ≡ pos n
      → attached (set_link_xdp_fd l i (negsuc 0) f).1 i f ≡ 0
  pub get_answers :
      (l : Link) (i f : ℕ)
      → (get_link_xdp_id l i f).0 ≡ pos 0
      → (get_link_xdp_id l i f).1 ≡ attached l i f

abbrev pub exit_ok : ℕ
exit_ok = 0

abbrev pub exit_fail : ℕ
exit_fail = 1

abbrev pub exit_fail_xdp : ℕ
exit_fail_xdp = 30

-- `xdp_flags & XDP_FLAGS_UPDATE_IF_NOEXIST` and `xdp_flags & XDP_FLAGS_SKB_MODE`: bits 0 and 1.
abbrev pub has_if_noexist : ℕ → Bool
has_if_noexist flags = flags % 2 == 1

abbrev pub has_skb_mode : ℕ → Bool
has_skb_mode flags = flags / 2 % 2 == 1

-- `xdp_flags & ~XDP_FLAGS_MODES`: the mode bits are 1, 2 and 3.
abbrev pub clear_modes : ℕ → ℕ
clear_modes flags = flags / 16 * 16 + flags % 2

-- The flags with the mode of the opposite type, DRV for SKB and SKB for the others.
abbrev pub opposite_mode : ℕ → ℕ
opposite_mode flags = clear_modes flags + (if has_skb_mode flags then 4 else 2)

-- `-EEXIST`
abbrev pub is_eexist : ℤ → Bool
is_eexist (pos n) = false
is_eexist (negsuc n) = n == 16

abbrev pub is_zero : ℤ → Bool
is_zero (pos n) = n == 0
is_zero (negsuc n) = false

-- `if (err < 0) return EXIT_FAIL_XDP; return EXIT_OK;`
abbrev pub exit_code : ℤ → ℕ
exit_code (pos n) = exit_ok
exit_code (negsuc n) = exit_fail_xdp

module _ (k : LinkApi) where
  -- The second try, after the program of the opposite type is unloaded.
  unfoldable pub attach_again : k.Link → ℕ → ℕ → ℕ → ℤ × k.Link
  attach_again l ifindex old_flags prog_fd =
      let r = k.set_link_xdp_fd l ifindex (negsuc 0) (opposite_mode old_flags) in
      if is_zero r.0 then k.set_link_xdp_fd r.1 ifindex (pos prog_fd) old_flags else r

  unfoldable pub xdp_link_attach : k.Link → ℕ → ℕ → ℕ → ℕ × k.Link
  unfolding attach_again
  xdp_link_attach l ifindex xdp_flags prog_fd =
      let r = k.set_link_xdp_fd l ifindex (pos prog_fd) xdp_flags in
      let r' =
        if is_eexist r.0 && not (has_if_noexist xdp_flags)
        then attach_again r.1 ifindex xdp_flags prog_fd
        else r in
      (exit_code r'.0, r'.1)

  -- Past the question for the current program.
  unfoldable pub remove_program : k.Link → ℕ → ℕ → ℕ → ℕ → ℕ × k.Link
  remove_program l ifindex xdp_flags expected_prog_id curr_prog_id =
      if curr_prog_id == 0
      then (exit_ok, l)
      else (if not (expected_prog_id == 0) && not (curr_prog_id == expected_prog_id)
          then (exit_fail, l)
          else (let r = k.set_link_xdp_fd l ifindex (negsuc 0) xdp_flags in (exit_code r.0, r.1)))

  unfoldable pub xdp_link_detach : k.Link → ℕ → ℕ → ℕ → ℕ × k.Link
  unfolding remove_program
  xdp_link_detach l ifindex xdp_flags expected_prog_id =
      let r = k.get_link_xdp_id l ifindex xdp_flags in
      if is_zero r.0
      then remove_program l ifindex xdp_flags expected_prog_id r.1
      else (exit_fail_xdp, l)
