-- ===== src/Tests/Attaching.antt =====
-- The attaching of programs and the command line at concrete inputs.
use thesis_b_cs_tu_berlin.Prelude.{
  ℕ, codes, ◌%◌, ◌==◌, if◌then◌else◌, ◌≡◌, refl, sym, ap, ◌∙◌, Bool, true, false, ◌&&◌, not, none,
  some, [], ◌∷◌, arith,
}
use thesis_b_cs_tu_berlin.Prelude.Int.{ℤ, pos, negsuc}
use thesis_b_cs_tu_berlin.XdpLink.{LinkApi, xdp_link_attach}
use thesis_b_cs_tu_berlin.XdpLink.Load.{
  ObjectApi, LoadConfig, load_bpf_and_xdp_attach, LoadedRight, load_bpf_and_xdp_attach_lem,
}
use thesis_b_cs_tu_berlin.XdpLink.MapInfo.{MapInfo}
use thesis_b_cs_tu_berlin.CommandLine.{
  Config, force, opt_skb, zero_copy, parse_option, parse_options,
}
use thesis_b_cs_tu_berlin.CommandLine.Flags.{Left, parse_options-flags}
use thesis_b_cs_tu_berlin.CommandLine.Table.{LongOption}

-- A kernel that holds one program for each interface and mode, and answers -EEXIST to a call with
-- XDP_FLAGS_UPDATE_IF_NOEXIST where there is one.
abbrev pub Programs : Type 0
Programs = ℕ → ℕ → ℕ

abbrev pub put : Programs → ℕ → ℕ → ℕ → Programs
put l i f v i' f' = if i' == i && f' == f then v else l i' f'

abbrev pub answer : Bool → Programs → Programs → ℤ × Programs
answer true l l' = (negsuc 16, l)
answer false l l' = (pos 0, l')

abbrev pub set_program : Programs → ℕ → ℤ → ℕ → ℤ × Programs
set_program l i (negsuc n) f = (pos 0, put l i f 0)
set_program l i (pos fd) f = answer (f % 2 == 1 && not (l i f == 0)) l (put l i f fd)

pub put_there : (l : Programs) (i f v : ℕ) → put l i f v i f ≡ v
put_there l i f v = ground arith

abs : ℤ → ℕ
abs (pos n) = n
abs (negsuc n) = n

answer_pos :
    (b : Bool) (l l' : Programs) (n : ℕ)
    → (answer b l l').0 ≡ pos n
    → (n ≡ 0) × ((answer b l l').1 ≡ l')
unfolding abs
answer_pos true l l' n e = cc
answer_pos false l l' n e = (sym (ap abs e), refl)

answer_neg :
    (b : Bool) (l l' : Programs) (n : ℕ) → (answer b l l').0 ≡ negsuc n → (answer b l l').1 ≡ l
answer_neg true l l' n e = refl
answer_neg false l l' n e = cc

pub set_answers :
    (l : Programs) (i : ℕ) (fd : ℤ) (f n : ℕ) → (set_program l i fd f).0 ≡ pos n → n ≡ 0
unfolding abs
set_answers l i (negsuc m) f n e = sym (ap abs e)
set_answers l i (pos fd) f n e = (answer_pos _ l (put l i f fd) n e).0

pub set_fails :
    (l : Programs) (i : ℕ) (fd : ℤ) (f n : ℕ)
    → (set_program l i fd f).0 ≡ negsuc n
    → (set_program l i fd f).1 ≡ l
set_fails l i (negsuc m) f n e = cc
set_fails l i (pos fd) f n e = answer_neg _ l (put l i f fd) n e

pub set_attaches :
    (l : Programs) (i fd f n : ℕ)
    → (set_program l i (pos fd) f).0 ≡ pos n
    → (set_program l i (pos fd) f).1 i f ≡ fd
set_attaches l i fd f n e =
    ap (λ (x : Programs). x i f) (answer_pos _ l (put l i f fd) n e).1 ∙ put_there l i f fd

abbrev pub kernel : LinkApi
kernel = record {
  Link = Programs;
  attached = λ l i f. l i f;
  id_of = λ fd. fd;
  set_link_xdp_fd = set_program;
  get_link_xdp_id = λ l i f. (pos 0, l i f);
  set_answers = set_answers;
  set_fails = set_fails;
  set_attaches = set_attaches;
  set_detaches = λ l i f n e. put_there l i f 0;
  get_answers = λ l i f e. refl;
}

-- Interface 3 has program 8 in mode 5.
abbrev pub one_program : Programs
one_program i f = if i == 3 && f == 5 then 8 else 0

-- A driver that has one program in one mode: another mode's program is refused with -EEXIST.
abbrev other : ℕ → ℕ
other f = if f == 2 then 4 else 2

abbrev set_one : Programs → ℕ → ℤ → ℕ → ℤ × Programs
set_one l i (negsuc n) f = (pos 0, put l i f 0)
set_one l i (pos fd) f = answer (not (l i (other f) == 0)) l (put l i f fd)

one_answers : (l : Programs) (i : ℕ) (fd : ℤ) (f n : ℕ) → (set_one l i fd f).0 ≡ pos n → n ≡ 0
unfolding abs
one_answers l i (negsuc m) f n e = sym (ap abs e)
one_answers l i (pos fd) f n e = (answer_pos _ l (put l i f fd) n e).0

one_fails :
    (l : Programs) (i : ℕ) (fd : ℤ) (f n : ℕ)
    → (set_one l i fd f).0 ≡ negsuc n
    → (set_one l i fd f).1 ≡ l
one_fails l i (negsuc m) f n e = cc
one_fails l i (pos fd) f n e = answer_neg _ l (put l i f fd) n e

one_attaches :
    (l : Programs) (i fd f n : ℕ)
    → (set_one l i (pos fd) f).0 ≡ pos n
    → (set_one l i (pos fd) f).1 i f ≡ fd
one_attaches l i fd f n e =
    ap (λ (x : Programs). x i f) (answer_pos _ l (put l i f fd) n e).1 ∙ put_there l i f fd

abbrev driver : LinkApi
driver = record {
  Link = Programs;
  attached = λ l i f. l i f;
  id_of = λ fd. fd;
  set_link_xdp_fd = set_one;
  get_link_xdp_id = λ l i f. (pos 0, l i f);
  set_answers = one_answers;
  set_fails = one_fails;
  set_attaches = one_attaches;
  set_detaches = λ l i f n e. put_there l i f 0;
  get_answers = λ l i f e. refl;
}

-- Interface 3 has program 8 in the driver's mode.
abbrev taken : Programs
taken i f = if i == 3 && f == 4 then 8 else 0

-- The second try attaches program 9 in the other mode, and program 8 is gone.
retried :
    ((xdp_link_attach driver taken 3 2 9).0 ≡ 0)
    × ((xdp_link_attach driver taken 3 2 9).1 3 2 ≡ 9)
    × ((xdp_link_attach driver taken 3 2 9).1 3 4 ≡ 0)
unfolding xdp_link_attach
retried = (refl, refl, refl)

abbrev times_info : MapInfo
times_info = record { key_size = 4; value_size = 8; max_entries = 32769; map_type = 2 }

abbrev any_size : MapInfo
any_size = record times_info { max_entries = 0 }

abbrev config : Config
config = record {
  xdp_flags = 1;
  ifindex = 0;
  ifname_buf = [];
  redirect_ifindex = 0;
  redirect_ifname_buf = [];
  do_unload = false;
  reuse_maps = false;
  filename = [];
  progsec = [];
  src_mac = [];
  dest_mac = [];
  xsk_bind_flags = 0;
  xsk_if_queue = pos 0;
  xsk_poll_mode = false;
  verbose = true;
}

-- `--force --zero-copy --skb-mode`: both bind flags are set, and the flags are those of the SKB mode.
abbrev config_after : Config
config_after = record config { xdp_flags = 2; xsk_bind_flags = 6 }

parsed :
    parse_options (λ n. 3) (λ a. pos 0) (force ∷ zero_copy ∷ opt_skb ∷ []) config
    ≡ some config_after
unfolding parse_options parse_option
parsed = refl

parse_options-flags_example : Left (force ∷ zero_copy ∷ opt_skb ∷ []) config config_after
parse_options-flags_example =
    parse_options-flags (λ n. 3) (λ a. pos 0) (force ∷ zero_copy ∷ opt_skb ∷ []) config config_after
      parsed

abbrev long_option : LongOption
long_option = record { name = some (104 ∷ []); value = 104 }

abbrev end_option : LongOption
end_option = record { name = none; value = 0 }

-- A libbpf with one program in each object, of number 4, and no maps.
abbrev pub library : ObjectApi
library = record {
  Obj = ℕ;
  Prog = ℕ;
  BpfMap = ℕ;
  programs = λ obj. 4 ∷ [];
  maps = λ obj. [];
  open_xattr = λ file. some 1;
  prog_load_xattr = λ file i. some 1;
  set_program = λ obj p i. obj;
  is_offload_neutral = λ m. true;
  set_map_ifindex = λ obj m i. obj;
  map_name = λ m. [];
  obj_get = λ file. negsuc 1;
  reuse_fd = λ obj m fd. (pos 0, obj);
  load = λ obj. (pos 0, obj);
  find_program_by_title = λ obj title. none;
  title = λ p. codes "xdp_sock";
  program_fd = λ obj p. pos p;
}

abbrev load_config : LoadConfig
load_config = record {
  xdp_flags = 5;
  ifindex = 2;
  reuse_pinned = false;
  pin_dir = [];
  filename = 97 ∷ [];
  progsec = [];
}

-- Program 7 is the one of every title.
abbrev two_programs : ObjectApi
two_programs = record library {
  programs = λ obj. 4 ∷ 7 ∷ [];
  find_program_by_title = λ obj title. some 7;
}

abbrev by_title : LoadConfig
by_title = record load_config { progsec = codes "xdp_sock" }

load_bpf_and_xdp_attach_lem_example :
    LoadedRight kernel two_programs by_title one_program
      (load_bpf_and_xdp_attach kernel two_programs by_title one_program)
load_bpf_and_xdp_attach_lem_example =
    load_bpf_and_xdp_attach_lem kernel two_programs by_title one_program
