-- ===== src/XdpLink/Attach.antt =====
-- What the interface carries afterwards.
use thesis_b_cs_tu_berlin.Prelude.{
  ℕ, zero, suc, ◌==◌, ==_iff, Bool-cases, ◌≡◌, refl, ap, sym, subst, ◌∙◌, ◌≢◌, ◌⊎◌, inl, inr, true,
  false, ◌&&◌, not, Bool, ◌+◌, ◌*◌, ◌/◌, ◌%◌, if◌then◌else◌, false, arith,
}
use thesis_b_cs_tu_berlin.Prelude.Int.{ℤ, pos, negsuc}
use thesis_b_cs_tu_berlin.XdpLink.{
  LinkApi, exit_ok, exit_fail, exit_fail_xdp, has_if_noexist, opposite_mode, is_eexist, is_zero,
  exit_code, attach_again, xdp_link_attach, remove_program, xdp_link_detach,
}

sign : (z : ℤ) → ((n : ℕ) × (z ≡ pos n)) ⊎ ((n : ℕ) × (z ≡ negsuc n))
sign (pos n) = inl (n, refl)
sign (negsuc n) = inr (n, refl)

module _ (k : LinkApi) where
  -- The mode bits 1, 2 and 3 of the flags are replaced: by bit 2 (DRV) if bit 1 (SKB) was set, and else by
  -- bit 1.
  abbrev pub other_mode : ℕ → ℕ
  other_mode flags = flags / 16 * 16 + flags % 2 + (if flags / 2 % 2 == 1 then 4 else 2)

  -- The first try has failed with -EEXIST, without XDP_FLAGS_UPDATE_IF_NOEXIST.
  abbrev pub IsRefused : k.Link → ℕ → ℕ → ℕ → Type 0
  IsRefused l i flags fd = ((k.set_link_xdp_fd l i (pos fd) flags).0 ≡ negsuc 16) × (flags % 2 ≢ 1)

  -- The interface without the program of the opposite mode, after a call that has taken that one off.
  abbrev pub unloaded : k.Link → ℕ → ℕ → k.Link
  unloaded l i flags = (k.set_link_xdp_fd l i (negsuc 0) (other_mode flags)).1

  abbrev pub IsUnloaded : k.Link → ℕ → ℕ → Type 0
  IsUnloaded l i flags =
      ((k.set_link_xdp_fd l i (negsuc 0) (other_mode flags)).0 ≡ pos 0)
      × (k.attached (unloaded l i flags) i (other_mode flags) ≡ 0)

  -- How the program `fd` has come onto the interface: by the first try, or by the second.
  abbrev pub ByFirst : k.Link → ℕ → ℕ → ℕ → k.Link → Type 0
  ByFirst l i flags fd l' =
      (n : ℕ) × ((k.set_link_xdp_fd l i (pos fd) flags).0 ≡ pos n)
      × (l' ≡ (k.set_link_xdp_fd l i (pos fd) flags).1)

  abbrev pub BySecond : k.Link → ℕ → ℕ → ℕ → k.Link → Type 0
  BySecond l i flags fd l' =
      IsRefused l i flags fd
      × IsUnloaded l i flags
      × (l' ≡ (k.set_link_xdp_fd (unloaded l i flags) i (pos fd) flags).1)

  -- What an attempt to attach the program `fd` leaves behind: its exit code, and the interface's state.
  abbrev pub Attached : k.Link → ℕ → ℕ → ℕ → ℕ × k.Link → Type 0
  Attached l i flags fd r =
      ((r.0 ≡ exit_ok)
        × (k.attached r.1 i flags ≡ k.id_of fd)
        × (ByFirst l i flags fd r.1 ⊎ BySecond l i flags fd r.1))
      ⊎ ((r.0 ≡ exit_fail_xdp)
          × ((r.1 ≡ l)
              ⊎ (IsRefused l i flags fd × IsUnloaded l i flags × (r.1 ≡ unloaded l i flags))))

  again_lem :
      (l : k.Link) (i flags fd : ℕ)
      → IsRefused l i flags fd
      → Attached l i flags fd
          (exit_code (attach_again k l i flags fd).0, (attach_again k l i flags fd).1)
  unfolding attach_again
  again_lem l i flags fd first =
      let opp = opposite_mode flags in
      let r = k.set_link_xdp_fd l i (negsuc 0) opp in
      elim (sign r.0) [
        | inr (n, e) ↦ rw e (inr (refl, inl (k.set_fails l i (negsuc 0) opp n e)))
        | inl (n, e) ↦
            let zero_it : is_zero r.0 ≡ true = rw (e, k.set_answers l i (negsuc 0) opp n e) in
            let off : IsUnloaded l i flags =
              (e ∙ ap pos (k.set_answers l i (negsuc 0) opp n e), k.set_detaches l i opp n e) in
            rw zero_it (elim (sign (k.set_link_xdp_fd r.1 i (pos fd) flags).0) [
              | inl (j, f) ↦ inl (rw f, k.set_attaches r.1 i fd flags j f, inr (first, off, refl))
              | inr (j, f) ↦ inr (rw f, inr (first, off, k.set_fails r.1 i (pos fd) flags j f))
            ])
      ]

  pub xdp_link_attach_lem :
      (l : k.Link) (i flags fd : ℕ) → Attached l i flags fd (xdp_link_attach k l i flags fd)
  unfolding xdp_link_attach
  xdp_link_attach_lem l i flags fd =
      let r = k.set_link_xdp_fd l i (pos fd) flags in
      elim (sign r.0) [
        | inl (n, e) ↦
            let no : (is_eexist r.0 && not (has_if_noexist flags)) ≡ false = rw e in
            rw no (inl (rw e, k.set_attaches l i fd flags n e, inl (n, e, refl)))
        | inr (n, e) ↦
            let same = k.set_fails l i (pos fd) flags n e in
            elim (Bool-cases (is_eexist r.0 && not (has_if_noexist flags))) [
              | inr other ↦ rw other (inr (rw e, inl same))
              | inl force ↦ rw force (
                  subst
                    (λ x.
                      Attached l i flags fd (
                        exit_code (attach_again k x i flags fd).0,
                        (attach_again k x i flags fd).1,
                      ))
                    (sym same) (again_lem l i flags fd (refused r.0 force)))
            ]
      ]
    where
      is_refused :
          (z : ℤ) (b : Bool) → (is_eexist z && not b) ≡ true → (z ≡ negsuc 16) × (b ≡ false)
      is_refused (pos m) b h = cc
      is_refused (negsuc m) true h = ground arith
      is_refused (negsuc m) false h = (ap negsuc (ground arith), refl)

      refused :
          (z : ℤ)
          → (is_eexist z && not (has_if_noexist flags)) ≡ true
          → (z ≡ negsuc 16) × (flags % 2 ≢ 1)
      refused z h =
          let (e, unset) = is_refused z (has_if_noexist flags) h in (e, ground (arith, unset))

  -- The question for the current program has failed, or the call that takes it off.
  abbrev pub CallFails : k.Link → ℕ → ℕ → Type 0
  CallFails l i flags =
      ((k.get_link_xdp_id l i flags).0 ≢ pos 0)
      ⊎ ((n : ℕ) × ((k.set_link_xdp_fd l i (negsuc 0) flags).0 ≡ negsuc n))

  abbrev pub Detached : k.Link → ℕ → ℕ → ℕ → ℕ × k.Link → Type 0
  Detached l i flags expected r =
      ((r.0 ≡ exit_ok) × (k.attached r.1 i flags ≡ 0))
      ⊎ ((r.0 ≡ exit_fail) × (r.1 ≡ l) × (expected ≢ 0) × (k.attached l i flags ≢ expected))
      ⊎ ((r.0 ≡ exit_fail_xdp) × (r.1 ≡ l) × CallFails l i flags)

  remove_program_lem :
      (l : k.Link) (i flags expected : ℕ)
      → Detached l i flags expected (remove_program k l i flags expected (k.attached l i flags))
  unfolding remove_program
  remove_program_lem l i flags expected =
      let curr = k.attached l i flags in
      elim (Bool-cases (curr == 0)) [
        | inl idle ↦ rw idle (inl (refl, (==_iff curr 0).0 idle))
        | inr busy ↦ elim (Bool-cases (not (expected == 0) && not (curr == expected))) [
          | inl other ↦ rw (busy, other) (inr (inl (refl, refl, ground arith, ground arith)))
          | inr ours ↦
              rw (busy, ours)
                (elim (sign (k.set_link_xdp_fd l i (negsuc 0) flags).0) [
                  | inl (n, e) ↦ inl (rw e, k.set_detaches l i flags n e)
                  | inr (n, e) ↦ inr (inr (rw e, k.set_fails l i (negsuc 0) flags n e, inr (n, e)))
                ])
        ]
      ]

  -- Taking a program off: EXIT_OK means that the mode has none afterwards. EXIT_FAIL means that another
  -- program than the expected one is there, and EXIT_FAIL_XDP that a call has failed; both leave the
  -- interface as it was. There is no other outcome.
  pub xdp_link_detach_lem :
      (l : k.Link) (i flags expected : ℕ)
      → Detached l i flags expected (xdp_link_detach k l i flags expected)
  unfolding xdp_link_detach
  xdp_link_detach_lem l i flags expected =
      let q = k.get_link_xdp_id l i flags in
      elim (Bool-cases (is_zero q.0)) [
        | inr failed ↦ rw failed (inr (inr (refl, refl, inl (not_zero q.0 failed))))
        | inl answered ↦
            rw (answered, k.get_answers l i flags (zero_answer q.0 answered))
              (remove_program_lem l i flags expected)
      ]
    where
      not_zero : (z : ℤ) → is_zero z ≡ false → z ≢ pos 0
      not_zero (pos zero) e = cc
      not_zero (pos (suc n)) e = cc
      not_zero (negsuc n) e = cc

      zero_answer : (z : ℤ) → is_zero z ≡ true → z ≡ pos 0
      zero_answer (pos n) e = ap pos ((==_iff n 0).0 e)
      zero_answer (negsuc n) e = cc
