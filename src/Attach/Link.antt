-- ===== src/Attach/Link.antt =====
-- What xdp_link_attach and xdp_link_detach of common_user_bpf_xdp.c do to the device.
use fide.Base.{
  ℕ, ◌≡◌, ◌⊎◌, inl, inr, Option, none, some, true, ◌&&◌, arith, is_neg32, bit_and, ◌==◌, Bool-cases,
}
use fide.Params.{update_if_noexist}
use fide.Attach.{
  LinkCalls, retry, xdp_link_attach, xdp_link_detach, negated, eexist, exit_fail_xdp, swap_mode,
}

-- What the code relies on: a call returns 0 or a negated error number; after 0 the device has the
-- program that was asked for, after an error the one that it had.
pub record LinkLaws {W : Type 0} (calls : LinkCalls W) (program_on : W → ℕ → Option ℕ)
    : Type 0 where
  pub set_range :
      (w : W) (i : ℕ) (fd : Option ℕ) (flags : ℕ)
      → ((calls.set_fd w i fd flags).0 ≡ 0) ⊎ (is_neg32 (calls.set_fd w i fd flags).0 ≡ true)
  pub set_ok :
      (w : W) (i : ℕ) (fd : Option ℕ) (flags : ℕ)
      → (calls.set_fd w i fd flags).0 ≡ 0
      → program_on (calls.set_fd w i fd flags).1 i ≡ fd
  pub set_failed :
      (w : W) (i : ℕ) (fd : Option ℕ) (flags : ℕ)
      → is_neg32 (calls.set_fd w i fd flags).0 ≡ true
      → program_on (calls.set_fd w i fd flags).1 i ≡ program_on w i

module _ {W : Type 0} (calls : LinkCalls W) (program_on : W → ℕ → Option ℕ)
    (laws : LinkLaws calls program_on) (i flags fd : ℕ) where
  -- What a call with the outcome `r` in the world `w` may leave on the device.
  abbrev pub Tried : W → ℕ × W → Type 0
  Tried w r =
      ((r.0 ≡ 0) × (program_on r.1 i ≡ some fd))
      ⊎ ((is_neg32 r.0 ≡ true) × ((program_on r.1 i ≡ program_on w i) ⊎ (program_on r.1 i ≡ none)))

  set_fd-Tried : (w : W) → Tried w (calls.set_fd w i (some fd) flags)
  set_fd-Tried w = elim (laws.set_range w i (some fd) flags) [
    | inl z ↦ inl (z, laws.set_ok w i (some fd) flags z)
    | inr n ↦ inr (n, inl (laws.set_failed w i (some fd) flags n))
  ]

  retry-Tried : (w : W) → Tried w (retry calls i flags fd w)
  unfolding retry
  retry-Tried w = elim (laws.set_range w i none (swap_mode flags)) [
    | inr n ↦ inr (ground arith, inl (ground (arith, laws.set_failed w i none (swap_mode flags) n)))
    | inl z ↦
        let w' = (calls.set_fd w i none (swap_mode flags)).1 in
        let gone = laws.set_ok w i none (swap_mode flags) z in
        elim (set_fd-Tried w') [
          | inl (ok, on) ↦ inl (ground arith, ground arith)
          | inr (n, inl same) ↦ inr (ground arith, inr (ground arith))
          | inr (n, inr off) ↦ inr (ground arith, inr (ground arith))
        ]
  ]

  -- What xdp_link_attach may leave on the device.
  abbrev pub Attached : W → ℕ × W → Type 0
  Attached w r =
      ((r.0 ≡ 0) × (program_on r.1 i ≡ some fd))
      ⊎ ((r.0 ≡ exit_fail_xdp) × ((program_on r.1 i ≡ program_on w i) ⊎ (program_on r.1 i ≡ none)))

  -- xdp_link_attach returns 0 with the new program on the device, or EXIT_FAIL_XDP with the
  -- program that was there or, after a second try, with none.
  pub xdp_link_attach-Attached : (w : W) → Attached w (xdp_link_attach calls i flags fd w)
  unfolding xdp_link_attach
  xdp_link_attach-Attached w = elim (set_fd-Tried w) [
    | inl (ok, on) ↦ inl (ground arith, ground arith)
    | inr (n, on) ↦
        let r1 = calls.set_fd w i (some fd) flags in
        elim (Bool-cases (r1.0 == negated eexist && bit_and flags update_if_noexist == 0)) [
          | inr c ↦ inr (
            ground arith,
            elim on [ inl same ↦ inl (ground arith) | inr off ↦ inr (ground arith) ],
          )
          | inl c ↦ elim (retry-Tried r1.1) [
            | inl (ok, on2) ↦ inl (ground arith, ground arith)
            | inr (m, inr off) ↦ inr (ground arith, inr (ground arith))
            | inr (m, inl same) ↦ inr (
              ground arith,
              elim on [ inl before ↦ inl (ground arith) | inr off ↦ inr (ground arith) ],
            )
          ]
        ]
  ]

-- xdp_link_detach leaves the device as it is, or it returns 0 and has removed the program, whose
-- number is the one that was expected, or no number was expected.
pub xdp_link_detach-removes :
    {W : Type 0} (calls : LinkCalls W) (program_on : W → ℕ → Option ℕ)
    → LinkLaws calls program_on
    → (i flags expected : ℕ) (w : W)
    → (program_on (xdp_link_detach calls i flags expected w).1 i ≡ program_on w i)
      ⊎ (((xdp_link_detach calls i flags expected w).0 ≡ 0)
          × (program_on (xdp_link_detach calls i flags expected w).1 i ≡ none)
          × ((expected ≡ 0) ⊎ ((calls.get_id w i flags).1 ≡ expected)))
unfolding xdp_link_detach
xdp_link_detach-removes calls program_on laws i flags expected w =
    elim (laws.set_range w i none flags) [
      | inl z ↦ ground (arith, laws.set_ok w i none flags z)
      | inr n ↦ ground (arith, laws.set_failed w i none flags n)
    ]
