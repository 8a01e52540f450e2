-- ===== src/Multiprog/Tests.antt =====
-- Runs of fully_in-kernel/common/common_user_bpf_xdp.c with a device of one program, and the
-- theorems there.
use fide.Base.{
  ℕ, ◌-◌, ◌^◌, ◌≡◌, ◌≢◌, ◌⊎◌, inl, refl, arith, [], ◌∷◌, Option, none, some, true, false, Bool,
  ◌==◌, if◌then◌else◌,
}
use fide.Attach.{negated}
use fide.Options.{unspec, Config}
use fide.Multiprog.{
  Found, nothing, multiprog, XdpCalls, exit_failure, exits, first_with, choose, detach_chosen,
  detach_found, do_unload, attach_created, load_bpf_and_xdp_attach,
}
use fide.Multiprog.Attaching.{AttachLaws, Outcome, load_bpf_and_xdp_attach-Outcome}
use fide.Multiprog.Detaching.{DetachLaws, Absent, do_unload-Unloaded}

-- The world is the number of the program on the device.
unfoldable attach_one : Option ℕ → ℕ → ℕ × Option ℕ
attach_one none p = (0, some p)
attach_one (some old) p = (negated 17, some old)

unfoldable detach_one : Option ℕ → Option ℕ → ℕ × Option ℕ
detach_one w none = (negated 22, w)
detach_one none (some p) = (negated 2, none)
detach_one (some old) (some p) = if old == p then (0, none) else (negated 2, some old)

abbrev number_of : Option ℕ → ℕ
number_of none = 2 ^ 32 - 22
number_of (some p) = p

unfoldable list_of : Option ℕ → Found ℕ
list_of none = nothing
list_of (some p) = multiprog p

abbrev one_device : XdpCalls (Option ℕ) ℕ ℕ
one_device = record {
  create = λ w file name. (some 9, w);
  attach = λ w p i mode. attach_one w p;
  fd = λ w p. p;
  id = number_of;
  detach = λ w p i mode. detach_one w p;
  get_from_ifindex = λ w i. (list_of w, w);
  detach_all = λ w mp. (0, none);
  close = λ w found. w;
  programs = λ mp. mp ∷ [];
  is_legacy = λ mp. false;
  main_prog = λ mp. none;
  hw_prog = λ mp. none;
  mode_of = λ mp. unspec;
}

abbrev on_device : Option ℕ → ℕ → ℕ → Bool
on_device none i n = false
on_device (some p) i n = p == n

attach_one_ok :
    (w : Option ℕ) (p i : ℕ) → (attach_one w p).0 ≡ 0 → on_device (attach_one w p).1 i p ≡ true
unfolding attach_one
attach_one_ok none p i h = ground arith
attach_one_ok (some old) p i h = absurd (omega arith)

attach_one_failed :
    (w : Option ℕ) (p i n : ℕ)
    → (attach_one w p).0 ≢ 0
    → on_device (attach_one w p).1 i n ≡ on_device w i n
unfolding attach_one
attach_one_failed none p i n h = absurd (h refl)
attach_one_failed (some old) p i n h = refl

one_device-AttachLaws : AttachLaws one_device on_device
one_device-AttachLaws = record {
  create_keeps = λ w file name i n. refl;
  attach_ok = λ w p i mode h. attach_one_ok w p i h;
  attach_failed = λ w p i mode n h. attach_one_failed w p i n h;
}

detach_one_null : (w : Option ℕ) → (detach_one w none).0 ≢ 0
unfolding detach_one
detach_one_null w = omega arith

detach_one_ok :
    (w : Option ℕ) (p i n : ℕ)
    → (detach_one w (some p)).0 ≡ 0
    → on_device (detach_one w (some p)).1 i n ≡ (if n == p then false else on_device w i n)
unfolding detach_one
detach_one_ok none p i n h = absurd (omega arith)
detach_one_ok (some old) p i n h = ground arith

detach_one_failed :
    (w p : Option ℕ) (i n : ℕ)
    → (detach_one w p).0 ≢ 0
    → on_device (detach_one w p).1 i n ≡ on_device w i n
unfolding detach_one
detach_one_failed w none i n h = refl
detach_one_failed none (some p) i n h = refl
detach_one_failed (some old) (some p) i n h = ground arith

one_device-DetachLaws : DetachLaws one_device on_device
one_device-DetachLaws = record {
  get_keeps = λ w i n. refl;
  close_keeps = λ w found i n. refl;
  detach_null = λ w i mode. detach_one_null w;
  detach_ok = λ w p i mode n h. detach_one_ok w p i n h;
  detach_failed = λ w p i mode n h. detach_one_failed w p i n h;
  all_ok = λ w i mp n found h. refl;
  all_failed = λ w i mp n found h. absurd (h refl);
}

abbrev asks_5 : Config
asks_5 = record {
  attach_mode = unspec;
  xdp_flags = 0;
  ifindex = 3;
  ifname = false;
  ifname_buf = [];
  redirect_ifindex = 0;
  redirect_ifname = false;
  redirect_ifname_buf = [];
  do_unload = true;
  prog_id = 5;
  reuse_maps = false;
  pin_dir = [];
  filename = [];
  progname = [];
  src_mac = [];
  dest_mac = [];
  xsk_bind_flags = 0;
  xsk_if_queue = 0;
  xsk_poll_mode = false;
  unload_all = false;
  verbose = true;
}

unload_run : do_unload one_device asks_5 (some 5) ≡ (0, none)
unfolding do_unload detach_found detach_chosen choose first_with list_of detach_one
unload_run = refl

busy_run : load_bpf_and_xdp_attach one_device asks_5 (some 5) ≡ (exits (negated 17), some 5)
unfolding load_bpf_and_xdp_attach attach_created attach_one
busy_run = refl

do_unload-Unloaded_example :
    (((do_unload one_device asks_5 (some 5)).0 ≡ exit_failure)
      × ((n : ℕ) → on_device (do_unload one_device asks_5 (some 5)).1 3 n ≡ (5 == n)))
    ⊎ (((do_unload one_device asks_5 (some 5)).0 ≡ 0)
        × ((n : ℕ)
            → on_device (do_unload one_device asks_5 (some 5)).1 3 n
              ≡ (if n == 5 then false else 5 == n)))
do_unload-Unloaded_example =
    do_unload-Unloaded one_device on_device one_device-DetachLaws asks_5 (some 5)

six-Absent : Absent one_device 5 6
unfolding first_with
six-Absent = record { none_listed = refl; no_main = inl refl; no_hw = omega arith }

load_bpf_and_xdp_attach-Outcome_example :
    Outcome one_device on_device one_device-AttachLaws 3
      (some 5)
      (load_bpf_and_xdp_attach one_device asks_5 (some 5))
load_bpf_and_xdp_attach-Outcome_example =
    load_bpf_and_xdp_attach-Outcome one_device on_device one_device-AttachLaws asks_5 (some 5)
