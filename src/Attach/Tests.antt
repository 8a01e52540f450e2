-- ===== src/Attach/Tests.antt =====
-- Runs of common_user_bpf_xdp.c with a small kernel of one device, and the theorems there.
use fide.Base.{
  ℕ, ◌≡◌, ◌⊎◌, refl, [], ◌∷◌, true, false, Option, none, some, arith, is_neg32, if◌then◌else◌, ◌==◌,
}
use fide.Params.{Config}
use fide.Attach.{
  LinkCalls, eexist, negated, retry, swap_mode, xdp_link_attach, xdp_link_detach, BpfMapInfo,
}
use fide.Attach.Link.{LinkLaws, xdp_link_detach-removes}
use fide.Attach.Load.{
  ObjectCalls, reuse_each, load_object, load_bpf_and_xdp_attach, Started,
  load_bpf_and_xdp_attach-Started,
}

-- The world is the program on the device; a program is not replaced, only removed.
unfoldable pub set_one : Option ℕ → ℕ → Option ℕ → ℕ → ℕ × Option ℕ
set_one w i none flags = (0, none)
set_one none i (some fd) flags = (0, some fd)
set_one (some old) i (some fd) flags = (negated eexist, some old)

abbrev stored_id : Option ℕ → ℕ
stored_id none = 0
stored_id (some fd) = fd

abbrev pub one_link : LinkCalls (Option ℕ)
one_link = record { set_fd = set_one; get_id = λ w i flags. (0, stored_id w) }

abbrev pub on_device : Option ℕ → ℕ → Option ℕ
on_device w i = w

set_one_range :
    (w : Option ℕ) (i : ℕ) (fd : Option ℕ) (flags : ℕ)
    → ((set_one w i fd flags).0 ≡ 0) ⊎ (is_neg32 (set_one w i fd flags).0 ≡ true)
unfolding set_one
set_one_range w i fd flags = ground arith

set_one_ok :
    (w : Option ℕ) (i : ℕ) (fd : Option ℕ) (flags : ℕ)
    → (set_one w i fd flags).0 ≡ 0
    → (set_one w i fd flags).1 ≡ fd
unfolding set_one
set_one_ok w i fd flags h = ground arith

set_one_failed :
    (w : Option ℕ) (i : ℕ) (fd : Option ℕ) (flags : ℕ)
    → is_neg32 (set_one w i fd flags).0 ≡ true
    → (set_one w i fd flags).1 ≡ w
unfolding set_one
set_one_failed w i fd flags h = ground arith

pub one_link-LinkLaws : LinkLaws one_link on_device
one_link-LinkLaws = record {
  set_range = set_one_range;
  set_ok = set_one_ok;
  set_failed = set_one_failed;
}

-- The second try removes the old program and loads the new one.
replace_run : xdp_link_attach one_link 3 0 7 (some 5) ≡ (0, some 7)
unfolding xdp_link_attach retry swap_mode set_one
replace_run = refl

-- Without force the old program stays.
keep_run : xdp_link_attach one_link 3 1 7 (some 5) ≡ (30, some 5)
unfolding xdp_link_attach retry swap_mode set_one
keep_run = refl

xdp_link_detach-removes_example :
    ((xdp_link_detach one_link 3 0 5 (some 5)).1 ≡ some 5)
    ⊎ (((xdp_link_detach one_link 3 0 5 (some 5)).0 ≡ 0)
        × ((xdp_link_detach one_link 3 0 5 (some 5)).1 ≡ none)
        × ((stored_id (some 5) ≡ 0) ⊎ (stored_id (some 5) ≡ 5)))
xdp_link_detach-removes_example =
    xdp_link_detach-removes one_link on_device one_link-LinkLaws 3 0 5 (some 5)

abbrev found : BpfMapInfo
found = record { kind = 6; key_size = 4; value_size = 16; max_entries = 5 }

abbrev wanted : BpfMapInfo
wanted = record { kind = 0; key_size = 4; value_size = 16; max_entries = 5 }

-- One object with the programs 7 and 8; the pinned map whose number is 2 cannot be reused.
abbrev pub objects : ObjectCalls (Option ℕ) ℕ ℕ ℕ
objects = record {
  prog_load_xattr = λ w file i. (some 1, w);
  open_xattr = λ w file. (some 1, w);
  programs = λ o. 7 ∷ 8 ∷ [];
  maps = λ o. 1 ∷ 2 ∷ [];
  set_type = λ w p. w;
  set_program_ifindex = λ w p i. w;
  is_offload_neutral = λ w m. false;
  set_map_ifindex = λ w m i. w;
  map_name = λ m. 97 ∷ [];
  obj_get = λ w path. (4, w);
  reuse_fd = λ w m fd. (if m == 2 then 1 else 0, w);
  object_load = λ w o. (0, w);
  find_program_by_title = λ o name. some 8;
  title = λ p. 120 ∷ [];
  program_fd = λ w p. p;
}

reuse_run : reuse_each objects [] (1 ∷ 2 ∷ 3 ∷ []) none ≡ (1, none)
unfolding reuse_each
reuse_run = refl

abbrev config : Config
config = record {
  xdp_flags = 0;
  ifindex = 3;
  ifname = false;
  ifname_buf = [];
  redirect_ifindex = 0;
  redirect_ifname = false;
  redirect_ifname_buf = [];
  do_unload = false;
  reuse_maps = false;
  pin_dir = [];
  filename = [];
  progsec = [];
  src_mac = [];
  dest_mac = [];
  xsk_bind_flags = 0;
  xsk_if_queue = 0;
  xsk_poll_mode = false;
  verbose = false;
}

load_bpf_and_xdp_attach-Started_example :
    Started objects one_link on_device one_link-LinkLaws config
      (load_object objects one_link config none).1
      (load_bpf_and_xdp_attach objects one_link config none)
load_bpf_and_xdp_attach-Started_example =
    load_bpf_and_xdp_attach-Started objects one_link on_device one_link-LinkLaws config none
