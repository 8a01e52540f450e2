-- ===== src/Pinned/Tests.antt =====
-- Runs of common_libbpf.c with an object of two maps, and its theorems there.
use fide.Base.{ℕ, ◌+◌, ◌≡◌, refl, [], ◌∷◌, some, ◌==◌, if◌then◌else◌}
use fide.Attach.Load.{ObjectCalls, first_of}
use fide.Pinned.{
  PinnedMap, LoadAttr, PinCalls, same_text, no_fd, reset_fds, set_each, reuse_one, reuse_pinned,
  reuse_maps, pin_one, pin_each, pin_maps, load_opened, bpf_prog_load_xattr_maps,
}
use fide.Pinned.Entries.{Settled, load_opened-Settled}

-- The world is the number of files under which a map is pinned. The maps 1 and 2 are named `a` and
-- `b`; the file `f` opens as 5, no other file opens; the object has the program 7.
abbrev two_maps : ObjectCalls ℕ ℕ ℕ ℕ
two_maps = record {
  prog_load_xattr = λ w file i. (some 1, w);
  open_xattr = λ w file. (some 1, w);
  programs = λ o. 7 ∷ [];
  maps = λ o. 1 ∷ 2 ∷ [];
  set_type = λ w p. w;
  set_program_ifindex = λ w p i. w;
  is_offload_neutral = λ w m. m == 2;
  set_map_ifindex = λ w m i. w;
  map_name = λ m. (if m == 1 then b'a' else b'b') ∷ [];
  obj_get = λ w path. (if same_text path (b'f' ∷ []) then 5 else no_fd, w);
  reuse_fd = λ w m fd. (0, w);
  object_load = λ w o. (0, w);
  find_program_by_title = λ o name. some 7;
  title = λ p. b'x' ∷ [];
  program_fd = λ w p. p;
}

abbrev counting : PinCalls ℕ ℕ ℕ ℕ
counting = record {
  set_prog_type = λ w p t. w;
  set_attach_type = λ w p t. w;
  close = λ w o. w;
  pin = λ w m path. (0, w + 1);
  fd_of = λ w m. m + 20;
}

abbrev there : PinnedMap
there = record { name = b'a' ∷ []; filename = b'f' ∷ []; map_fd = 0 }

abbrev not_there : PinnedMap
not_there = record { name = b'b' ∷ []; filename = b'g' ∷ []; map_fd = 0 }

abbrev stranger : PinnedMap
stranger = record { name = b'c' ∷ []; filename = b'f' ∷ []; map_fd = 0 }

abbrev attr : LoadAttr
attr = record {
  file = some (b'o' ∷ []);
  prog_type = 6;
  expected_attach_type = 0;
  ifindex = 3;
  pinned_maps = there ∷ not_there ∷ stranger ∷ [];
}

-- The map `a` is opened from its file, `b` is pinned, and there is no map `c`.
load_run :
    bpf_prog_load_xattr_maps two_maps counting (some attr) 0
    ≡ some (record {
      ret = 0;
      stored = some (1, 7);
      pinned =
          record there { map_fd = 5 }
          ∷ record not_there { map_fd = 22 }
          ∷ record stranger { map_fd = no_fd }
          ∷ [];
      world = 1;
    })
unfolding bpf_prog_load_xattr_maps load_opened set_each reuse_maps reuse_pinned reuse_one reset_fds
    pin_maps pin_each pin_one same_text first_of
load_run = refl

load_opened-Settled_example :
    Settled two_maps counting attr 1 (load_opened two_maps counting attr 1 0)
load_opened-Settled_example = load_opened-Settled two_maps counting attr 1 0
