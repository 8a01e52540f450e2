-- ===== src/Attach.antt =====
-- user+ebpf/main/common/common_user_bpf_xdp.c: loading a program and attaching it to a device.
-- libbpf and the kernel behind it are a parameter: a type of worlds and the calls on it.
pub mod Link
pub mod Load
pub mod Maps
pub mod Tests
use fide.Base.{
  ℕ, ◌+◌, ◌^◌, bit_and, bit_or, List, [], ◌∷◌, ◌++◌, Bool, true, false, ◌&&◌, not, Option, none,
  some, ltb, leb, ◌==◌, if◌then◌else◌, length, sub32, is_neg32, get_elem?,
}
use fide.Packet.{Bytes}
use fide.Params.{Config, clear32, xdp_flags_modes, update_if_noexist, strncpy}

abbrev pub exit_fail : ℕ
exit_fail = 1

abbrev pub exit_fail_xdp : ℕ
exit_fail_xdp = 30

abbrev pub exit_fail_bpf : ℕ
exit_fail_bpf = 40

-- The error number `n` as it is returned, negated.
abbrev pub negated : ℕ → ℕ
negated n = sub32 0 n

abbrev pub eexist : ℕ
eexist = 17

-- The calls on a device. An `int` is its bit pattern; a file descriptor of -1 is `none`.
pub record LinkCalls (W : Type 0) : Type 0 where
  -- `bpf_set_link_xdp_fd`, of a device, a file descriptor and flags
  pub set_fd : W → ℕ → Option ℕ → ℕ → ℕ × W
  -- `bpf_get_link_xdp_id`, of a device and flags: what it returns, and the number it stores
  pub get_id : W → ℕ → ℕ → ℕ × ℕ

-- The flags of the second try: the opposite mode.
unfoldable pub swap_mode : ℕ → ℕ
swap_mode flags = bit_or (clear32 flags xdp_flags_modes) (if bit_and flags 2 == 0 then 2 else 4)

module _ {W : Type 0} (calls : LinkCalls W) where
  -- The second try: unload the program of the opposite mode, then load again.
  unfoldable pub retry : ℕ → ℕ → ℕ → W → ℕ × W
  retry ifindex flags prog_fd w =
      let (err, w') = calls.set_fd w ifindex none (swap_mode flags) in
      if err == 0 then calls.set_fd w' ifindex (some prog_fd) flags else (err, w')

  unfoldable pub xdp_link_attach : ℕ → ℕ → ℕ → W → ℕ × W
  xdp_link_attach ifindex flags prog_fd w =
      let (err, w1) = calls.set_fd w ifindex (some prog_fd) flags in
      let (last, w2) =
        if err == negated eexist && bit_and flags update_if_noexist == 0
        then retry ifindex flags prog_fd w1
        else (err, w1) in
      if is_neg32 last then (exit_fail_xdp, w2) else (0, w2)

  unfoldable pub xdp_link_detach : ℕ → ℕ → ℕ → W → ℕ × W
  xdp_link_detach ifindex flags expected w =
      let (err, current) = calls.get_id w ifindex flags in
      if not (err == 0)
      then (exit_fail_xdp, w)
      else if current == 0
      then (0, w)
      else if not (expected == 0) && not (current == expected)
      then (exit_fail, w)
      else (let (result, w') = calls.set_fd w ifindex none flags in
          if is_neg32 result then (exit_fail_xdp, w') else (0, w'))

-- `struct bpf_map_info`, the fields that are compared.
pub record BpfMapInfo : Type 0 where
  pub kind : ℕ
  pub key_size : ℕ
  pub value_size : ℕ
  pub max_entries : ℕ

abbrev pub differs : ℕ → ℕ → Bool
differs expected found = not (expected == 0) && not (expected == found)

unfoldable pub check_map_fd_info : BpfMapInfo → BpfMapInfo → ℕ
check_map_fd_info info expected =
    if differs expected.key_size info.key_size
    then exit_fail
    else if differs expected.value_size info.value_size
    then exit_fail
    else if differs expected.max_entries info.max_entries
    then exit_fail
    else if differs expected.kind info.kind
    then exit_fail
    else 0

-- The names of the verdicts, in their order.
pub data ActionName : Type 0 where
  xdp_aborted xdp_drop xdp_pass xdp_tx xdp_redirect xdp_unknown : ActionName

abbrev pub xdp_action_names : List ActionName
xdp_action_names = xdp_aborted ∷ xdp_drop ∷ xdp_pass ∷ xdp_tx ∷ xdp_redirect ∷ xdp_unknown ∷ []

abbrev pub xdp_action_max : ℕ
xdp_action_max = 4 + 1 + 1

-- The outer `none` is a read past the end of the array, the inner one the null pointer.
unfoldable pub action2str : ℕ → Option (Option ActionName)
action2str action =
    if ltb action xdp_action_max
    then (elim (get_elem? xdp_action_names action) [ none ↦ none | some n ↦ some (some n) ])
    else some none
