-- ===== src/Attach/Maps.antt =====
-- check_map_fd_info and action2str of common_user_bpf_xdp.c.
use fide.Base.{ℕ, ◌≡◌, ◌⊎◌, ◌↔◌, ◌<◌, ◌≤◌, inl, inr, none, some, arith, suc, zero, refl}
use fide.Attach.{
  BpfMapInfo, check_map_fd_info, action2str, ActionName, xdp_action_max, xdp_aborted, xdp_drop,
  xdp_pass, xdp_tx, xdp_redirect, xdp_unknown,
}

-- An expected number of 0 is met by any.
abbrev pub Meets : ℕ → ℕ → Type 0
Meets expected found = (expected ≡ 0) ⊎ (expected ≡ found)

-- check_map_fd_info returns 0 exactly when each of the four fields of the map is the expected one
-- or none is expected.
pub check_map_fd_info_iff :
    (info expected : BpfMapInfo)
    → (check_map_fd_info info expected ≡ 0) ↔ (
        Meets expected.key_size info.key_size
        × Meets expected.value_size info.value_size
        × Meets expected.max_entries info.max_entries
        × Meets expected.kind info.kind)
unfolding check_map_fd_info
check_map_fd_info_iff info expected = ground arith

-- action2str reads only inside its array: it returns a name exactly for the numbers below six,
-- and the null pointer for all others.
pub action2str_iff :
    (action : ℕ)
    → ((action < xdp_action_max) × ((n : ActionName) × (action2str action ≡ some (some n))))
      ⊎ ((xdp_action_max ≤ action) × (action2str action ≡ some none))
unfolding action2str
action2str_iff zero = inl (omega arith, (xdp_aborted, refl))
action2str_iff (suc zero) = inl (omega arith, (xdp_drop, refl))
action2str_iff (suc (suc zero)) = inl (omega arith, (xdp_pass, refl))
action2str_iff (suc (suc (suc zero))) = inl (omega arith, (xdp_tx, refl))
action2str_iff (suc (suc (suc (suc zero)))) = inl (omega arith, (xdp_redirect, refl))
action2str_iff (suc (suc (suc (suc (suc zero))))) = inl (omega arith, (xdp_unknown, refl))
action2str_iff (suc (suc (suc (suc (suc (suc n)))))) = inr (omega arith, ground arith)
