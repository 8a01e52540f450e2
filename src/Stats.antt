-- ===== src/Stats.antt =====
-- user+ebpf/main/common/xdp_stats_kern.h and xdp_stats_kern_user.h: packets and bytes by verdict.
use fide.Base.{
  ℕ, zero, suc, ◌+◌, ◌≡◌, ◌<◌, List, [], ◌∷◌, none, some, arith, ltb, if◌then◌else◌, get_elem?,
  add64, refl,
}

pub record Datarec : Type 0 where
  pub rx_packets : ℕ
  pub rx_bytes : ℕ

abbrev pub xdp_action_max : ℕ
xdp_action_max = 4 + 1

unfoldable pub put : List Datarec → ℕ → Datarec → List Datarec
put [] i r = []
put (x ∷ xs) zero r = r ∷ xs
put (x ∷ xs) (suc i) r = x ∷ put xs i r

-- `stats` is this processor's part of the map, by action; a lookup past its end finds nothing.
-- `size` is the number of bytes from `data` to `data_end`.
unfoldable pub xdp_stats_record_action : ℕ → ℕ → List Datarec → ℕ × List Datarec
xdp_stats_record_action size action stats =
    if ltb action xdp_action_max
    then (elim (get_elem? stats action) [
      | none ↦ (0, stats)
      | some rec ↦ (
        action,
        put stats action
            (record { rx_packets = add64 rec.rx_packets 1; rx_bytes = add64 rec.rx_bytes size }),
      )
    ])
    else (0, stats)

get_elem?-put :
    (xs : List Datarec) (i : ℕ) (r x : Datarec)
    → get_elem? xs i ≡ some x
    → get_elem? (put xs i r) i ≡ some r
unfolding put
get_elem?-put [] i r x h = ground arith
get_elem?-put (y ∷ xs) zero r x h = refl
get_elem?-put (y ∷ xs) (suc i) r x h = get_elem?-put xs i r x h

-- A recorded action is returned, and its record has one packet and the packet's bytes more.
pub xdp_stats_record_action-counts :
    (size action : ℕ) (stats : List Datarec) (rec : Datarec)
    → action < xdp_action_max
    → get_elem? stats action ≡ some rec
    → ((xdp_stats_record_action size action stats).0 ≡ action)
      × (get_elem? (xdp_stats_record_action size action stats).1 action
          ≡ some
              (record { rx_packets = add64 rec.rx_packets 1; rx_bytes = add64 rec.rx_bytes size }))
unfolding xdp_stats_record_action
xdp_stats_record_action-counts size action stats rec h e = ground (
  arith,
  get_elem?-put stats action
      (record { rx_packets = add64 rec.rx_packets 1; rx_bytes = add64 rec.rx_bytes size }) rec e,
)
