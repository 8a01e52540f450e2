-- ===== src/Kernel/Effects.antt =====
-- The ways in which `xdp_filter_func` of fully_in-kernel/main/xdp_prog_kern.c can change the state.
use fide.Base.{ℕ, ◌≡◌, sym, ◌∙◌, inl, inr, true, false, some, arith, Bool-cases, Option-cases}
use fide.Packet.{Bytes}
use fide.Kernel.Types.{DataValue, Logger, Globals, State, Verdict}
use fide.Kernel.Interval.{count_packet, claim_interval, end_interval}
use fide.Kernel.Handler.{check_interval, xdp_filter_func}
use fide.Kernel.Verdicts.{
  source_of, listed_as, Kind, too_short, not_ip, cut_ip, ipv4, Kind-of, short, other_type, short_ip,
  ipv4-listed, ipv4_unlisted, counted, count_source_inv,
}

module _ (ts : ℕ) where
  -- From the look at the time stamp on, in the state `s` with the counts `d`.
  pub data Clocked (d : DataValue) (s t : State) : Type 0 where
    no_stamp : t ≡ s → Clocked d s t
    goes_on :
        (stamp : ℕ)
        → s.timestamp ≡ some stamp
        → (claim_interval ts stamp).1 ≡ false
        → t ≡ record s { timestamp = some (claim_interval ts stamp).0 }
        → Clocked d s t
    ends :
        (stamp : ℕ) (d' : DataValue) (m : Logger) (g : Globals)
        → s.timestamp ≡ some stamp
        → (claim_interval ts stamp).1 ≡ true
        → end_interval d s.logger s.globals ≡ some (d', m, g)
        → t ≡ record s {
          timestamp = some (claim_interval ts stamp).0;
          interval = some d';
          logger = m;
          globals = g;
        }
        → Clocked d s t

  check_interval-Clocked :
      (d : DataValue) (s t : State) (v : Verdict)
      → check_interval ts d s ≡ some (v, t)
      → Clocked d s t
  unfolding check_interval
  check_interval-Clocked d s t v h = elim (Option-cases s.timestamp) [
    | inl e ↦ no_stamp (ground arith)
    | inr (stamp, e) ↦ elim (Bool-cases (claim_interval ts stamp).1) [
      | inl c ↦ elim (Option-cases (end_interval d s.logger s.globals)) [
        | inl n ↦ absurd (ground arith)
        | inr (r, f) ↦ ends stamp r.0 r.1 r.2 e c f (ground arith)
      ]
      | inr c ↦ goes_on stamp e c (ground arith)
    ]
  ]

  -- The state is as it was, or the packet of source `saddr` is counted in it.
  pub data Effect (saddr : ℕ) (s t : State) : Type 0 where
    same : t ≡ s → Effect saddr s t
    counts :
        (d d' : DataValue)
        → s.interval ≡ some d
        → count_packet d ≡ some d'
        → Clocked d' (counted saddr d' s) t
        → Effect saddr s t

  pub xdp_filter_func-Effect :
      (p : Bytes) (s t : State) (v : Verdict)
      → xdp_filter_func ts p s ≡ some (v, t)
      → Effect (source_of p) s t
  xdp_filter_func-Effect p s t v h = by_kind (Kind-of p)
    where
      by_kind : Kind p → Effect (source_of p) s t
      by_kind (too_short k) = same (ground (arith, short ts p s k))
      by_kind (not_ip k u) = same (ground (arith, other_type ts p s k u))
      by_kind (cut_ip k l u w) = same (ground (arith, short_ip ts p s k l u w))
      by_kind (ipv4 q) = elim (Option-cases (listed_as s p)) [
        | inr (rule, f) ↦ same (ground (arith, ipv4-listed ts p s q f))
        | inl f ↦
            elim (count_source_inv ts (source_of p) s (v, t) (sym (ipv4_unlisted ts p s q f) ∙ h)) [
              | inl e ↦ same (ground arith)
              | inr (d, d', e, c, k) ↦
                  counts d d' e c (check_interval-Clocked d' (counted (source_of p) d' s) t v k)
            ]
      ]
