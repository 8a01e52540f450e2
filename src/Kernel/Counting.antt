-- ===== src/Kernel/Counting.antt =====
-- The packet count of an interval and its width, `int_bits`, in `xdp_filter_func` of
-- fully_in-kernel/main/xdp_prog_kern.c.
use native.Mathlib.Nat.{pow-le-pow_right}
use native.Mathlib.Decide.{dec_lt, dec_le}
use mathlib.Core.Path.{subst}
use fide.Base.{
  sym, refl, false, Option-cases, sub32, lt→ltb, le→ltb, ℕ, ◌+◌, ◌-◌, ◌*◌, ◌^◌, ◌≤◌, ◌<◌, ◌≡◌, ◌⊎◌,
  inl, inr, ap, ◌∙◌, suc, ltb, if◌then◌else◌, Option, none, some, arith, pow_suc, pow_pos,
}
use fide.Kernel.Types.{DataValue, Logger, Globals, State, Verdict, pass, drop, redirect_map}
use fide.Kernel.Interval.{count_packet, claim_interval, end_interval}
use fide.Kernel.Handler.{check_interval, count_source, xdp_filter_func}
use fide.Kernel.Verdicts.{
  source_of, listed_as, Kind, too_short, not_ip, cut_ip, ipv4, Kind-of, short, other_type, short_ip,
  ipv4-listed, ipv4_unlisted, counted,
}
use fide.Kernel.Effects.{
  Clocked, no_stamp, goes_on, ends, Effect, same, counts, xdp_filter_func-Effect,
}
use fide.Packet.{Bytes}

-- The count fits the integer bits below the sign, which are no more than it needs, and four at
-- least.
pub record IsSized (d : DataValue) : Type 0 where
  pub bits_low : 4 ≤ d.int_bits
  pub bits_high : d.int_bits ≤ 31
  pub fits : d.cur_interval_pkt < 2 ^ (d.int_bits - 1)
  pub needed : (d.int_bits ≡ 4) ⊎ (2 ^ (d.int_bits - 2) ≤ d.cur_interval_pkt)

-- The counts after one more packet, without wrap-around.
abbrev pub one_more : DataValue → DataValue
one_more d =
    let cur = d.cur_interval_pkt + 1 in
    record d {
      cur_interval_pkt = cur;
      int_bits = if ltb cur (2 ^ (d.int_bits - 1)) then d.int_bits else d.int_bits + 1;
    }

module _ (d : DataValue) (v : IsSized d) (room : d.cur_interval_pkt + 1 < 2 ^ 30) where
  -- The two powers of two that the count is compared with.
  low_power : 2 ^ (d.int_bits - 1) ≤ 2 ^ 30
  low_power =
      pow-le-pow_right {n = 2} (omega arith) {i = d.int_bits - 1} {j = 30} (omega (arith, v))

  next_power : 2 ^ d.int_bits ≡ 2 * 2 ^ (d.int_bits - 1)
  next_power =
      ap (λ k. 2 ^ k) {x = d.int_bits} {y = suc (d.int_bits - 1)} (omega (arith, v))
      ∙ pow_suc (d.int_bits - 1)

  pub count_packet-eq : count_packet d ≡ some (one_more d)
  unfolding count_packet
  count_packet-eq =
      let bits : sub32 d.int_bits 1 ≡ d.int_bits - 1 = omega (arith, v) in
      rw bits (ground (arith, low_power, pow_pos (d.int_bits - 1)))

  bits_bound : 2 ^ (d.int_bits - 1) ≤ d.cur_interval_pkt + 1 → d.int_bits + 1 ≤ 31
  bits_bound h = elim (dec_le 31 d.int_bits) [
    | no k ↦ omega arith
    | yes k ↦
        let high =
          pow-le-pow_right {n = 2} (omega arith) {i = 30} {j = d.int_bits - 1} (omega arith) in
        absurd (omega arith)
  ]

  pub one_more-IsSized : IsSized (one_more d)
  one_more-IsSized = elim (dec_lt (d.cur_interval_pkt + 1) (2 ^ (d.int_bits - 1))) [
    | yes h ↦ rw (lt→ltb _ _ h) (record {
      bits_low = v.bits_low;
      bits_high = v.bits_high;
      fits = h;
      needed = ground (arith, v);
    })
    | no h ↦ rw (le→ltb (d.cur_interval_pkt + 1) (2 ^ (d.int_bits - 1)) (omega arith)) (record {
      bits_low = omega (arith, v);
      bits_high = bits_bound (omega arith);
      fits =
          let e : d.int_bits + 1 - 1 ≡ d.int_bits = omega arith in
          rw e (omega (arith, next_power, v.fits));
      needed = inr (
          omega (
            arith,
            ap (λ k. 2 ^ k) {x = d.int_bits + 1 - 2} {y = d.int_bits - 1} (omega (arith, v)),
          ));
    })
  ]

end_interval-counts :
    (d d' : DataValue) (m m' : Logger) (g g' : Globals)
    → end_interval d m g ≡ some (d', m', g')
    → d' ≡ record d { prev_interval_pkt = d.cur_interval_pkt; cur_interval_pkt = 0; int_bits = 4 }
unfolding end_interval
end_interval-counts d d' m m' g g' h = ground arith

abbrev pub Sized : Option DataValue → Type 0
Sized none = Unit
Sized (some d) = IsSized d

-- There is room for one more packet in the interval.
abbrev pub HasRoom : Option DataValue → Type 0
HasRoom none = Unit
HasRoom (some d) = d.cur_interval_pkt + 1 < 2 ^ 30

-- What a packet adds to the counts.
pub count_packet-one_more :
    (d d' : DataValue)
    → IsSized d
    → d.cur_interval_pkt + 1 < 2 ^ 30
    → count_packet d ≡ some d'
    → d' ≡ one_more d
count_packet-one_more d d' w room c = cc (count_packet-eq d w room)

Clocked-Sized :
    (ts : ℕ) (d : DataValue) (s t : State)
    → s.interval ≡ some d
    → IsSized d
    → Clocked ts d s t
    → Sized t.interval
Clocked-Sized ts d s t e w (no_stamp f) = subst Sized (sym (ap (λ u. u.interval) f ∙ e)) w
Clocked-Sized ts d s t e w (goes_on stamp _ _ f) = subst Sized (sym (ap (λ u. u.interval) f ∙ e)) w
Clocked-Sized ts d s t e w (ends stamp d' m g _ _ k f) =
    subst Sized (sym (ap (λ u. u.interval) f)) (
      rw (end_interval-counts d d' s.logger m s.globals g k) (record {
        bits_low = omega arith;
        bits_high = omega arith;
        fits = omega arith;
        needed = ground arith;
      }))

-- Each packet keeps the count of the interval inside its integer bits, whether it is counted,
-- ends the interval, or is not counted at all, while an interval has less than 2 ^ 30 packets.
pub xdp_filter_func-Sized :
    (ts : ℕ) (p : Bytes) (s t : State) (v : Verdict)
    → Sized s.interval
    → HasRoom s.interval
    → xdp_filter_func ts p s ≡ some (v, t)
    → Sized t.interval
xdp_filter_func-Sized ts p s t v sized room h = by_effect (xdp_filter_func-Effect ts p s t v h)
  where
    by_effect : Effect ts (source_of p) s t → Sized t.interval
    by_effect (same e) = subst Sized (sym (ap (λ u. u.interval) e)) sized
    by_effect (counts d d' e c k) =
        let w : IsSized d = subst Sized e sized in
        let r : d.cur_interval_pkt + 1 < 2 ^ 30 = subst HasRoom e room in
        let w' : IsSized d' = rw (count_packet-one_more d d' w r c) (one_more-IsSized d w r) in
        Clocked-Sized ts d' (counted (source_of p) d' s) t refl w' k

-- The packet finds its interval running: its time is not past the stamp by more than the length
-- of an interval, or it is the packet that starts the clock.
abbrev pub IsRunning : ℕ → Option ℕ → Type 0
IsRunning ts none = Unit
IsRunning ts (some stamp) = (claim_interval ts stamp).1 ≡ false

check_interval-some :
    (ts : ℕ) (d : DataValue) (s : State)
    → IsRunning ts s.timestamp
    → (r : Verdict × State) × (check_interval ts d s ≡ some r)
unfolding check_interval
check_interval-some ts d s h = elim (Option-cases s.timestamp) [
  | inl e ↦ ((pass, s), ground arith)
  | inr (stamp, e) ↦
      let goes : (claim_interval ts stamp).1 ≡ false = subst (IsRunning ts) e h in
      ((redirect_map s, record s { timestamp = some (claim_interval ts stamp).0 }), ground arith)
]

-- A packet that does not end an interval is handled without reading past its end and without
-- undefined behaviour, whatever its bytes and its length.
pub xdp_filter_func-some :
    (ts : ℕ) (p : Bytes) (s : State)
    → Sized s.interval
    → HasRoom s.interval
    → IsRunning ts s.timestamp
    → (r : Verdict × State) × (xdp_filter_func ts p s ≡ some r)
xdp_filter_func-some ts p s sized room running = by_kind (Kind-of p)
  where
    count : (r : Verdict × State) × (count_source ts (source_of p) s ≡ some r)
    count = elim (Option-cases s.interval) [
      | inl e ↦ ((pass, s), unfold count_source in ground arith)
      | inr (d, e) ↦
          let w : IsSized d = subst Sized e sized in
          let r : d.cur_interval_pkt + 1 < 2 ^ 30 = subst HasRoom e room in
          let rest =
            check_interval-some ts (one_more d) (counted (source_of p) (one_more d) s) running in
          (rest.0, unfold count_source in ground (arith, count_packet-eq d w r))
    ]

    by_kind : Kind p → (r : Verdict × State) × (xdp_filter_func ts p s ≡ some r)
    by_kind (too_short k) = ((pass, s), short ts p s k)
    by_kind (not_ip k t) = ((redirect_map s, s), other_type ts p s k t)
    by_kind (cut_ip k l t u) = ((pass, s), short_ip ts p s k l t u)
    by_kind (ipv4 q) = elim (Option-cases (listed_as s p)) [
      | inr (rule, f) ↦ ((drop, s), ipv4-listed ts p s q f)
      | inl f ↦ (count.0, ipv4_unlisted ts p s q f ∙ count.1)
    ]
