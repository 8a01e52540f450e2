-- ===== src/Kernel/Verdicts.antt =====
-- What `xdp_filter_func` of fully_in-kernel/main/xdp_prog_kern.c answers to which packet.
use native.Mathlib.Decide.{dec_lt, ℕ_discrete}
use fide.Base.{
  ℕ, ◌+◌, ◌≤◌, ◌<◌, ◌≡◌, ◌≢◌, ◌↔◌, ◌⊎◌, inl, inr, sym, ◌∙◌, ◌&&◌, ◌||◌, ltb, ◌==◌, if◌then◌else◌,
  Option, none, some, arith, length, Option-cases,
}
use fide.Packet.{Bytes, byte_at, word_at, load16-some, load32-some}
use fide.Kernel.Types.{DataValue, State, Verdict, drop, pass, redirect_map}
use fide.Kernel.Interval.{count_packet, record_source}
use fide.Kernel.Handler.{check_interval, count_source, xdp_filter_func, sizeof_ethhdr, sizeof_iphdr}

-- The packet has an Ethernet and an IPv4 header, and the EtherType is that of IPv4.
pub record IsIpv4 (p : Bytes) : Type 0 where
  pub complete : sizeof_ethhdr + sizeof_iphdr ≤ length p
  pub type_high : byte_at p 12 ≡ 8
  pub type_low : byte_at p 13 ≡ 0

abbrev pub source_of : Bytes → ℕ
source_of p = word_at p 26

abbrev pub listed_as : State → Bytes → Option ℕ
listed_as s p = s.blacklist (record { prefixlen = 32; address = source_of p })

module _ (ts : ℕ) (p : Bytes) (s : State) where
  -- A packet from a listed source is dropped and changes nothing: it is not counted.
  pub ipv4-listed :
      {rule : ℕ} → IsIpv4 p → listed_as s p ≡ some rule → xdp_filter_func ts p s ≡ some (drop, s)
  unfolding xdp_filter_func
  ipv4-listed v h = ground (arith, load16-some p 12, load32-some p 26)

  pub ipv4_unlisted :
      IsIpv4 p → listed_as s p ≡ none → xdp_filter_func ts p s ≡ count_source ts (source_of p) s
  unfolding xdp_filter_func
  ipv4_unlisted v h = ground (arith, load16-some p 12, load32-some p 26)

  pub short : length p < sizeof_ethhdr → xdp_filter_func ts p s ≡ some (pass, s)
  unfolding xdp_filter_func
  short h = ground arith

  pub other_type :
      sizeof_ethhdr ≤ length p
      → (byte_at p 12 ≢ 8) ⊎ (byte_at p 13 ≢ 0)
      → xdp_filter_func ts p s ≡ some (redirect_map s, s)
  unfolding xdp_filter_func
  other_type h t = ground (arith, load16-some p 12)

  pub short_ip :
      sizeof_ethhdr ≤ length p
      → length p < sizeof_ethhdr + sizeof_iphdr
      → byte_at p 12 ≡ 8
      → byte_at p 13 ≡ 0
      → xdp_filter_func ts p s ≡ some (pass, s)
  unfolding xdp_filter_func
  short_ip h k t u = ground (arith, load16-some p 12)

redirect_map-ne-drop : (s : State) → redirect_map s ≢ drop
unfolding redirect_map
redirect_map-ne-drop s = ground arith

-- The four kinds of packet.
pub data Kind (p : Bytes) : Type 0 where
  too_short : length p < sizeof_ethhdr → Kind p
  not_ip : sizeof_ethhdr ≤ length p → (byte_at p 12 ≢ 8) ⊎ (byte_at p 13 ≢ 0) → Kind p
  cut_ip :
      sizeof_ethhdr ≤ length p
      → length p < sizeof_ethhdr + sizeof_iphdr
      → byte_at p 12 ≡ 8
      → byte_at p 13 ≡ 0
      → Kind p
  ipv4 : IsIpv4 p → Kind p

pub Kind-of : (p : Bytes) → Kind p
Kind-of p = elim (dec_lt (length p) sizeof_ethhdr) [
  | yes h ↦ too_short h
  | no h ↦ elim (ℕ_discrete (byte_at p 12) 8) [
    | no t ↦ not_ip (omega arith) (inl t)
    | yes t ↦ elim (ℕ_discrete (byte_at p 13) 0) [
      | no u ↦ not_ip (omega arith) (inr u)
      | yes u ↦ elim (dec_lt (length p) (sizeof_ethhdr + sizeof_iphdr)) [
        | yes k ↦ cut_ip (omega arith) k t u
        | no k ↦ ipv4 (record { complete = omega arith; type_high = t; type_low = u })
      ]
    ]
  ]
]

-- From the counts on the verdict is not to drop, and the list and the port stay.
pub check_interval-keeps :
    (ts : ℕ) (d : DataValue) (s t : State) (v : Verdict)
    → check_interval ts d s ≡ some (v, t)
    → (v ≢ drop) × (t.blacklist ≡ s.blacklist) × (t.tx_port ≡ s.tx_port)
unfolding check_interval redirect_map
check_interval-keeps ts d s t v h = ground arith

-- The state in which `count_source` looks at the time stamp.
abbrev pub counted : ℕ → DataValue → State → State
counted saddr d s = record s { interval = some d; logger = record_source saddr s.logger }

-- The ways in which counting can return.
pub count_source_inv :
    (ts saddr : ℕ) (s : State) (r : Verdict × State)
    → count_source ts saddr s ≡ some r
    → ((s.interval ≡ none) × (r ≡ (pass, s)))
      ⊎ ((d d' : DataValue) × (s.interval ≡ some d)
          × (count_packet d ≡ some d')
          × (check_interval ts d' (counted saddr d' s) ≡ some r))
unfolding count_source
count_source_inv ts saddr s r h = elim (Option-cases s.interval) [
  | inl e ↦ inl (e, ground arith)
  | inr (d, e) ↦ elim (Option-cases (count_packet d)) [
    | inl n ↦ absurd (ground arith)
    | inr (d', f) ↦ inr (d, d', e, f, ground arith)
  ]
]

pub count_source-keeps :
    (ts saddr : ℕ) (s t : State) (v : Verdict)
    → count_source ts saddr s ≡ some (v, t)
    → (v ≢ drop) × (t.blacklist ≡ s.blacklist) × (t.tx_port ≡ s.tx_port)
count_source-keeps ts saddr s t v h = elim (count_source_inv ts saddr s (v, t) h) [
  | inl e ↦ ground arith
  | inr (d, d', e, f, k) ↦ check_interval-keeps ts d' (counted saddr d' s) t v k
]

-- A packet is dropped exactly when it has complete Ethernet and IPv4 headers and the blacklist
-- has a rule for its source address.
pub drop_iff :
    (ts : ℕ) (p : Bytes) (s t : State) (v : Verdict)
    → xdp_filter_func ts p s ≡ some (v, t)
    → (v ≡ drop) ↔ (IsIpv4 p × ((rule : ℕ) × (listed_as s p ≡ some rule)))
drop_iff ts p s t v h = (dropped (Kind-of p), λ (q, e). ground (arith, ipv4-listed ts p s q e.1))
  where
    dropped : Kind p → v ≡ drop → IsIpv4 p × ((rule : ℕ) × (listed_as s p ≡ some rule))
    dropped (too_short k) e = absurd (ground (arith, short ts p s k))
    dropped (not_ip k t) e = absurd (ground (arith, other_type ts p s k t, redirect_map-ne-drop s))
    dropped (cut_ip k l t u) e = absurd (ground (arith, short_ip ts p s k l t u))
    dropped (ipv4 q) e = elim (Option-cases (listed_as s p)) [
      | inr (rule, f) ↦ (q, (rule, f))
      | inl f ↦
          absurd
            ((count_source-keeps ts (source_of p) s t v (sym (ipv4_unlisted ts p s q f) ∙ h)).0 e)
    ]

-- The verdict on a packet without complete Ethernet and IPv4 headers.
abbrev pub answer_of : Bytes → State → Verdict
answer_of p s =
    if ltb (length p) sizeof_ethhdr || (byte_at p 12 == 8 && byte_at p 13 == 0)
    then pass
    else redirect_map s

-- A packet without complete Ethernet and IPv4 headers changes nothing: it is passed on when a
-- header is cut off, and redirected when it is of another type.
pub uncounted :
    (ts : ℕ) (p : Bytes) (s : State) → ¬ IsIpv4 p → xdp_filter_func ts p s ≡ some (answer_of p s, s)
uncounted ts p s n = by_kind (Kind-of p)
  where
    by_kind : Kind p → xdp_filter_func ts p s ≡ some (answer_of p s, s)
    by_kind (too_short k) = short ts p s k ∙ ground arith
    by_kind (not_ip k t) = other_type ts p s k t ∙ ground arith
    by_kind (cut_ip k l t u) = short_ip ts p s k l t u ∙ ground arith
    by_kind (ipv4 q) = absurd (n q)

-- No packet changes the blacklist or the port that packets are redirected to.
pub blacklist-constant :
    (ts : ℕ) (p : Bytes) (s t : State) (v : Verdict)
    → xdp_filter_func ts p s ≡ some (v, t)
    → (t.blacklist ≡ s.blacklist) × (t.tx_port ≡ s.tx_port)
blacklist-constant ts p s t v h = by_kind (Kind-of p)
  where
    by_kind : Kind p → (t.blacklist ≡ s.blacklist) × (t.tx_port ≡ s.tx_port)
    by_kind (too_short k) = ground (arith, short ts p s k)
    by_kind (not_ip k u) = ground (arith, other_type ts p s k u)
    by_kind (cut_ip k l u w) = ground (arith, short_ip ts p s k l u w)
    by_kind (ipv4 q) = elim (Option-cases (listed_as s p)) [
      | inr (rule, f) ↦ ground (arith, ipv4-listed ts p s q f)
      | inl f ↦
          let k = count_source-keeps ts (source_of p) s t v (sym (ipv4_unlisted ts p s q f) ∙ h) in
          (k.1, k.2)
    ]
