-- ===== src/Kernel/Timing.antt =====
-- The end of an interval in `xdp_filter_func` of fully_in-kernel/main/xdp_prog_kern.c, on several
-- processors: the sections under the lock run one after the other, in any order of the packets'
-- times, and each processor has looked at the stamp before, without the lock.
use fide.Base.{
  ℕ, ◌+◌, ◌^◌, ◌<◌, ◌≡◌, ◌↔◌, inl, inr, Bool-cases, Bool, true, false, List, [], ◌∷◌, arith,
  if◌then◌else◌, slt64, add64,
}
use fide.Kernel.Interval.{invl_ns, locked_claim, claim_interval}

-- A time, or a stamp, in nanoseconds: below 2 ^ 62, which is more than a century.
abbrev pub IsTime : ℕ → Type 0
IsTime t = t < 2 ^ 62

-- A packet ends the interval exactly when the clock has been started and the packet is later
-- than the stamp by more than the length of an interval. The stamp is moved to the packet's time
-- then, and when the packet starts the clock; else it stays.
pub claim_interval_iff :
    (ts stamp : ℕ)
    → IsTime ts
    → IsTime stamp
    → ((claim_interval ts stamp).1 ≡ true) ↔ ((0 < stamp) × (stamp + invl_ns < ts))
unfolding claim_interval locked_claim
claim_interval_iff ts stamp h k = ground arith

-- One entry into the section: the packet's time, and the stamp that it saw without the lock.
pub record Entry : Type 0 where
  pub ts : ℕ
  pub seen : ℕ

-- The stamp after the entry, and whether it ended the interval.
unfoldable pub enter : Entry → ℕ → ℕ × Bool
enter e stamp =
    if slt64 (add64 e.seen invl_ns) e.ts then locked_claim e.ts stamp else (stamp, false)

-- The times at which an interval is ended, over entries that come in this order.
unfoldable pub ended_at : List Entry → ℕ → List ℕ
ended_at [] stamp = []
ended_at (e ∷ es) stamp =
    let rest = ended_at es (enter e stamp).0 in if (enter e stamp).1 then e.ts ∷ rest else rest

abbrev pub AllTimes : List Entry → Type 0
AllTimes [] = Unit
AllTimes (e ∷ es) = IsTime e.ts × IsTime e.seen × AllTimes es

-- Each time is later than the one before by more than the length of an interval.
abbrev pub Spaced : ℕ → List ℕ → Type 0
Spaced last [] = Unit
Spaced last (t ∷ ts) = (last + invl_ns < t) × Spaced t ts

entry_ends :
    (e : Entry) (stamp : ℕ)
    → 0 < stamp
    → IsTime stamp
    → IsTime e.ts
    → (enter e stamp).1 ≡ true
    → ((enter e stamp).0 ≡ e.ts) × (stamp + invl_ns < e.ts)
unfolding enter locked_claim
entry_ends e stamp pos h k c = ground arith

entry_leaves :
    (e : Entry) (stamp : ℕ) → 0 < stamp → (enter e stamp).1 ≡ false → (enter e stamp).0 ≡ stamp
unfolding enter locked_claim
entry_leaves e stamp pos c = ground arith

-- However the processors race, no interval is ended twice: any two ends, and the stamp at the
-- start and the first end, are apart by more than the length of an interval.
pub ended_at-Spaced :
    (es : List Entry) (stamp : ℕ)
    → 0 < stamp
    → IsTime stamp
    → AllTimes es
    → Spaced stamp (ended_at es stamp)
unfolding ended_at
ended_at-Spaced [] stamp pos h a = tt
ended_at-Spaced (e ∷ es) stamp pos h a = elim (Bool-cases (enter e stamp).1) [
  | inl c ↦
      let now = entry_ends e stamp pos h a.0 c in
      rw (c, now.0) (now.1, ended_at-Spaced es e.ts (omega arith) a.0 a.2)
  | inr c ↦ rw (c, entry_leaves e stamp pos c) (ended_at-Spaced es stamp pos h a.2)
]
