-- ===== src/History.antt =====
-- The history of the packets and of the ends of intervals, against which the counts of both
-- versions of main/xdp_prog_kern.c stand.
use fide.Base.{ℕ, suc, ◌≤◌, arith, Bool, true, List, [], ◌∷◌, if◌then◌else◌}

-- What happened: a packet of an IPv4 source, or the end of an interval.
pub data Event : Type 0 where
  came : ℕ → Event
  ended : Event

-- How many packets of such sources came in the interval before and since its end, the last event
-- first, from the two numbers at the start.
unfoldable pub tally : (ℕ → Bool) → ℕ × ℕ → List Event → ℕ × ℕ
tally p start [] = start
tally p start (came k ∷ es) = let r = tally p start es in if p k then (r.0, suc r.1) else r
tally p start (ended ∷ es) = ((tally p start es).1, 0)

-- Such sources sent no more packets in this interval than all, if it was so at the start.
pub tally-le :
    (p : ℕ → Bool) (start all : ℕ × ℕ) (es : List Event)
    → start.1 ≤ all.1
    → (tally p start es).1 ≤ (tally (λ j. true) all es).1
unfolding tally
tally-le p start all [] h = h
tally-le p start all (came k ∷ es) h = ground (arith, tally-le p start all es h)
tally-le p start all (ended ∷ es) h = omega arith
