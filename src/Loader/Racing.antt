-- ===== src/Loader/Racing.antt =====
-- The loop of calculate_ent of xdp_loader.c that resets the sources, with packets that the XDP
-- program counts between its calls on the map.
pub mod Numbers
pub mod Turns
pub mod Lost
mod Tests
use fide.Base.{
  ℕ, ◌≡◌, arith, length, List, [], ◌∷◌, ◌++◌, Option, none, some, ◌>>=◌, Option-cases, inl, inr,
}
use fide.HashMap.{lookup}
use fide.Split.{LoggerValue}
use fide.Loader.{Floats, Entpy, reset_one, reset_sources}
use fide.Loader.Memory.{table_calls}
use fide.Loader.Between.{record_all}

-- A round of the loop: its source, those of the packets that come before its read, and between
-- its read and its write.
pub record Turn : Type 0 where
  pub early : List ℕ
  pub key : ℕ
  pub between : List ℕ

-- `none` is a read of a source that is not there.
unfoldable pub turn : Turn → List (ℕ × LoggerValue) → Option (List (ℕ × LoggerValue))
turn w m = do
  v ← lookup w.key (record_all w.early m)
  some (reset_one table_calls w.key v (record_all w.between (record_all w.early m))).0

unfoldable pub turns : List Turn → List (ℕ × LoggerValue) → Option (List (ℕ × LoggerValue))
turns [] m = some m
turns (w ∷ ws) m = do m' ← turn w m; turns ws m'

-- All sources of packets that come, in order.
unfoldable pub all_came : List Turn → List ℕ
all_came [] = []
all_came (w ∷ ws) = w.early ++ (w.between ++ all_came ws)

-- The rounds without a packet between.
abbrev pub quiet : {F : Type 0} → List (Entpy F) → List Turn
quiet [] = []
quiet (e ∷ es) = record { early = []; key = e.ip; between = [] } ∷ quiet es

-- Those rounds are the loop.
pub turns-quiet :
    {F : Type 0} (floats : Floats F) (es : List (Entpy F)) (m m' : List (ℕ × LoggerValue))
    (buffer : Option LoggerValue)
    → turns (quiet es) m ≡ some m'
    → reset_sources table_calls floats (length es) es m buffer ≡ some m'
unfolding turns turn record_all reset_sources
turns-quiet floats [] m m' buffer h = h
turns-quiet floats (e ∷ es) m m' buffer h = elim (Option-cases (lookup e.ip m)) [
  | inl n ↦ absurd (ground (arith, h, n))
  | inr (v, f) ↦
      let (left, w) = reset_one table_calls e.ip v m in
      ground (arith, h, f, turns-quiet floats es left m' (some w))
]
