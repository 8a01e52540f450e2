-- ===== src/Loader/Racing/Lost.antt =====
-- Which packets the loop loses that come between its calls.
use fide.Base.{
  ℕ, ◌+◌, ◌^◌, ◌<◌, ◌≤◌, ◌≡◌, ◌≢◌, refl, sym, ap, ◌∙◌, arith, List, [], ◌∷◌, ◌++◌, some, length,
  Every, Every-split,
}
use fide.HashMap.{lookup}
use fide.HashMap.Walk.{Distinct}
use fide.Split.{LoggerValue, logger_max_entries}
use fide.Split.Interleaving.Sequential.{occurs}
use fide.Loader.Racing.{Turn, turns, all_came}
use fide.Loader.Racing.Numbers.{numbers}
use fide.Loader.Racing.Turns.{arrivals, turned, occurs-le, turn-Turned}

-- How many packets come in all rounds.
unfoldable pub all_arrivals : List Turn → ℕ
all_arrivals [] = 0
all_arrivals (w ∷ ws) = arrivals w + all_arrivals ws

unfoldable turned_all : ℕ → List Turn → ℕ × ℕ → ℕ × ℕ
turned_all j [] r = r
turned_all j (w ∷ ws) r = turned_all j ws (turned j w r)

-- The round is for another source.
abbrev pub Other : ℕ → Turn → Type 0
Other k w = w.key ≢ k

-- No two rounds are for one source.
unfoldable pub Once : List Turn → Type 0
Once [] = Unit
Once (w ∷ ws) = Every (Other w.key) ws × Once ws

abbrev pub Present : List (ℕ × LoggerValue) → Turn → Type 0
Present m w = (v : LoggerValue) × (lookup w.key m ≡ some v)

still-Present :
    (k : ℕ) (m m' : List (ℕ × LoggerValue)) (ws : List Turn)
    → ((j : ℕ) (v : LoggerValue)
        → j ≢ k
        → lookup j m ≡ some v
        → (x : LoggerValue) × (lookup j m' ≡ some x))
    → Every (Other k) ws
    → Every (Present m) ws
    → Every (Present m') ws
unfolding Every
still-Present k m m' [] keep others there = tt
still-Present k m m' (w ∷ ws) keep (n, others) ((v, e), there) =
    (keep w.key v n e, still-Present k m m' ws keep others there)

turned-le : (j : ℕ) (w : Turn) (r : ℕ × ℕ) → (turned j w r).1 ≤ r.1 + arrivals w
unfolding turned
turned-le j w r = ground (arith, occurs-le j w.early, occurs-le j w.between)

turns-turned_all :
    (ws : List Turn) (m : List (ℕ × LoggerValue))
    → Distinct m
    → Once ws
    → Every (Present m) ws
    → length m + all_arrivals ws ≤ logger_max_entries
    → (m' : List (ℕ × LoggerValue)) × (turns ws m ≡ some m')
      × ((j : ℕ)
          → (numbers (lookup j m)).1 + all_arrivals ws < 2 ^ 32
          → numbers (lookup j m') ≡ turned_all j ws (numbers (lookup j m)))
unfolding turns turned_all Once Every all_arrivals
turns-turned_all [] m u once there slot = (m, refl, λ j room. refl)
turns-turned_all (w ∷ ws) m u (others, once) ((v, e), there) slot =
    let (m1, ran, t) = turn-Turned w v m e u (omega arith) in
    let (m2, rest, each) =
      turns-turned_all ws m1 t.distinct once (still-Present w.key m m1 ws t.still others there)
        (omega (arith, t.size)) in
    (
      m2,
      rw ran rest,
      λ j room.
          let one = t.each j (omega arith) in
          each j (omega (arith, ap (λ (x : ℕ × ℕ). x.1) one, turned-le j w (numbers (lookup j m))))
          ∙ ap (λ r. turned_all j ws r) one,
    )

turned_all-append :
    (j : ℕ) (a b : List Turn) (r : ℕ × ℕ)
    → turned_all j (a ++ b) r ≡ turned_all j b (turned_all j a r)
unfolding turned_all
turned_all-append j [] b r = refl
turned_all-append j (w ∷ a) b r = turned_all-append j a b (turned j w r)

occurs-append : (j : ℕ) (a b : List ℕ) → occurs j (a ++ b) ≡ occurs j a + occurs j b
unfolding occurs
occurs-append j [] b = omega arith
occurs-append j (k ∷ a) b = ground (arith, occurs-append j a b)

-- Rounds for other sources lose no packet of a source.
turned_all-Other :
    (k : ℕ) (ws : List Turn) (r : ℕ × ℕ)
    → Every (Other k) ws
    → turned_all k ws r ≡ (r.0, r.1 + occurs k (all_came ws))
unfolding turned_all all_came Every turned occurs
turned_all-Other k [] r h = ground arith
turned_all-Other k (w ∷ ws) r (n, h) = ground (
  arith,
  turned_all-Other k ws (r.0, r.1 + occurs k w.early + occurs k w.between) h,
  occurs-append k w.early (w.between ++ all_came ws),
  occurs-append k w.between (all_came ws),
)

Once-split :
    (xs : List Turn) (w : Turn) (ys : List Turn)
    → Once (xs ++ w ∷ ys)
    → Every (Other w.key) xs × Every (Other w.key) ys
unfolding Once Every
Once-split [] w ys (h, _) = (tt, h)
Once-split (x ∷ xs) w ys (h, once) =
    let (before, after) = Once-split xs w ys once in
    let (_, n, _) = Every-split (Other x.key) xs w ys h in ((λ e. n (sym e), before), after)

-- Whatever packets come between the calls of the loop, it is defined, and of the packets of a
-- source exactly those are lost that come between the read and the write in its own round: those
-- before the read are among the packets of the interval before, those after the write among those
-- of the new interval. Where each round is for another source, each is in the map, no source
-- stands twice, and there is room for the packets that come.
pub turns-lost :
    (xs : List Turn) (w : Turn) (ys : List Turn) (m : List (ℕ × LoggerValue))
    → Distinct m
    → Once (xs ++ w ∷ ys)
    → Every (Present m) (xs ++ w ∷ ys)
    → length m + all_arrivals (xs ++ w ∷ ys) ≤ logger_max_entries
    → (numbers (lookup w.key m)).1 + all_arrivals (xs ++ w ∷ ys) < 2 ^ 32
    → (m' : List (ℕ × LoggerValue)) × (turns (xs ++ w ∷ ys) m ≡ some m')
      × (numbers (lookup w.key m') ≡ (
        (numbers (lookup w.key m)).1 + occurs w.key (all_came xs) + occurs w.key w.early,
        occurs w.key (all_came ys),
      ))
turns-lost xs w ys m u once there slot room =
    let k = w.key in
    let (m', ran, each) = turns-turned_all (xs ++ w ∷ ys) m u once there slot in
    let (before, after) = Once-split xs w ys once in
    let r = numbers (lookup k m) in
    let first = turned_all-Other k xs r before in
    let own : turned k w (turned_all k xs r)
        ≡ (r.1 + occurs k (all_came xs) + occurs k w.early, 0) =
      unfold turned in ground (arith, first) in
    let rest = turned k w (turned_all k xs r) in
    let last : turned_all k (w ∷ ys) (turned_all k xs r)
        ≡ (rest.0, rest.1 + occurs k (all_came ys)) =
      unfold turned_all in turned_all-Other k ys rest after in
    (m', ran, each k room ∙ turned_all-append k xs (w ∷ ys) r ∙ last ∙ ground (arith, own))
