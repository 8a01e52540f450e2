-- ===== src/Loader/Rounds.antt =====
-- The loop of `main` of xdp_loader.c, once a second: what it reports, and when.
use fide.Base.{
  ℕ, ◌+◌, ◌^◌, ◌<◌, ◌≡◌, ◌∙◌, ap, refl, arith, List, [], ◌∷◌, Option, none, some, length, ◌==◌,
  if◌then◌else◌, add32, slt32, true,
}

-- `count` and `holder` after calculate_ent, and the number that is printed, if one is.
unfoldable pub report : ℕ → ℕ → ℕ × ℕ × Option ℕ
report count holder =
    let count' = if slt32 0 holder then add32 count 1 else count in
    if count' == 11 then (0, 0, some holder) else (count', holder, none)

abbrev pub printed : Option ℕ → List ℕ → List ℕ
printed none out = out
printed (some n) out = n ∷ out

-- Rounds in which calculate_ent adds these numbers to `holder`: what is printed, and the variables
-- after them.
unfoldable pub rounds : List ℕ → ℕ → ℕ → List ℕ × ℕ × ℕ
rounds [] count holder = ([], count, holder)
rounds (n ∷ ns) count holder =
    let (count', holder', out) = report count (add32 holder n) in
    let (outs, c, h) = rounds ns count' holder' in (printed out outs, c, h)

unfoldable pub sum : List ℕ → ℕ
sum [] = 0
sum (n ∷ ns) = n + sum ns

slt32-small : (h : ℕ) → 0 < h → h < 2 ^ 31 → slt32 0 h ≡ true
slt32-small h pos small = ground arith

report_goes :
    (count h : ℕ) → 0 < h → h < 2 ^ 31 → count < 10 → report count h ≡ (count + 1, h, none)
unfolding report
report_goes count h pos small c = rw (slt32-small h pos small) (ground arith)

report_prints : (h : ℕ) → 0 < h → h < 2 ^ 31 → report 10 h ≡ (0, 0, some h)
unfolding report
report_prints h pos small = rw (slt32-small h pos small) refl

add32-small : (h n : ℕ) → h + n < 2 ^ 31 → add32 h n ≡ h + n
add32-small h n small = omega arith

-- One round, by what is reported in it.
rounds-cons :
    (n : ℕ) (ns : List ℕ) (count holder count' holder' : ℕ) (out : Option ℕ)
    → report count (add32 holder n) ≡ (count', holder', out)
    → rounds (n ∷ ns) count holder ≡ (
      printed out (rounds ns count' holder').0,
      (rounds ns count' holder').1,
      (rounds ns count' holder').2,
    )
unfolding rounds
rounds-cons n ns count holder count' holder' out e = rw e refl

rounds_from :
    (n : ℕ) (ns : List ℕ) (count holder : ℕ)
    → 0 < holder + n
    → count + length (n ∷ ns) ≡ 11
    → holder + sum (n ∷ ns) < 2 ^ 31
    → rounds (n ∷ ns) count holder ≡ ((holder + sum (n ∷ ns)) ∷ [], 0, 0)
unfolding rounds sum
rounds_from n [] count holder pos last small =
    let h = add32-small holder n (omega arith) in
    let c : count ≡ 10 = omega arith in
    rounds-cons n [] count holder 0 0 (some (holder + n)) (
      ap (λ k. report count k) h
      ∙ ap (λ k. report k (holder + n)) c
      ∙ report_prints (holder + n) pos (omega arith))
    ∙ ap (λ t. (t ∷ [], 0, 0)) (omega arith)
rounds_from n (m ∷ ns) count holder pos more small =
    let h = add32-small holder n (omega arith) in
    let ih = rounds_from m ns (count + 1) (holder + n) (omega arith) (omega arith) (omega arith) in
    rounds-cons n (m ∷ ns) count holder (count + 1) (holder + n) none
      (ap (λ k. report count k) h ∙ report_goes count (holder + n) pos (omega arith) (omega arith))
    ∙ ap (λ (r : List ℕ × ℕ × ℕ). (r.0, r.1, r.2)) ih
    ∙ ap (λ t. (t ∷ [], 0, 0)) (omega arith)

-- From a fresh start, the eleventh round from the first one with packets on prints the number of
-- packets of these eleven rounds, no round before it prints anything, and both variables are zero
-- again; where that number is below 2 ^ 31.
pub eleventh_reports :
    (n : ℕ) (ns : List ℕ)
    → 0 < n
    → length ns ≡ 10
    → sum (n ∷ ns) < 2 ^ 31
    → rounds (n ∷ ns) 0 0 ≡ (sum (n ∷ ns) ∷ [], 0, 0)
eleventh_reports n ns pos ten small =
    rounds_from n ns 0 0 (omega arith) (omega arith) (omega arith)
    ∙ ap (λ t. (t ∷ [], 0, 0)) (omega arith)

-- Rounds without packets print nothing and do not count.
pub quiet_rounds : (ns : List ℕ) → sum ns ≡ 0 → rounds ns 0 0 ≡ ([], 0, 0)
unfolding rounds report sum
quiet_rounds [] h = refl
quiet_rounds (n ∷ ns) h = ground (arith, quiet_rounds ns)
