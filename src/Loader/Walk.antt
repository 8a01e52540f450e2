-- ===== src/Loader/Walk.antt =====
-- The loops of calculate_ent of xdp_loader.c over the sources.
use mathlib.Core.List.{append_assoc}
use mathlib.Core.Path.{subst}
use fide.Base.{
  ℕ, zero, suc, ◌+◌, ◌<◌, ◌≤◌, ◌≡◌, refl, sym, ◌∙◌, ap, arith, inl, inr, List, [], ◌∷◌, ◌++◌,
  Option, none, some, length, ◌==◌, if◌then◌else◌, Bool-cases, true, false,
}
use fide.HashMap.{lookup, store}
use fide.HashMap.Walk.{
  first_key, key_after, erase, Distinct, Apart, nil-Apart, lookup-at, key_after-at, store-at,
  erase-at, snoc-Apart,
}
use fide.Split.{LoggerValue, DataValue}
use fide.Loader.{
  MapCalls, MapLaws, Floats, Entpy, Walked, entropy_of, written, collect, sum_deviation,
  adjust_beta, reset_one, reset_sources, walk, max_rounds,
}

-- The sources at the end of an interval: those without a packet go, the others start at zero.
unfoldable pub next_interval : List (ℕ × LoggerValue) → List (ℕ × LoggerValue)
next_interval [] = []
next_interval ((k, v) ∷ m) =
    let rest = next_interval m in
    if v.cur == 0 then rest else (k, record v { prev = v.cur; cur = 0 }) ∷ rest

module _ {M F : Type 0} (calls : MapCalls M) (entries : M → List (ℕ × LoggerValue))
    (laws : MapLaws calls entries) (floats : Floats F) (d : DataValue) where
  -- What the walk writes for the entries of the map.
  unfoldable pub flows : List (ℕ × LoggerValue) → List (Entpy F)
  flows [] = []
  flows ((k, v) ∷ m) = written calls floats d v k ∷ flows m

  found :
      (m : M) (before : List (ℕ × LoggerValue)) (k : ℕ) (v : LoggerValue)
      (rest : List (ℕ × LoggerValue))
      → entries m ≡ before ++ (k, v) ∷ rest
      → lookup k before ≡ none
      → (calls.lookup_elem m k ≡ some v) × (calls.get_next_key m k ≡ first_key rest)
  found m before k v rest e a = (
    laws.lookup_law m k ∙ ap (λ es. lookup k es) e ∙ lookup-at before k v rest a,
    laws.next_law m k ∙ ap (λ es. key_after k es) e ∙ key_after-at before k v rest a,
  )

  collect-flows :
      (n : ℕ) (m : M) (before : List (ℕ × LoggerValue)) (k : ℕ) (v : LoggerValue)
      (rest : List (ℕ × LoggerValue)) (buffer : Option LoggerValue) (i : ℕ) (all : F)
      → entries m ≡ before ++ (k, v) ∷ rest
      → Apart before ((k, v) ∷ rest)
      → Distinct ((k, v) ∷ rest)
      → length rest < n
      → (w : Walked F) × (collect calls floats n d m k buffer i all ≡ some w)
        × (w.entpy ≡ flows ((k, v) ∷ rest))
        × (w.i ≡ i + length rest)
  unfolding collect flows Apart Distinct first_key
  collect-flows zero m before k v rest buffer i all e a u h = absurd (omega arith)
  collect-flows (suc n) m before k v [] buffer i all e (fresh, a) u h =
      let (hit, end) = found m before k v [] e fresh in
      (
        record {
          entpy = written calls floats d v k ∷ [];
          entropy_all = floats.plus all (entropy_of calls floats d v);
          i = i;
          value = some v;
        },
        rw hit (rw end refl),
        refl,
        omega arith,
      )
  collect-flows (suc n) m before k v ((k2, v2) ∷ rest) buffer i all e (fresh, a) (once, u) h =
      let (hit, next) = found m before k v ((k2, v2) ∷ rest) e fresh in
      let (w, ran, es, last) =
        collect-flows n m (before ++ (k, v) ∷ []) k2 v2 rest (some v) (i + 1)
          (floats.plus all (entropy_of calls floats d v))
          (e ∙ sym (append_assoc before ((k, v) ∷ []) ((k2, v2) ∷ rest)))
          (snoc-Apart before k v ((k2, v2) ∷ rest) a once) u (omega arith) in
      (
        record w { entpy = written calls floats d v k ∷ w.entpy },
        rw hit (rw next (rw ran refl)),
        ap (λ xs. written calls floats d v k ∷ xs) es,
        omega arith,
      )

  -- A source without a packet is deleted, another one starts the next interval at zero.
  reset-gone :
      (m : M) (before : List (ℕ × LoggerValue)) (k : ℕ) (v : LoggerValue)
      (rest : List (ℕ × LoggerValue))
      → entries m ≡ before ++ (k, v) ∷ rest
      → lookup k before ≡ none
      → (v.cur == 0) ≡ true
      → entries (reset_one calls k v m).0 ≡ before ++ rest
  unfolding reset_one
  reset-gone m before k v rest e a z =
      rw z (laws.delete_law m k ∙ ap (λ es. erase k es) e ∙ erase-at before k v rest a)

  reset-kept :
      (m : M) (before : List (ℕ × LoggerValue)) (k : ℕ) (v : LoggerValue)
      (rest : List (ℕ × LoggerValue))
      → entries m ≡ before ++ (k, v) ∷ rest
      → lookup k before ≡ none
      → (v.cur == 0) ≡ false
      → entries (reset_one calls k v m).0 ≡ before ++ (k, record v { prev = v.cur; cur = 0 }) ∷ rest
  unfolding reset_one
  reset-kept m before k v rest e a z =
      let new = record v { prev = v.cur; cur = 0 } in
      rw z (
        laws.update_law m k new v (ap (λ es. lookup k es) e ∙ lookup-at before k v rest a)
        ∙ ap (λ es. store k new es) e
        ∙ store-at before k v new rest a)

  pub reset-entries :
      (rest : List (ℕ × LoggerValue)) (m : M) (before : List (ℕ × LoggerValue))
      (buffer : Option LoggerValue)
      → entries m ≡ before ++ rest
      → Apart before rest
      → Distinct rest
      → (m' : M) × (reset_sources calls floats (length rest) (flows rest) m buffer ≡ some m')
        × (entries m' ≡ before ++ next_interval rest)
  unfolding reset_sources flows next_interval Apart Distinct
  reset-entries [] m before buffer e a u = (m, refl, e)
  reset-entries ((k, v) ∷ rest) m before buffer e (fresh, a) (once, u) =
      let hit = (found m before k v rest e fresh).0 in
      let (left, v') = reset_one calls k v m in
      elim (Bool-cases (v.cur == 0)) [
        | inl z ↦
            let (m', ran, es) =
              reset-entries rest left before (some v') (reset-gone m before k v rest e fresh z) a
                u in
            (m', rw hit ran, (es ∙ rw z refl))
        | inr z ↦
            let new = record v { prev = v.cur; cur = 0 } in
            let (m', ran, es) =
              reset-entries rest left (before ++ (k, new) ∷ []) (some v')
                (reset-kept m before k v rest e fresh z
                  ∙ sym (append_assoc before ((k, new) ∷ []) rest))
                (snoc-Apart before k new rest a once) u in
            (
              m',
              rw hit ran,
              (es ∙ append_assoc before ((k, new) ∷ []) (next_interval rest) ∙ rw z refl),
            )
      ]

  pub sum_deviation-some :
      (n : ℕ) (es : List (Entpy F)) (avg sum : F)
      → n ≤ length es
      → (r : F) × (sum_deviation calls floats n es avg sum ≡ some r)
  unfolding sum_deviation
  sum_deviation-some zero es avg sum h = (sum, refl)
  sum_deviation-some (suc n) [] avg sum h = absurd (omega arith)
  sum_deviation-some (suc n) (e ∷ es) avg sum h = sum_deviation-some n es avg _ (omega arith)

  pub adjust_beta-some :
      (n : ℕ) (es : List (Entpy F)) (avg : F) (beta : ℕ)
      → n ≤ length es
      → (r : ℕ) × (adjust_beta calls floats n es avg beta ≡ some r)
  unfolding adjust_beta
  adjust_beta-some zero es avg beta h = (beta, refl)
  adjust_beta-some (suc n) [] avg beta h = absurd (omega arith)
  adjust_beta-some (suc n) (e ∷ es) avg beta h = adjust_beta-some n es avg _ (omega arith)

  pub length-flows : (m : List (ℕ × LoggerValue)) → length (flows m) ≡ length m
  unfolding flows
  length-flows [] = refl
  length-flows ((k, v) ∷ m) = ap suc (length-flows m)

  walk-start :
      (m : M) (k : ℕ)
      → calls.get_next_key m 0 ≡ some k
      → walk calls floats d m ≡ collect calls floats max_rounds d m k none 0 (floats.from_int 0)
  unfolding walk
  walk-start m k h = ground arith

  -- The walk ends by itself on every map of at most `max_rounds` entries: it writes one entry for
  -- each source, in order, and leaves `i` at the last.
  pub walk-flows :
      (m : M) (k : ℕ) (v : LoggerValue) (rest : List (ℕ × LoggerValue))
      → entries m ≡ (k, v) ∷ rest
      → Distinct (entries m)
      → lookup 0 (entries m) ≡ none
      → length (entries m) ≤ max_rounds
      → (w : Walked F) × (walk calls floats d m ≡ some w)
        × (w.entpy ≡ flows (entries m))
        × (w.i + 1 ≡ length (entries m))
  unfolding key_after first_key
  walk-flows m k v rest e u z h =
      let start : calls.get_next_key m 0 ≡ some k = laws.next_law m 0 ∙ ground (arith, e) in
      let (w, ran, es, last) =
        collect-flows max_rounds m [] k v rest none 0 (floats.from_int 0) e
          (nil-Apart ((k, v) ∷ rest)) (subst Distinct (e) u) (omega (arith, ap length e)) in
      (w, walk-start m k start ∙ ran, es ∙ ap flows (sym e), omega (arith, ap length e))
