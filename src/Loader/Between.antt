-- ===== src/Loader/Between.antt =====
-- Any packets that come while calculate_ent of xdp_loader.c treats one source.
use native.Mathlib.Decide.{ℕ_discrete}
use fide.Base.{
  ℕ, ◌≡◌, ◌≢◌, refl, sym, ap, ◌∙◌, arith, List, [], ◌∷◌, none, some, add32, ◌==◌, if◌then◌else◌,
  Option-cases, inl, inr,
}
use fide.HashMap.{lookup, store, add_entry, length-store}
use fide.HashMap.Walk.{erase}
use fide.HashMap.Laws.{
  store-store, store-store-other, erase-store, lookup-store, lookup-store-other,
  lookup-upsert-other,
}
use fide.Split.{LoggerValue, record_source, new_value, logger_max_entries}
use fide.Split.Sources.{record_source-upsert}
use fide.Loader.{reset_one}
use fide.Split.Interleaving.{insert_any}
use fide.Loader.Memory.{table_calls}

-- The packets are counted for these sources, the first one first.
unfoldable pub record_all : List ℕ → List (ℕ × LoggerValue) → List (ℕ × LoggerValue)
record_all [] m = m
record_all (j ∷ js) m = record_all js (record_source j m)

-- The sources without one of them.
unfoldable pub others : ℕ → List ℕ → List ℕ
others k [] = []
others k (j ∷ js) = if j == k then others k js else j ∷ others k js

pub record_source-found :
    (k : ℕ) (v : LoggerValue) (m : List (ℕ × LoggerValue))
    → lookup k m ≡ some v
    → record_source k m ≡ store k (record v { cur = add32 v.cur 1 }) m
unfolding record_source
record_source-found k v m e = ground arith

pub record_source-missing :
    (k : ℕ) (m : List (ℕ × LoggerValue))
    → lookup k m ≡ none
    → record_source k m ≡ add_entry logger_max_entries k new_value m
unfolding record_source
record_source-missing k m e = ground arith

pub lookup-record_source-other :
    (j k : ℕ) (m : List (ℕ × LoggerValue)) → j ≢ k → lookup k (record_source j m) ≡ lookup k m
lookup-record_source-other j k m h =
    rw (record_source-upsert j m) (lookup-upsert-other _ new_value logger_max_entries j k m h)

store-record_source-other :
    (j k : ℕ) (u : LoggerValue) (m : List (ℕ × LoggerValue))
    → j ≢ k
    → store k u (record_source j m) ≡ record_source j (store k u m)
store-record_source-other j k u m h = elim (Option-cases (lookup j m)) [
  | inl e ↦
      rw
        (
          record_source-missing j m e,
          record_source-missing j (store k u m) (lookup-store-other j k u m h ∙ e),
        )
        (unfold add_entry store in ground (arith, length-store k u m))
  | inr (v, e) ↦
      rw
        (
          record_source-found j v m e,
          record_source-found j v (store k u m) (lookup-store-other j k u m h ∙ e),
        )
        (store-store-other j k u (record v { cur = add32 v.cur 1 }) m h)
]

store-record_source :
    (k : ℕ) (u v : LoggerValue) (m : List (ℕ × LoggerValue))
    → lookup k m ≡ some v
    → store k u (record_source k m) ≡ store k u m
store-record_source k u v m e =
    rw (record_source-found k v m e) (store-store k (record v { cur = add32 v.cur 1 }) u m)

-- Still present.
kept_present :
    (j k : ℕ) (v : LoggerValue) (m : List (ℕ × LoggerValue))
    → lookup k m ≡ some v
    → (w : LoggerValue) × (lookup k (record_source j m) ≡ some w)
kept_present j k v m e = elim (ℕ_discrete j k) [
  | no h ↦ (v, lookup-record_source-other j k m h ∙ e)
  | yes h ↦
      let u = record v { cur = add32 v.cur 1 } in
      (
        u,
        ap (λ i. lookup k (record_source i m)) h
            ∙ ap (λ t. lookup k t) (record_source-found k v m e)
            ∙ lookup-store k u v m e,
      )
]

pub all_present :
    (js : List ℕ) (k : ℕ) (v : LoggerValue) (m : List (ℕ × LoggerValue))
    → lookup k m ≡ some v
    → (w : LoggerValue) × (lookup k (record_all js m) ≡ some w)
unfolding record_all
all_present [] k v m e = (v, e)
all_present (j ∷ js) k v m e =
    let (w, f) = kept_present j k v m e in all_present js k w (record_source j m) f

-- A write to a source covers what was counted for it, and nothing else.
store-record_all :
    (js : List ℕ) (k : ℕ) (u v : LoggerValue) (m : List (ℕ × LoggerValue))
    → lookup k m ≡ some v
    → store k u (record_all js m) ≡ record_all (others k js) (store k u m)
unfolding record_all others
store-record_all [] k u v m e = refl
store-record_all (j ∷ js) k u v m e =
    let (w, f) = kept_present j k v m e in
    let rest = store-record_all js k u w (record_source j m) f in
    elim (ℕ_discrete j k) [
      | yes h ↦
          let here : store k u (record_source j m) ≡ store k u m =
            ap (λ i. store k u (record_source i m)) h ∙ store-record_source k u v m e in
          ground (arith, rest ∙ ap (λ t. record_all (others k js) t) here)
      | no h ↦
          ground (
            arith,
            rest ∙ ap (λ t. record_all (others k js) t) (store-record_source-other j k u m h),
          )
    ]

others-others : (k : ℕ) (js : List ℕ) → others k (others k js) ≡ others k js
unfolding others
others-others k [] = refl
others-others k (j ∷ js) = ground (arith, others-others k js)

-- The write for a source, by the entries without what they say of it.
reset_one-covered :
    (k : ℕ) (v x y : LoggerValue) (m n : List (ℕ × LoggerValue))
    → lookup k m ≡ some x
    → lookup k n ≡ some y
    → ((u : LoggerValue) → store k u m ≡ store k u n)
    → reset_one table_calls k v m ≡ reset_one table_calls k v n
unfolding reset_one insert_any
reset_one-covered k v x y m n e f same =
    let erased : erase k m ≡ erase k n =
      sym (erase-store k v m) ∙ ap (erase k) (same v) ∙ erase-store k v n in
    ground (arith, e, f, same (record v { prev = v.cur; cur = 0 }), erased)

-- Of the packets that are counted, for any sources, between the loader's read of a source and its
-- write or deletion of it, exactly those of this source are lost: the sources are the same after
-- the write as if only the others had come.
pub packets_lost :
    (k : ℕ) (v : LoggerValue) (m : List (ℕ × LoggerValue)) (js : List ℕ)
    → lookup k m ≡ some v
    → reset_one table_calls k v (record_all js m)
      ≡ reset_one table_calls k v (record_all (others k js) m)
packets_lost k v m js e =
    let (x, f) = all_present js k v m e in
    let (y, g) = all_present (others k js) k v m e in
    let same : (u : LoggerValue)
        → store k u (record_all js m) ≡ store k u (record_all (others k js) m) =
      λ u.
        store-record_all js k u v m e
        ∙ sym (
            store-record_all (others k js) k u v m e
            ∙ ap (λ t. record_all t (store k u m)) (others-others k js)) in
    reset_one-covered k v x y (record_all js m) (record_all (others k js) m) f g same
