-- ===== src/Split/Interleaving/Sequential.antt =====
-- Where every source has its entry already, any order of the steps leaves the maps as the handler
-- would, run for one packet after the other.
use mathlib.Core.Path.{subst}
use fide.Base.{
  ◌==◌, if◌then◌else◌, ℕ, zero, suc, ◌+◌, ◌≡◌, ◌≢◌, refl, sym, ap, ◌∙◌, arith, List, [], ◌∷◌, ◌++◌,
  Option, none, some, add32, length, length-append, Option-cases, inl, inr, Every, Every-split,
  Every-join, or_done,
}
use fide.HashMap.{lookup}
use fide.Split.{LoggerValue, DataValue, State, record_source, count_source}
use fide.Split.Interleaving.{
  Task, to_look, to_add, to_insert, add_one, act, placed, Places, Apart, Machine, Moves, arrive,
  advance, Runs, begin, continue,
}
use fide.Split.Interleaving.Listed.{
  one_more, add_one-one_more, one_more-kept, one_more-Apart, Ready, AllReady, act-found,
}

-- The handler counts a packet of an IPv4 source, then those before it.
abbrev pub handle : ℕ → State → State
handle k s = (count_source (s.blacklist (record { prefixlen = 32; address = k })) k s).1

-- The handler counts packets one after the other, the last source standing first.
unfoldable pub handle_all : List ℕ → State → State
handle_all [] s = s
handle_all (k ∷ ks) s = handle k (handle_all ks s)

-- How often a source stands in a list.
unfoldable pub occurs : ℕ → List ℕ → ℕ
occurs j [] = 0
occurs j (k ∷ ks) = if k == j then suc (occurs j ks) else occurs j ks

-- The sources of the packets that came, the last one first.
unfoldable pub came_then : {P : ℕ → Type 0} (m n : Machine) → Moves P m n → List ℕ → List ℕ
came_then m n (arrive _ k d p e room) ks = k ∷ ks
came_then m n (advance _ a b t free e unused) ks = ks

unfoldable pub came : {P : ℕ → Type 0} (m n : Machine) → Runs P m n → List ℕ
came m n (begin _) = []
came m n (continue _ u _ r x) = came_then u n x (came m u r)

abbrev source : Task → ℕ
source (to_look k) = k
source (to_add k element) = k
source (to_insert k) = k

-- For how many of the packets that are being counted the source is `j`.
unfoldable waits : ℕ → List Task → ℕ
waits j [] = 0
waits j (t ∷ ts) = if source t == j then suc (waits j ts) else waits j ts

waits-split :
    (j : ℕ) (a : List Task) (t : Task) (b : List Task)
    → waits j (a ++ t ∷ b) ≡ (if source t == j then suc (waits j (a ++ b)) else waits j (a ++ b))
unfolding waits
waits-split j [] t b = refl
waits-split j (x ∷ a) t b = ground (arith, waits-split j a t b)

unfoldable bump : Option DataValue → Option DataValue
bump none = none
bump (some d) = some (record d { cur_interval_pkt = add32 d.cur_interval_pkt 1 })

unfoldable later : ℕ → Option DataValue → Option DataValue
later zero o = o
later (suc n) o = bump (later n o)

later-bump : (n : ℕ) (o : Option DataValue) → later n (bump o) ≡ bump (later n o)
unfolding later
later-bump zero o = refl
later-bump (suc n) o = ap bump (later-bump n o)

-- The maps with `n` packets counted in the interval and not yet for their sources.
abbrev waiting : ℕ → State → State
waiting n s = record s { data_entry = later n s.data_entry }

handle-known :
    (k : ℕ) (u : State) (d : DataValue)
    → u.data_entry ≡ some d
    → lookup k u.logger ≢ none
    → handle k u ≡ record u { data_entry = bump u.data_entry; logger = one_more k u.logger }
unfolding count_source record_source one_more bump
handle-known k u d e h = elim (Option-cases (lookup k u.logger)) [
  | inl n ↦ absurd (h n)
  | inr (w, f) ↦ ground (arith, e, f)
]

module _ (P : ℕ → Type 0) (place : Places) (s : State) where
  -- The maps are those after the packets that are done, with the packets in the tasks counted in
  -- the interval; together these are the packets that came.
  record Reached (m : Machine) (cs : List ℕ) : Type 0 where
    done : List ℕ
    each : (j : ℕ) → occurs j done + waits j m.tasks ≡ occurs j cs
    known : (k : ℕ) → P k → lookup k m.kernel.logger ≢ none
    ready : AllReady P place m.tasks
    unmoved : m.place ≡ place
    apart : Apart place m.kernel.logger
    entry : DataValue
    is_entry : (handle_all done s).data_entry ≡ some entry
    state : m.kernel ≡ waiting (length m.tasks) (handle_all done s)

  looked :
      (cs : List ℕ) (m : Machine) (a b : List Task) (k x : ℕ)
      → m.tasks ≡ a ++ to_look k ∷ b
      → x ≡ place k
      → Reached m cs
      → Reached (record m { tasks = a ++ to_add k x ∷ b }) cs
  unfolding Every
  looked cs m a b k x e at w =
      let (before, here, after) =
        Every-split (Ready P place) a (to_look k) b (subst (AllReady P place) e w.ready) in
      let size : length m.tasks ≡ length (a ++ to_add k x ∷ b) =
        omega
          (arith, ap length e, length-append a (to_look k ∷ b), length-append a (to_add k x ∷ b)) in
      record {
        done = w.done;
        each = λ j.
            ap (λ n. occurs j w.done + n)
              (waits-split j a (to_add k x) b
                ∙ sym (waits-split j a (to_look k) b)
                ∙ sym (ap (waits j) e))
            ∙ w.each j;
        known = w.known;
        unmoved = w.unmoved;
        apart = w.apart;
        ready = Every-join (Ready P place) a (to_add k x ∷ b) before ((here, at), after);
        entry = w.entry;
        is_entry = w.is_entry;
        state = w.state ∙ ap (λ n. waiting n (handle_all w.done s)) size;
      }

  added :
      (cs : List ℕ) (m : Machine) (a b : List Task) (k x : ℕ)
      → m.tasks ≡ a ++ to_add k x ∷ b
      → Reached m cs
      → Reached
          (record m {
            kernel = record m.kernel { logger = one_more k m.kernel.logger };
            tasks = a ++ b;
          })
          cs
  unfolding Every occurs handle_all later bump
  added cs m a b k x e w =
      let (before, (here, _), after) =
        Every-split (Ready P place) a (to_add k x) b (subst (AllReady P place) e w.ready) in
      let h = handle_all w.done s in
      let n = length (a ++ b) in
      let size : length m.tasks ≡ suc n =
        omega (arith, ap length e, length-append a (to_add k x ∷ b), length-append a b) in
      let same : lookup k m.kernel.logger ≡ lookup k h.logger =
        ap (λ (x : State). lookup k x.logger) w.state in
      let one = handle-known k h w.entry w.is_entry (λ z. w.known k here (same ∙ z)) in
      let moved : m.kernel ≡ waiting (suc n) h = w.state ∙ ap (λ i. waiting i h) size in
      record {
        done = k ∷ w.done;
        each = λ j. ground (arith, w.each j, ap (waits j) e ∙ waits-split j a (to_add k x) b);
        known = known_after w here;
        unmoved = w.unmoved;
        apart = apart_after w here;
        ready = Every-join (Ready P place) a b before after;
        entry = record w.entry { cur_interval_pkt = add32 w.entry.cur_interval_pkt 1 };
        is_entry = ap (λ (x : State). x.data_entry) one ∙ ap bump w.is_entry;
        state =
            ap (λ (x : State). record x { logger = one_more k x.logger }) moved
            ∙ ap (λ o. record h { data_entry = o; logger = one_more k h.logger })
                (sym (later-bump n h.data_entry))
            ∙ ap (λ x. waiting n x) (sym one);
      }
    where
      known_after :
          Reached m cs → P k → (j : ℕ) → P j → lookup j (one_more k m.kernel.logger) ≢ none
      known_after w here j p = elim (Option-cases (lookup k m.kernel.logger)) [
        | inl none_there ↦ absurd (w.known k here none_there)
        | inr (v, f) ↦ one_more-kept j k v m.kernel.logger f (w.known j p)
      ]

      apart_after : Reached m cs → P k → Apart place (one_more k m.kernel.logger)
      apart_after w here = elim (Option-cases (lookup k m.kernel.logger)) [
        | inl none_there ↦ absurd (w.known k here none_there)
        | inr (v, f) ↦ one_more-Apart place k v m.kernel.logger f w.apart
      ]

  advanced :
      (cs : List ℕ) (m : Machine) (a b : List Task) (t : Task) (free : ℕ)
      → m.tasks ≡ a ++ t ∷ b
      → Reached m cs
      → Reached
          (record {
            kernel = record m.kernel { logger = (act t m.place m.kernel.logger).1 };
            place = placed free t m.place;
            tasks = a ++ or_done (act t m.place m.kernel.logger).0 b;
          })
          cs
  unfolding Every act placed
  advanced cs m a b (to_look k) free e w =
      let (_, here, _) =
        Every-split (Ready P place) a (to_look k) b (subst (AllReady P place) e w.ready) in
      elim (Option-cases (lookup k m.kernel.logger)) [
        | inl none_there ↦ absurd (w.known k here none_there)
        | inr (v, f) ↦
            subst
              (λ (r : Option Task × List (ℕ × LoggerValue)).
                Reached
                  (record m {
                    kernel = record m.kernel { logger = r.1 };
                    tasks = a ++ or_done r.0 b;
                  })
                  cs)
              (sym (act-found m.place k v m.kernel.logger f))
              (looked cs m a b k (m.place k) e (ap (λ (q : Places). q k) w.unmoved) w)
      ]
  advanced cs m a b (to_add k x) free e w =
      let (_, (here, at), _) =
        Every-split (Ready P place) a (to_add k x) b (subst (AllReady P place) e w.ready) in
      elim (Option-cases (lookup k m.kernel.logger)) [
        | inl none_there ↦ absurd (w.known k here none_there)
        | inr (v, f) ↦
            let found : one_more k m.kernel.logger ≡ add_one m.place x m.kernel.logger = sym (
              ap (λ (q : Places). add_one q x m.kernel.logger) w.unmoved
              ∙ ap (λ i. add_one place i m.kernel.logger) at
              ∙ add_one-one_more place k v m.kernel.logger w.apart f) in
            subst
              (λ l.
                Reached (record m { kernel = record m.kernel { logger = l }; tasks = a ++ b }) cs)
              found (added cs m a b k x e w)
      ]
  advanced cs m a b (to_insert k) free e w =
      let (_, here, _) =
        Every-split (Ready P place) a (to_insert k) b (subst (AllReady P place) e w.ready) in
      elim here [ ]

  Moves-Reached :
      (cs : List ℕ) (m n : Machine) (x : Moves P m n)
      → Reached m cs
      → Reached n (came_then m n x cs)
  unfolding Every later bump came_then waits occurs
  Moves-Reached cs m n (arrive _ k d p e room) w = record {
    done = w.done;
    each = λ j. ground (arith, w.each j);
    known = w.known;
    ready = (p, w.ready);
    unmoved = w.unmoved;
    apart = w.apart;
    entry = w.entry;
    is_entry = w.is_entry;
    state =
        ap (λ o. record m.kernel { data_entry = bump o }) (sym e)
        ∙ ap (λ (x : State). record x { data_entry = bump x.data_entry }) w.state;
  }
  Moves-Reached cs m n (advance _ a b t free e unused) w = advanced cs m a b t free e w

  Runs-Reached : (m n : Machine) (r : Runs P m n) → Reached m [] → Reached n (came m n r)
  unfolding came
  Runs-Reached m n (begin _) w = w
  Runs-Reached m n (continue _ u _ r x) w = Moves-Reached (came m u r) u n x (Runs-Reached m u r w)

-- The machine with these maps where no packet is being counted.
abbrev pub resting : State → Places → Machine
resting s place = record { kernel = s; place = place; tasks = [] }

-- Where every source that comes has its entry already, and no two entries stand in one element:
-- in whatever order the processors take their steps, once no packet is being counted, the maps are
-- those that the handler leaves when it counts the packets that came one after the other, each
-- source as often as it came; where the counts of the interval are there and their count does not
-- overflow.
pub Runs-Sequential :
    (P : ℕ → Type 0) (s t : State) (place q : Places) (d : DataValue)
    → s.data_entry ≡ some d
    → ((k : ℕ) → P k → lookup k s.logger ≢ none)
    → Apart place s.logger
    → (r : Runs P (resting s place) (resting t q))
    → (ks : List ℕ) × ((j : ℕ) → occurs j ks ≡ occurs j (came (resting s place) (resting t q) r))
      × (t ≡ handle_all ks s)
unfolding Every handle_all later waits occurs
Runs-Sequential P s t place q d e known apart r =
    let start : Reached P place s (resting s place) [] = record {
      done = [];
      each = λ j. refl;
      known = known;
      ready = tt;
      unmoved = refl;
      apart = apart;
      entry = d;
      is_entry = e;
      state = refl;
    } in
    let w = Runs-Reached P place s (resting s place) (resting t q) r start in
    (w.done, λ j. omega (arith, w.each j), w.state)
