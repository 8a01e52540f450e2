-- ===== src/Loader/Interval.antt =====
-- What calculate_ent of xdp_loader.c does to the counts.
use fide.Base.{
  ℕ, suc, ◌≤◌, ◌≡◌, ◌≢◌, inl, inr, refl, ◌∙◌, ap, arith, List, [], none, some, length, List-cases,
  add32,
}
use fide.HashMap.{lookup}
use fide.HashMap.Walk.{Distinct, nil-Apart}
use fide.Split.{LoggerValue, DataValue}
use fide.Loader.{MapCalls, MapLaws, Floats, Loaded, reset_sources, calculate_ent, max_rounds}
use fide.Loader.Walk.{
  next_interval, walk-flows, length-flows, sum_deviation-some, adjust_beta-some, reset-entries,
}

-- An end of interval on a map that has sources, none of them 0.0.0.0, no one twice and no more
-- than the loop has rounds: it is defined, the sources without a packet go, the others start at
-- zero with their count as the previous one, the count of the interval is moved likewise, and
-- added to the number that is reported.
pub calculate_ent_lem :
    {M F : Type 0} (calls : MapCalls M) (entries : M → List (ℕ × LoggerValue))
    → MapLaws calls entries
    → (floats : Floats F) (s : Loaded M) (d : DataValue) → s.data_entry ≡ some d
    → entries s.logger ≢ []
    → Distinct (entries s.logger)
    → lookup 0 (entries s.logger) ≡ none
    → length (entries s.logger) ≤ max_rounds
    → (t : Loaded M) × (calculate_ent calls floats s ≡ some t)
      × (entries t.logger ≡ next_interval (entries s.logger))
      × (t.data_entry
          ≡ some (record d { prev_interval_pkt = d.cur_interval_pkt; cur_interval_pkt = 0 }))
      × (t.holder ≡ add32 s.holder d.cur_interval_pkt)
unfolding calculate_ent
calculate_ent_lem calls entries laws floats s d e full u z h =
    elim (List-cases (entries s.logger)) [
      | inl nil ↦ absurd (full nil)
      | inr ((k, v), rest, c) ↦
          let (w, ran, es, last) =
            walk-flows calls entries laws floats d s.logger k v rest c u z h in
          let size : length w.entpy ≡ length (entries s.logger) =
            ap length es ∙ length-flows calls entries laws floats d (entries s.logger) in
          let avg = floats.over w.entropy_all (floats.from_int w.i) in
          let (deviation, sd) =
            sum_deviation-some calls entries laws floats d w.i w.entpy avg (floats.from_int 0)
              (omega arith) in
          let (beta, ab) =
            adjust_beta-some calls entries laws floats d w.i w.entpy avg s.beta (omega arith) in
          let (m, rs, after) =
            reset-entries calls entries laws floats d (entries s.logger) s.logger [] w.value refl
              (nil-Apart (entries s.logger)) u in
          let reset : reset_sources calls floats (suc w.i) w.entpy s.logger w.value ≡ some m =
            ap (λ n. reset_sources calls floats n w.entpy s.logger w.value)
              {y = length (entries s.logger)} (omega arith)
            ∙ ap (λ xs. reset_sources calls floats (length (entries s.logger)) xs s.logger w.value)
                es
            ∙ rs in
          (
            record {
              logger = m;
              data_entry =
                  some (record d { prev_interval_pkt = d.cur_interval_pkt; cur_interval_pkt = 0 });
              holder = add32 s.holder d.cur_interval_pkt;
              beta = beta;
            },
            rw e (rw ran (rw sd (rw ab (rw reset refl)))),
            after,
            refl,
            refl,
          )
    ]
