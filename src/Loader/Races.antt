-- ===== src/Loader/Races.antt =====
-- A packet that comes while calculate_ent of xdp_loader.c treats its source, and the end of an
-- interval without sources.
use fide.Base.{ℕ, ◌≡◌, ap, ◌∙◌, arith, List, [], none, some, add32}
use fide.HashMap.{lookup}
use fide.HashMap.Walk.{key_after, first_key}
use fide.HashMap.Laws.{store-store, erase-store, lookup-store}
use fide.Split.{LoggerValue, record_source}
use fide.Loader.{MapCalls, MapLaws, Floats, Loaded, reset_one, walk, sum_deviation, calculate_ent}
use fide.Split.Interleaving.{insert_any}
use fide.Loader.Memory.{table_calls}

-- A packet of a source that is counted between the loader's read of that source and its write is
-- lost: the sources are the same after the write as without the packet.
pub packet_lost :
    (k : ℕ) (v : LoggerValue) (m : List (ℕ × LoggerValue))
    → lookup k m ≡ some v
    → reset_one table_calls k v (record_source k m) ≡ reset_one table_calls k v m
unfolding reset_one insert_any record_source
packet_lost k v m h =
    let u = record v { cur = add32 v.cur 1 } in
    let w = record v { prev = v.cur; cur = 0 } in
    ground (arith, lookup-store k u v m h, store-store k u w m, erase-store k u m)

-- At the end of an interval without sources calculate_ent uses memory that was never written.
pub calculate_ent_empty :
    {M F : Type 0} (calls : MapCalls M) (entries : M → List (ℕ × LoggerValue))
    → MapLaws calls entries
    → (floats : Floats F) (s : Loaded M) → entries s.logger ≡ []
    → calculate_ent calls floats s ≡ none
unfolding calculate_ent walk sum_deviation lookup key_after first_key
calculate_ent_empty calls entries laws floats s h =
    let last : calls.get_next_key s.logger 0 ≡ none =
      laws.next_law s.logger 0 ∙ ap (λ es. key_after 0 es) h in
    ground (arith, last)
