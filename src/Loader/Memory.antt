-- ===== src/Loader/Memory.antt =====
-- The hash table of the XDP program meets what xdp_loader.c relies on.
use fide.Base.{ℕ, ◌≡◌, refl, arith, List, some}
use fide.HashMap.{lookup, store}
use fide.HashMap.Walk.{key_after, erase}
use fide.Split.{LoggerValue}
use fide.Split.Interleaving.{insert_any}
use fide.Loader.{MapCalls, MapLaws}

abbrev pub table_calls : MapCalls (List (ℕ × LoggerValue))
table_calls = record {
  lookup_elem = λ m k. lookup k m;
  get_next_key = λ m k. key_after k m;
  update_elem = insert_any;
  delete_elem = erase;
}

abbrev pub all_entries : List (ℕ × LoggerValue) → List (ℕ × LoggerValue)
all_entries m = m

insert_any-present :
    (m : List (ℕ × LoggerValue)) (k : ℕ) (v w : LoggerValue)
    → lookup k m ≡ some w
    → insert_any k v m ≡ store k v m
unfolding insert_any
insert_any-present m k v w h = ground arith

pub table-MapLaws : MapLaws table_calls all_entries
table-MapLaws = record {
  lookup_law = λ m k. refl;
  next_law = λ m k. refl;
  update_law = insert_any-present;
  delete_law = λ m k. refl;
}
