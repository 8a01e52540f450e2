-- ===== src/Loader.antt =====
-- user+ebpf/main/xdp_loader.c: the program in user space that ends the intervals of the split
-- version. The maps and the floating point are parameters.
pub mod Walk
mod Tests
pub mod Memory
pub mod Interval
pub mod Together
pub mod Reported
pub mod Rounds
pub mod Start
pub mod Startup
pub mod Races
pub mod Between
pub mod Racing
pub mod History
pub mod Trie
pub mod Flows
use fide.Base.{
  ℕ, zero, suc, ◌+◌, ◌-◌, ◌^◌, ◌≡◌, List, [], ◌∷◌, Option, none, some, ltb, ◌==◌, if◌then◌else◌,
  ◌>>=◌, Bool, add32, sub32, slt32, sle32,
}
use fide.HashMap.{lookup, store}
use fide.HashMap.Walk.{key_after, erase}
use fide.Split.{LoggerValue, DataValue}

-- The calls on the map `logger`: `bpf_map_lookup_elem`, `bpf_map_get_next_key`,
-- `bpf_map_update_elem` with BPF_ANY and `bpf_map_delete_elem`.
pub record MapCalls (M : Type 0) : Type 0 where
  pub lookup_elem : M → ℕ → Option LoggerValue
  pub get_next_key : M → ℕ → Option ℕ
  pub update_elem : ℕ → LoggerValue → M → M
  pub delete_elem : ℕ → M → M

-- Their documented behaviour, for a map whose entries, in the order of a walk, are `entries`.
pub record MapLaws {M : Type 0} (calls : MapCalls M) (entries : M → List (ℕ × LoggerValue))
    : Type 0 where
  pub lookup_law : (m : M) (k : ℕ) → calls.lookup_elem m k ≡ lookup k (entries m)
  pub next_law : (m : M) (k : ℕ) → calls.get_next_key m k ≡ key_after k (entries m)
  pub update_law :
      (m : M) (k : ℕ) (v w : LoggerValue)
      → lookup k (entries m) ≡ some w
      → entries (calls.update_elem k v m) ≡ store k v (entries m)
  pub delete_law : (m : M) (k : ℕ) → entries (calls.delete_elem k m) ≡ erase k (entries m)

-- `double` and the functions of the C library on it.
pub record Floats (F : Type 0) : Type 0 where
  pub from_int : ℕ → F
  pub plus : F → F → F
  pub minus : F → F → F
  pub times : F → F → F
  pub over : F → F → F
  pub log2 : F → F
  pub fabs : F → F
  pub less : F → F → Bool
  pub half : F
  pub one_and_half : F

-- `entpy->ent[i]` and `entpy->ip[i]`.
pub record Entpy (F : Type 0) : Type 0 where
  pub ent : F
  pub ip : ℕ

-- The walk over `logger`: the entries that were written, from the first on; the sum of their
-- entropies; the counter `i` after the loop; and what is left in `*logger_value`.
pub record Walked (F : Type 0) : Type 0 where
  pub entpy : List (Entpy F)
  pub entropy_all : F
  pub i : ℕ
  pub value : Option LoggerValue

-- What the loader's maps and variables hold.
pub record Loaded (M : Type 0) : Type 0 where
  pub logger : M
  pub data_entry : Option DataValue
  pub holder : ℕ
  pub beta : ℕ

-- A buffer after a call that fills it or leaves it: `none` is memory never written.
abbrev pub filled : Option LoggerValue → Option LoggerValue → Option LoggerValue
filled (some v) buffer = some v
filled none buffer = buffer

abbrev pub max_rounds : ℕ
max_rounds = 100000

module _ {M : Type 0} (calls : MapCalls M) where
  -- One source at the end of an interval, by what the lookup left in the buffer.
  unfoldable pub reset_one : ℕ → LoggerValue → M → M × LoggerValue
  reset_one key v m =
      if v.cur == 0
      then (calls.delete_elem key m, v)
      else (let v' = record v { prev = v.cur; cur = 0 } in (calls.update_elem key v' m, v'))

module _ {M F : Type 0} (calls : MapCalls M) (floats : Floats F) where
  open floats use {from_int, plus, minus, times, over, log2, fabs, less, half, one_and_half}

  abbrev pub minus_one : F
  minus_one = from_int (2 ^ 32 - 1)

  unfoldable pub entropy_of : DataValue → LoggerValue → F
  entropy_of d v =
      plus (times minus_one (log2 (over (from_int v.prev) (from_int d.prev_interval_pkt)))) (
        if sle32 v.cur v.prev
        then fabs (log2 (over (from_int v.cur) (from_int v.prev)))
        else fabs (log2 (over (from_int v.prev) (from_int v.cur))))

  abbrev pub written : DataValue → LoggerValue → ℕ → Entpy F
  written d v key = record { ent = entropy_of d v; ip = key }

  -- The loop of the walk; the first argument is how many rounds are left.
  unfoldable pub collect : ℕ → DataValue → M → ℕ → Option LoggerValue → ℕ → F → Option (Walked F)
  collect zero d m next_key buffer i all =
      some (record { entpy = []; entropy_all = all; i = i; value = buffer })
  collect (suc n) d m next_key buffer i all = do
    value ← filled (calls.lookup_elem m next_key) buffer
    elim (calls.get_next_key m next_key) [
      | none ↦ some (record {
        entpy = written d value next_key ∷ [];
        entropy_all = plus all (entropy_of d value);
        i = i;
        value = some value;
      })
      | some key ↦ do
        w ← collect n d m key (some value) (i + 1) (plus all (entropy_of d value))
        some (record w { entpy = written d value next_key ∷ w.entpy })
    ]

  -- The sum of the deviations over the first entries; a read of one never written is `none`.
  unfoldable pub sum_deviation : ℕ → List (Entpy F) → F → F → Option F
  sum_deviation zero es avg sum = some sum
  sum_deviation (suc n) [] avg sum = none
  sum_deviation (suc n) (e ∷ es) avg sum = sum_deviation n es avg (plus sum (minus e.ent avg))

  -- The changes of `beta`. What is compared with it adds nothing to the blacklist: the update is
  -- commented out.
  unfoldable pub adjust_beta : ℕ → List (Entpy F) → F → ℕ → Option ℕ
  adjust_beta zero es avg beta = some beta
  adjust_beta (suc n) [] avg beta = none
  adjust_beta (suc n) (e ∷ es) avg beta = adjust_beta n es avg (
      if less (times one_and_half avg) e.ent
      then add32 beta 1
      else if less e.ent (times half avg)
      then sub32 beta 1
      else beta)

  unfoldable pub reset_sources : ℕ → List (Entpy F) → M → Option LoggerValue → Option M
  reset_sources zero es m buffer = some m
  reset_sources (suc n) [] m buffer = none
  reset_sources (suc n) (e ∷ es) m buffer = do
    v ← filled (calls.lookup_elem m e.ip) buffer
    let (m', v') = reset_one calls e.ip v m
    reset_sources n es m' (some v')

  unfoldable pub walk : DataValue → M → Option (Walked F)
  walk d m = elim (calls.get_next_key m 0) [
    | none ↦ some (record { entpy = []; entropy_all = from_int 0; i = 1; value = none })
    | some key ↦ collect max_rounds d m key none 0 (from_int 0)
  ]

  -- `none` is a use of memory that was never written.
  unfoldable pub calculate_ent : Loaded M → Option (Loaded M)
  calculate_ent s = do
    d ← s.data_entry
    w ← walk d s.logger
    let avg = over w.entropy_all (from_int w.i)
    deviation ← sum_deviation w.i w.entpy avg (from_int 0)
    beta ← adjust_beta w.i w.entpy avg s.beta
    logger ← reset_sources (suc w.i) w.entpy s.logger w.value
    some (record {
      logger = logger;
      data_entry = some (record d { prev_interval_pkt = d.cur_interval_pkt; cur_interval_pkt = 0 });
      holder = add32 s.holder d.cur_interval_pkt;
      beta = beta;
    })
