-- ===== src/Kernel/Racing.antt =====
-- Packets that several processors count at once in fully_in-kernel/main/xdp_prog_kern.c: the
-- packet count of the interval and its width, `int_bits`, by the steps on the map, and their reset
-- at the end of an interval. A read, a write or a lock_xadd is not divided, and `int_bits` is read
-- before `cur_interval_pkt`; C leaves their order open.
pub mod Growth
pub mod Fits
pub mod Twice
pub mod Late
mod Tests
use fide.Base.{
  ℕ, zero, suc, ◌+◌, ◌-◌, ◌*◌, ◌^◌, ◌≤◌, ◌<◌, ◌≡◌, refl, sym, ap, ◌∙◌, arith, List, [], ◌∷◌, ◌++◌,
  Bool, Option, none, some, ◌>>=◌, add32, sub32, shl32, slt32, ltb, ◌==◌, if◌then◌else◌, Every,
  Every-split, Every-join, or_done, pow_suc, pow_pos,
}
use fide.Kernel.Types.{DataValue}
use fide.Kernel.Interval.{count_packet}

-- What a processor does next for a packet that it has added to the interval's count: read
-- `int_bits`, read the count and compare it, or add to `int_bits`; and, where it ends the
-- interval, read the count, store it as the previous one, set the count to zero, set `int_bits`.
pub data Task : Type 0 where
  to_read to_grow to_keep to_clear to_narrow : Task
  to_compare to_store : ℕ → Task

-- `cur_interval_pkt > (1 << (int_bits - 1)) - 1`
unfoldable pub exceeds : ℕ → ℕ → Option Bool
exceeds bits cur = do limit ← shl32 1 (sub32 bits 1); some (slt32 (sub32 limit 1) cur)

-- The three writes at the end of an interval.
abbrev pub store_prev : ℕ → DataValue → DataValue
store_prev count d = record d { prev_interval_pkt = count }

abbrev pub clear_cur : DataValue → DataValue
clear_cur d = record d { cur_interval_pkt = 0 }

abbrev pub set_int_bits : DataValue → DataValue
set_int_bits d = record d { int_bits = 4 }

unfoldable pub act : Task → DataValue → Option (Option Task × DataValue)
act to_read d = some (some (to_compare d.int_bits), d)
act (to_compare bits) d = do
  more ← exceeds bits d.cur_interval_pkt
  some (if more then some to_grow else none, d)
act to_grow d = some (none, record d { int_bits = add32 d.int_bits 1 })
act to_keep d = some (some (to_store d.cur_interval_pkt), d)
act (to_store count) d = some (some to_clear, store_prev count d)
act to_clear d = some (some to_narrow, clear_cur d)
act to_narrow d = some (none, set_int_bits d)

-- The last steps of the counting.
abbrev pub IsLast : Task → Type 0
IsLast to_grow = Unit
IsLast (to_compare bits) = Unit
IsLast to_read = ⊥
IsLast to_keep = ⊥
IsLast (to_store count) = ⊥
IsLast to_clear = ⊥
IsLast to_narrow = ⊥

-- Without a step of another packet in between, the steps are those of the handler.
pub count_packet-steps :
    (d : DataValue)
    → count_packet d ≡ (do
      let e = record d { cur_interval_pkt = add32 d.cur_interval_pkt 1 }
      more ← exceeds e.int_bits e.cur_interval_pkt
      some (if more then record e { int_bits = add32 e.int_bits 1 } else e))
unfolding count_packet exceeds
count_packet-steps d = ground arith

pub record Machine : Type 0 where
  pub counts : DataValue
  pub tasks : List Task

-- A packet comes; a processor takes its next step, where it is defined; or it is done with the
-- counting and goes on to end the interval.
pub data Moves : Machine → Machine → Type 0 where
  arrive :
      (m : Machine)
      → m.counts.cur_interval_pkt + 1 < 2 ^ 31
      → Moves m (record {
        counts = record m.counts { cur_interval_pkt = add32 m.counts.cur_interval_pkt 1 };
        tasks = to_read ∷ m.tasks;
      })
  advance :
      (m : Machine) (a b : List Task) (t : Task) (o : Option Task) (d : DataValue)
      → m.tasks ≡ a ++ t ∷ b
      → m.counts.int_bits + 1 < 2 ^ 32
      → act t m.counts ≡ some (o, d)
      → Moves m (record { counts = d; tasks = a ++ or_done o b })
  claim :
      (m : Machine) (a b : List Task) (t : Task) (d : DataValue)
      → m.tasks ≡ a ++ t ∷ b
      → IsLast t
      → m.counts.int_bits + 1 < 2 ^ 32
      → act t m.counts ≡ some (none, d)
      → Moves m (record { counts = d; tasks = a ++ to_keep ∷ b })

pub data Runs : Machine → Machine → Type 0 where
  begin : (m : Machine) → Runs m m
  continue : (m n k : Machine) → Runs m n → Moves n k → Runs m k
