-- ===== src/Memory/Tests.antt =====
-- An oversized buffer alone, then two small ones.
use auto_sync.Prelude.{ℕ, ◌*◌, ◌≡◌, refl, true, false, [], ◌∷◌, arith}
use auto_sync.Memory.Permits.{
  Memory, Reached, start, acquire, drop, must_wait, reserve, release, transfer_memory_budget,
}
use auto_sync.Memory.Budget.{Kept, Kept-Reached, must_wait-Reached}

abbrev huge : ℕ
huge = transfer_memory_budget * 4

abbrev one_huge : Memory
one_huge = record { used = huge; permits = huge ∷ [] }

abbrev all_dropped : Memory
all_dropped = record { used = 0; permits = [] }

abbrev two_small : Memory
two_small = record { used = 2048; permits = 1024 ∷ 1024 ∷ [] }

small_waits : must_wait one_huge.used 1024 ≡ true
unfolding must_wait
small_waits = refl

abbrev huge_reached : Reached one_huge
unfolding must_wait reserve
huge_reached = acquire all_dropped huge start (omega arith) refl

abbrev dropped_reached : Reached all_dropped
unfolding release
dropped_reached = drop huge huge [] [] huge_reached

abbrev small_reached : Reached two_small
unfolding must_wait reserve
small_reached =
    acquire (record { used = 1024; permits = 1024 ∷ [] }) 1024
      (acquire all_dropped 1024 dropped_reached (omega arith) refl) (omega arith) refl

Kept-Reached_example : Kept two_small
Kept-Reached_example = Kept-Reached two_small small_reached

must_wait-Reached_example : must_wait all_dropped.used huge ≡ false
must_wait-Reached_example = must_wait-Reached all_dropped huge dropped_reached refl
