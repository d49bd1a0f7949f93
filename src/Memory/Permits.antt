-- ===== src/Memory/Permits.antt =====
-- `acquire_transfer_memory` and `TransferMemoryPermit` of src/core/sync/mod.rs. The counter is the
-- program's; `permits` are the permits that are alive, by their bytes.
use auto_sync.Prelude.{
  ℕ, ◌+◌, ◌-◌, ◌*◌, ◌^◌, ◌≡◌, ◌<◌, Bool, false, ◌&&◌, List, [], ◌∷◌, ◌++◌, ltb, min,
}

abbrev pub transfer_memory_budget : ℕ
transfer_memory_budget = 1024 * 1024 * 1024

-- On u64.
abbrev pub saturating_add : ℕ → ℕ → ℕ
saturating_add a b = min (a + b) (2 ^ 64 - 1)

-- The condition of the `while` loop.
unfoldable pub must_wait : ℕ → ℕ → Bool
must_wait used bytes = ltb 0 used && ltb transfer_memory_budget (saturating_add used bytes)

unfoldable pub reserve : ℕ → ℕ → ℕ
reserve used bytes = saturating_add used bytes

-- `drop` of a permit
unfoldable pub release : ℕ → ℕ → ℕ
release used bytes = used - bytes

pub record Memory : Type 0 where
  pub used : ℕ
  pub permits : List ℕ

-- A thread that does not have to wait takes its permit, and any living permit may be dropped.
pub data Reached : Memory → Type 0 where
  start : Reached (record { used = 0; permits = [] })
  acquire :
      (m : Memory) (bytes : ℕ)
      → Reached m
      → bytes < 2 ^ 64
      → must_wait m.used bytes ≡ false
      → Reached (record { used = reserve m.used bytes; permits = bytes ∷ m.permits })
  drop :
      (used bytes : ℕ) (before after : List ℕ)
      → Reached (record { used = used; permits = before ++ bytes ∷ after })
      → Reached (record { used = release used bytes; permits = before ++ after })
