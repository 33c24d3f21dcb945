-- ===== src/Persist/Flash.antt =====
-- common/persist/agcore_flash.c: the data partition, which is looked up at each call.
use agcore.Prelude.{ℕ, List, Option, none, some}
use agcore.Platform.{EspErr, not_found}

-- The calls of esp_partition.h on a flash of type F: the data partition of the configured label, and what
-- reads, writes and erases in it.
pub record PartitionOps (F P : Type 0) : Type 0 where
  pub find_first : F → Option P
  pub read : F → P → ℕ → ℕ → EspErr × List ℕ
  pub write : F → P → ℕ → List ℕ → ℕ → F × EspErr
  pub erase_range : F → P → ℕ → ℕ → F × EspErr

module _ {F P : Type 0} (ops : PartitionOps F P) where
  unfoldable pub flash_get_partition : F → Option P
  flash_get_partition f = ops.find_first f

  -- The result, and the bytes that are read where there is a partition.
  unfoldable pub flash_read : F → ℕ → ℕ → EspErr × Option (List ℕ)
  flash_read f offset len = elim (flash_get_partition f) [
    | none ↦ (not_found, none)
    | some partition ↦ let (ret, bytes) = ops.read f partition offset len in (ret, some bytes)
  ]

  unfoldable pub flash_write : F → ℕ → List ℕ → ℕ → F × EspErr
  flash_write f offset bytes len = elim (flash_get_partition f) [
    | none ↦ (f, not_found)
    | some partition ↦ ops.write f partition offset bytes len
  ]

  unfoldable pub flash_erase : F → ℕ → ℕ → F × EspErr
  flash_erase f offset len = elim (flash_get_partition f) [
    | none ↦ (f, not_found)
    | some partition ↦ ops.erase_range f partition offset len
  ]
