-- ===== src/Ble/Gatt.antt =====
-- pipe/transport/ble/agcore_ble_gatt.c: the access callbacks. What is written is in the buffer chain of
-- NimBLE, whose bytes are an argument, as is whether they could be copied out.
pub mod Ownership
pub mod Services
use agcore.Prelude.{
  ℕ, ◌≡◌, ◌<◌, ◌+◌, refl, ap, sym, inl, inr, List, Option, none, some, Bool, true, false, ◌==◌,
  if◌then◌else◌, length, store, arith, Bool-cases, if_cases,
}
use agcore.Platform.{EspErr, esp_ok, is_ok, no_mem}
use agcore.Platform.Heap.{
  Block, Heap, Malloc, IsSized, Balanced, count_block, malloc, malloc_cases, free, free-Balanced,
}
use agcore.Platform.Queue.{QueueOps}
use agcore.Data.Queue.{RawData, DataState}
use agcore.Ble.{BleState, System}
use agcore.Ble.Pipe.{Timer, rx_data_handle}
use agcore.Ble.Pipe.Invariant.{IsSafe, rx_data_handle-IsSafe}

-- 0 and the codes `BLE_ATT_ERR_…`
pub data AttResult : Type 0 where
  att_ok att_invalid_attr_value_len att_insufficient_res att_unlikely : AttResult

abbrev pub att_result : EspErr → AttResult
att_result r = elim r [ esp_ok ↦ att_ok | no_mem ↦ att_insufficient_res | other ↦ att_unlikely ]

module _ {Q W : Type 0} where
  -- `agcore_free(data)`
  abbrev pub free_data : System Q W → Block → System Q W
  free_data s b = record s { layer = record s.layer { heap = free (some b) s.layer.heap } }

  abbrev pub with_heap : System Q W → Heap → System Q W
  with_heap s h = record s { layer = record s.layer { heap = h } }

-- The calls of the allocator for the bytes and for the message.
module _ {Q W : Type 0} (ops : QueueOps RawData Q) (m m' : Malloc) (max_len : ℕ) (t : Timer) where
  -- With the answer of the allocator.
  unfoldable pub copy_and_handle :
      System Q W → ℕ → List ℕ → Bool → Heap × Option Block → System Q W × AttResult
  copy_and_handle s conn_handle om copied (h, none) = (with_heap s h, att_insufficient_res)
  copy_and_handle s conn_handle om copied (h, some b) =
      if copied
      then (let (s', ret) =
            rx_data_handle ops m' max_len t (with_heap s h) conn_handle (some (store b.bytes 0 om))
              (length om) in
          (free_data s' b, att_result ret))
      else (free_data (with_heap s h) b, att_unlikely)

  unfoldable pub gatt_write_cb : System Q W → ℕ → List ℕ → Bool → System Q W × AttResult
  gatt_write_cb s conn_handle om copied =
      if length om == 0
      then ((rx_data_handle ops m' max_len t s conn_handle none 0).0, att_invalid_attr_value_len)
      else copy_and_handle s conn_handle om copied (malloc m (length om) s.layer.heap)

  abbrev pub gatt_dummy_cb : System Q W → System Q W × AttResult
  gatt_dummy_cb s = (s, att_ok)
