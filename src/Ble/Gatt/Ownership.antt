-- ===== src/Ble/Gatt/Ownership.antt =====
-- pipe/transport/ble/agcore_ble_gatt.c: the block of a write is freed on each way out.
use agcore.Prelude.{
  ℕ, ◌<◌, ◌+◌, ◌∙◌, inl, inr, List, ◌∷◌, none, some, Bool, ◌==◌, length, store, arith, Bool-cases,
}
use agcore.Platform.Heap.{Block, Heap, Malloc, IsSized, count_block, malloc_cases, free-Balanced}
use agcore.Platform.Queue.{QueueOps}
use agcore.Data.Queue.{RawData}
use agcore.Data.Queue.Receive.{queue_blocks}
use agcore.Data.Route.Registration.{node_blocks}
use agcore.Ble.{System}
use agcore.Ble.Pipe.{Timer, rx_data_handle}
use agcore.Ble.Pipe.Invariant.{IsSafe, rx_data_handle-IsSafe}
use agcore.Ble.Gatt.{free_data, with_heap, copy_and_handle, gatt_write_cb}

module _ {Q W : Type 0} (ops : QueueOps RawData Q) (max_len : ℕ) (others : ℕ → ℕ) (faults : ℕ) where
  -- One more block that is another owner's while the bytes are handled.
  abbrev Around : Block → System Q W → Type 0
  Around b s = IsSafe ops max_len (λ a. others a + count_block a (some b)) faults s.layer

  freed-IsSafe :
      (s : System Q W) (b : Block)
      → Around b s
      → IsSafe ops max_len others faults (free_data s b).layer
  freed-IsSafe s b v =
      let left : ℕ → ℕ = λ a.
        (others a + count_block a v.state.fragment.buf)
        + (node_blocks s.layer.nodes a + queue_blocks ops s.layer.queue a) in
      let freed = free-Balanced (some b) s.layer.heap left (λ a. omega (arith, v.owned a)) in
      record {
        state = v.state;
        at = v.at;
        owned = freed.0;
        shaped = v.shaped;
        no_fault = freed.1 ∙ v.no_fault;
      }

  got-Around :
      (s : System Q W) (b : Block)
      → IsSafe ops max_len others faults s.layer
      → Around b (with_heap s (record s.layer.heap { live = b.addr ∷ s.layer.heap.live }))
  got-Around s b v = record {
    state = v.state;
    at = v.at;
    owned = λ a. omega (arith, v.owned a);
    shaped = v.shaped;
    no_fault = v.no_fault;
  }

  -- Whatever is written, and whatever the allocator, the buffers, the queue and the timer answer to it,
  -- the block of the copy is freed once, and everything else is owned as before.
  pub gatt_write_cb-IsSafe :
      (m m' : Malloc) (t : Timer) (s : System Q W) (conn_handle : ℕ) (om : List ℕ) (copied : Bool)
      → IsSized m'
      → max_len < 65536
      → IsSafe ops max_len others faults s.layer
      → IsSafe ops max_len others faults
          (gatt_write_cb ops m m' max_len t s conn_handle om copied).0.layer
  unfolding gatt_write_cb copy_and_handle
  gatt_write_cb-IsSafe m m' t s conn_handle om copied sized w v =
      elim (Bool-cases (length om == 0)) [
        | inl e ↦
            rw e
              (rx_data_handle-IsSafe ops max_len others m' t s conn_handle none 0 faults sized w v)
        | inr e ↦ rw e (
            malloc_cases
              (λ o.
                IsSafe ops max_len others faults
                  (copy_and_handle ops m m' max_len t s conn_handle om copied o).0.layer)
              m (length om) s.layer.heap (λ f. v)
              (λ b f.
                let h : Heap = record s.layer.heap { live = b.addr ∷ s.layer.heap.live } in
                elim (Bool-cases copied) [
                  | inl k ↦ rw k (
                      freed-IsSafe
                        (rx_data_handle ops m' max_len t (with_heap s h) conn_handle
                          (some (store b.bytes 0 om)) (length om)).0
                        b
                        (rx_data_handle-IsSafe ops max_len (λ a. others a + count_block a (some b))
                          m' t (with_heap s h) conn_handle (some (store b.bytes 0 om)) (length om)
                          faults sized w (got-Around s b v)))
                  | inr k ↦ rw k (freed-IsSafe (with_heap s h) b (got-Around s b v))
                ]))
      ]
