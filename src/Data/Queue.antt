-- ===== src/Data/Queue.antt =====
-- pipe/data/agcore_data.c: the receive queue with its task, and sending. The queue and what stands
-- outside of the layer are arguments; the lock of a link makes each call of `data_send` one step.
pub mod Send
pub mod Receive
pub mod Delivery
use agcore.Prelude.{
  ℕ, zero, suc, ◌+◌, ◌-◌, List, [], ◌∷◌, Option, none, some, Bool, true, false, not, ◌&&◌, ◌||◌,
  ◌==◌, ltb, u16, if◌then◌else◌, length, get_elem?, set,
}
use agcore.Platform.{EspErr, esp_ok, esp_fail, no_mem, invalid_arg, invalid_state}
use agcore.Platform.Heap.{Block, Heap, Malloc, malloc, free}
use agcore.Platform.Queue.{QueueOps}
use agcore.Data.Types.{
  Data, LinkContext, Links, rawdata_overhead, rawdata_payload_max_len, is_bad_link,
}
use agcore.Data.Protocol.{is_null, rawdata_encode, rawdata_decode}
use agcore.Data.Route.{Node, route_handler}

-- `agcore_rawdata_t`
pub record RawData : Type 0 where
  pub link : ℕ
  pub len : ℕ
  pub buf : Block

-- The statics of the layer, with the heap and with what stands outside of it.
pub record DataState (Q W : Type 0) : Type 0 where
  pub links : Links
  pub queue : Option Q
  pub task : Bool
  pub nodes : List Node
  pub heap : Heap
  pub world : W

-- `AGCORE_DATA_QUEUE_LENGTH`
abbrev pub data_queue_length : ℕ
data_queue_length = 8

-- `agcore_data_t data = {.link = raw.link}`
abbrev pub empty_data : ℕ → Data
empty_data link = record { link = link; sn = 0; payload_len = 0; payload = none }

module _ {Q W : Type 0} (ops : QueueOps RawData Q) where
  unfoldable pub data_push : DataState Q W → ℕ → Option Block → ℕ → DataState Q W × EspErr
  data_push s link none raw_len = (s, invalid_arg)
  data_push s link (some raw) raw_len =
      if (raw_len == 0) || is_bad_link s.links link then (s, invalid_arg) else elim s.queue [
        | none ↦ (s, invalid_state)
        | some q ↦ elim (ops.send q (record { link = link; len = raw_len; buf = raw })) [
          | none ↦ (s, no_mem)
          | some q' ↦ (record s { queue = some q' }, esp_ok)
        ]
      ]

  -- What the task does with an item that was taken.
  unfoldable pub handle_raw :
      (ℕ → Data → DataState Q W → DataState Q W) → DataState Q W → RawData → DataState Q W
  handle_raw call s raw =
      let (links', d, n) =
        rawdata_decode s.links (some raw.buf.bytes) raw.len (some (empty_data raw.link)) in
      let decoded = record s { links = links' } in
      let routed = if n == 0 then decoded else route_handler (λ t. t.nodes) call d decoded in
      record routed { heap = free (some raw.buf) routed.heap }

  -- One round of `agcore_data_task`.
  unfoldable pub data_task_step :
      (ℕ → Data → DataState Q W → DataState Q W) → DataState Q W → DataState Q W
  data_task_step call s = elim s.queue [
    | none ↦ s
    | some q ↦ elim (ops.receive q) [
      | none ↦ s
      | some o ↦ handle_raw call (record s { queue = some o.1 }) o.0
    ]
  ]

unfoldable pub data_send_register : Links → ℕ → Option ℕ → Links
data_send_register links link cb =
    if is_bad_link links link then links else elim (get_elem? links link) [
      | none ↦ links
      | some c ↦ set links link (record c { send_cb = cb })
    ]

-- A send callback: what it does with the first bytes of a buffer, and its answer.
abbrev pub Transport : Type 0 → Type 0
Transport W = ℕ → List ℕ → ℕ → W → W × EspErr

module _ {Q W : Type 0} (m : Malloc) (transport : Transport W) where
  -- What the encoder left is given to the callback; a buffer that is there stays there.
  unfoldable pub submit : DataState Q W → ℕ → Links × Option (List ℕ) × ℕ → DataState Q W × EspErr
  submit s cb (links', none, len) = (record s { links = links' }, esp_fail)
  submit s cb (links', some bytes, len) =
      if len == 0
      then (record s { links = links' }, esp_fail)
      else let (w, ret) = transport cb bytes len s.world in
        (record s { links = links'; world = w }, ret)

  -- Between taking the lock and giving it back.
  unfoldable pub send_locked : DataState Q W → LinkContext → Data → List ℕ → DataState Q W × EspErr
  send_locked s c d buf = elim c.send_cb [
    | none ↦ (s, invalid_state)
    | some cb ↦ submit s cb (rawdata_encode s.links (some d) (some buf))
  ]

  -- With the answer of the allocator.
  unfoldable pub finish_send :
      DataState Q W → LinkContext → Data → Heap × Option Block → DataState Q W × EspErr
  finish_send s c d (h, none) = (record s { heap = h }, no_mem)
  finish_send s c d (h, some b) =
      let (sent, ret) = send_locked (record s { heap = h }) c d b.bytes in
      (record sent { heap = free (some b) sent.heap }, ret)

  unfoldable pub data_send : DataState Q W → Option Data → DataState Q W × EspErr
  data_send s none = (s, invalid_arg)
  data_send s (some d) =
      if (ltb 0 d.payload_len && is_null d.payload)
        || is_bad_link s.links d.link
        || ltb rawdata_payload_max_len d.payload_len
      then (s, invalid_arg)
      else elim (get_elem? s.links d.link) [
        | none ↦ (s, invalid_arg)
        | some c ↦
            if c.send_lock
            then finish_send s c d (malloc m (u16 (d.payload_len + rawdata_overhead)) s.heap)
            else (s, invalid_state)
      ]

-- The answers of FreeRTOS to the creation of the locks, the queue and the task.
pub record Creation (Q : Type 0) : Type 0 where
  pub mutex : ℕ → Bool
  pub queue : ℕ → Option Q
  pub task : Bool

-- The loop over the links from one on, with the rounds left: the links, and whether all locks exist.
unfoldable pub create_locks : (ℕ → Bool) → ℕ → ℕ → Links → Links × Bool
create_locks mutex zero link links = (links, true)
create_locks mutex (suc rounds) link links = elim (get_elem? links link) [
  | none ↦ (links, true)
  | some c ↦
      if c.send_lock
      then create_locks mutex rounds (link + 1) links
      else if mutex link
      then create_locks mutex rounds (link + 1) (set links link (record c { send_lock = true }))
      else (links, false)
]

module _ {Q W : Type 0} (create : Creation Q) where
  unfoldable pub create_queue : DataState Q W → DataState Q W
  create_queue s = elim s.queue [
    | none ↦ record s { queue = create.queue data_queue_length }
    | some q ↦ s
  ]

  unfoldable pub data_queue_init : DataState Q W → DataState Q W × EspErr
  data_queue_init s =
      let (links', ok) = create_locks create.mutex (length s.links - 1) 1 s.links in
      let locked = record s { links = links' } in
      let queued = create_queue locked in
      if not ok
      then (locked, no_mem)
      else if is_null queued.queue
      then (queued, no_mem)
      else if queued.task
      then (queued, esp_ok)
      else if create.task
      then (record queued { task = true }, esp_ok)
      else (queued, no_mem)
