-- ===== src/Ble/Pipe.antt =====
-- pipe/transport/ble/agcore_ble_pipe.c: receiving. What NimBLE answers is an argument.
pub mod Invariant
use agcore.Prelude.{
  ℕ, ◌+◌, ◌-◌, ◌^◌, List, [], ◌∷◌, ◌++◌, Option, none, some, Bool, true, false, not, ◌&&◌, ◌==◌,
  ltb, if◌then◌else◌, u32,
}
use agcore.Platform.{EspErr, esp_ok, is_ok, no_mem, invalid_arg, invalid_state}
use agcore.Platform.Heap.{Block, Heap, Malloc}
use agcore.Platform.Queue.{QueueOps}
use agcore.Data.Types.{FragmentState, ProtocolState, protocol_state_get, protocol_state_put}
use agcore.Data.Fragment.{FragmentResult, error, more, complete, no_memory, clear, fragment_receive}
use agcore.Data.Queue.{RawData, DataState, data_push}
use agcore.Ble.{
  Call, rx_timer_init, rx_timer_reset, rx_timer_stop, BleState, System, call, link_ble,
}

-- The time, the timeout in ticks, and whether the timer could be set.
pub record Timer : Type 0 where
  pub now : ℕ
  pub timeout : ℕ
  pub is_set : Bool

module _ {Q W : Type 0} where
  -- The fragment state of the link is written back, with the heap.
  abbrev pub put_fragment : DataState Q W → ProtocolState → Heap × FragmentState → DataState Q W
  put_fragment s state (h, f) = record s {
    heap = h;
    links = protocol_state_put s.links link_ble (record state { fragment = f });
  }

  -- `agcore_fragment_reset(&state->fragment)`
  abbrev pub reset_fragment : DataState Q W → DataState Q W
  reset_fragment s = elim (protocol_state_get s.links link_ble) [
    | none ↦ s
    | some state ↦ put_fragment s state (clear s.heap state.fragment)
  ]

  -- Where a message is in the works.
  unfoldable pub timeout_running : Timer → System Q W → System Q W
  timeout_running t s =
      let elapsed = u32 (t.now + 2 ^ 32 - s.ble.rx_last_tick) in
      if ltb elapsed t.timeout
      then (let asked = record s { ble = call s.ble (rx_timer_reset (t.timeout - elapsed)) } in
          if t.is_set then asked else record asked { layer = reset_fragment s.layer })
      else record s { layer = reset_fragment s.layer }

  unfoldable pub fragment_timeout_cb : Timer → System Q W → System Q W
  fragment_timeout_cb t s = elim (protocol_state_get s.layer.links link_ble) [
    | none ↦ s
    | some state ↦ elim state.fragment.buf [ none ↦ s | some b ↦ timeout_running t s ]
  ]

  unfoldable pub pipe_init : System Q W → System Q W
  pipe_init s =
      if s.ble.initialized
      then s
      else record s { ble = record (call s.ble rx_timer_init) { initialized = true } }

  unfoldable pub pipe_reset : System Q W → System Q W
  pipe_reset s =
      let ended = record s.ble { session = u32 (s.ble.session + 1) } in
      record s {
        ble = if s.ble.initialized then call ended rx_timer_stop else ended;
        layer = reset_fragment s.layer;
      }

  -- After the push of a complete message; on success the queue owns the block.
  abbrev pub after_push :
      ProtocolState → FragmentState → DataState Q W × EspErr → DataState Q W × EspErr
  after_push state f (s, ret) =
      let left = if is_ok ret then record f { buf = none } else f in
      (put_fragment s state (clear s.heap left), ret)

module _ {Q W : Type 0} (ops : QueueOps RawData Q) where
  -- With the outcome of the reassembly, of which the heap and the state are written back.
  unfoldable pub rx_result :
      Timer
      → System Q W
      → ProtocolState
      → Heap × FragmentState × FragmentResult
      → System Q W × EspErr
  rx_result t s state (h, f, more) =
      let ble = call (record s.ble { rx_last_tick = t.now }) (rx_timer_reset t.timeout) in
      let data' = put_fragment s.layer state (h, f) in
      if t.is_set
      then (record { ble = ble; layer = data' }, esp_ok)
      else (record { ble = ble; layer = put_fragment s.layer state (clear h f) }, invalid_state)
  rx_result t s state (h, f, complete) =
      let (data', ret) =
        after_push state f
          (data_push ops (record s.layer { heap = h }) link_ble f.buf f.total_len) in
      (record { ble = call s.ble rx_timer_stop; layer = data' }, ret)
  rx_result t s state (h, f, no_memory) =
      (record { ble = call s.ble rx_timer_stop; layer = put_fragment s.layer state (h, f) }, no_mem)
  rx_result t s state (h, f, error) = (
    record { ble = call s.ble rx_timer_stop; layer = put_fragment s.layer state (h, f) },
    invalid_arg,
  )

  -- The limit is CONFIG_AGCORE_BLE_MESSAGE_MAX_LEN.
  unfoldable pub rx_data_handle :
      Malloc → ℕ → Timer → System Q W → ℕ → Option (List ℕ) → ℕ → System Q W × EspErr
  rx_data_handle m max_len t s conn_handle p len =
      if not (conn_handle == s.ble.conn_handle)
      then (s, invalid_state)
      else elim (protocol_state_get s.layer.links link_ble) [
        | none ↦ (s, invalid_state)
        | some state ↦
            rx_result t s state (fragment_receive m s.layer.heap state.fragment p len max_len)
      ]
