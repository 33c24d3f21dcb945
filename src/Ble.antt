-- ===== src/Ble.antt =====
-- pipe/transport/ble: the statics of its files, and the calls of NimBLE that they make.
pub mod Pipe
pub mod Gap
pub mod Notify
pub mod Gatt
pub mod Stack
pub mod Adv
pub mod Host
use agcore.Prelude.{ℕ, ◌+◌, List, [], ◌∷◌, ◌++◌, Bool}
use agcore.Data.Queue.{DataState}

-- `LINK_BLE`
abbrev pub link_ble : ℕ
link_ble = 1

-- `BLE_HS_CONN_HANDLE_NONE`
abbrev pub conn_handle_none : ℕ
conn_handle_none = 65535

-- The MTU of a new connection.
abbrev pub default_mtu : ℕ
default_mtu = 23

-- The calls of NimBLE that tell it to do something.
pub data Call : Type 0 where
  -- The timer of the reassembly, and the one of the MTU exchange.
  rx_timer_init rx_timer_stop mtu_timer_init mtu_timer_stop : Call
  rx_timer_reset mtu_timer_reset : ℕ → Call
  gap_terminate : ℕ → Call
  gattc_exchange_mtu : ℕ → Call
  svc_gap_init gatt_init adv_init adv_update adv_start : Call

-- The statics of agcore_ble_pipe.c and agcore_ble_gap.c, and the calls that were made, the first first.
pub record BleState : Type 0 where
  pub initialized : Bool
  pub session : ℕ
  pub rx_last_tick : ℕ
  pub gap_mtu : ℕ
  pub conn_handle : ℕ
  pub calls : List Call

-- The transport and the layer below it.
pub record System (Q W : Type 0) : Type 0 where
  pub ble : BleState
  pub layer : DataState Q W

abbrev pub call : BleState → Call → BleState
call s c = record s { calls = s.calls ++ (c ∷ []) }
