-- ===== src/Ble/Gap.antt =====
-- pipe/transport/ble/agcore_ble_gap.c. An event is what NimBLE tells; the handlers return the system.
use agcore.Prelude.{ℕ, Bool, not, ◌&&◌, ◌==◌, if◌then◌else◌}
use agcore.Data.Protocol.{data_link_reset}
use agcore.Ble.{
  mtu_timer_init, mtu_timer_reset, mtu_timer_stop, gap_terminate, gattc_exchange_mtu, svc_gap_init,
  adv_update, adv_start, BleState, System, call, link_ble, conn_handle_none, default_mtu,
}
use agcore.Ble.Pipe.{pipe_init, pipe_reset}

-- `struct ble_gap_event`, by its type: the status and the connection, the connection, the connection and
-- the value, and any other.
pub data GapEvent : Type 0 where
  connect : ℕ → ℕ → GapEvent
  disconnect : ℕ → GapEvent
  mtu : ℕ → ℕ → GapEvent
  other_event : GapEvent

abbrev pub get_mtu : BleState → ℕ
get_mtu s = s.gap_mtu

abbrev pub is_connected : BleState → Bool
is_connected s = not (s.conn_handle == conn_handle_none)

module _ {Q W : Type 0} where
  -- `agcore_data_link_reset(LINK_BLE)`
  abbrev pub reset_link : System Q W → System Q W
  reset_link s = record s {
    layer = record s.layer { links = data_link_reset s.layer.links link_ble };
  }

  unfoldable pub gap_mtu_exchange_initiate : System Q W → System Q W
  gap_mtu_exchange_initiate s =
      if (s.ble.gap_mtu == default_mtu) && not (s.ble.conn_handle == conn_handle_none)
      then record s { ble = call s.ble (gattc_exchange_mtu s.ble.conn_handle) }
      else s

  -- 500 milliseconds in ticks are an argument.
  unfoldable pub gap_connect_handle : ℕ → System Q W → ℕ → ℕ → System Q W
  gap_connect_handle ticks s status handle =
      if status == 0
      then if not (s.ble.conn_handle == conn_handle_none)
        then record s { ble = call s.ble (gap_terminate handle) }
        else (let clean = pipe_reset s in
            let opened = reset_link (record clean {
              ble = record clean.ble { gap_mtu = default_mtu; conn_handle = handle };
            }) in
            record opened { ble = call opened.ble (mtu_timer_reset ticks) })
      else s

  unfoldable pub gap_disconnect_handle : System Q W → ℕ → System Q W
  gap_disconnect_handle s handle =
      if not (handle == s.ble.conn_handle)
      then s
      else let clean = pipe_reset s in
        let closed = record (call clean.ble mtu_timer_stop) {
          gap_mtu = default_mtu;
          conn_handle = conn_handle_none;
        } in
        let link = reset_link (record clean { ble = closed }) in
        record link { ble = call (call link.ble adv_update) adv_start }

  unfoldable pub gap_mtu_handle : System Q W → ℕ → ℕ → System Q W
  gap_mtu_handle s handle value =
      if not (handle == s.ble.conn_handle)
      then s
      else record s { ble = call (record s.ble { gap_mtu = value }) mtu_timer_stop }

  unfoldable pub gap_event_cb : ℕ → System Q W → GapEvent → System Q W
  gap_event_cb ticks s (connect status handle) = gap_connect_handle ticks s status handle
  gap_event_cb ticks s (disconnect handle) = gap_disconnect_handle s handle
  gap_event_cb ticks s (mtu handle value) = gap_mtu_handle s handle value
  gap_event_cb ticks s other_event = s

  unfoldable pub gap_init : System Q W → System Q W
  gap_init s =
      let piped = pipe_init s in
      record piped { ble = call (call piped.ble svc_gap_init) mtu_timer_init }
