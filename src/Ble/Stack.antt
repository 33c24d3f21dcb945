-- ===== src/Ble/Stack.antt =====
-- pipe/transport/ble/agcore_ble.c: the callbacks of the NimBLE host, and the start of the transport.
use agcore.Prelude.{ℕ, Bool, true, false, Option, some, none, not, if◌then◌else◌}
use agcore.Platform.{EspErr, esp_ok, esp_fail, no_mem, is_ok}
use agcore.Data.Queue.{data_send_register}
use agcore.Ble.{
  gatt_init, adv_init, adv_update, adv_start, System, call, link_ble, conn_handle_none, default_mtu,
}
use agcore.Ble.Pipe.{pipe_reset}
use agcore.Ble.Gap.{gap_init}

-- The statics: whether the host task exists, the type of the address, and whether the stack is ready.
pub record Stack (Q W : Type 0) : Type 0 where
  pub host_task : Bool
  pub addr_type : ℕ
  pub ready : Bool
  pub system : System Q W

module _ {Q W : Type 0} where
  unfoldable pub on_stack_reset_cb : Stack Q W → Stack Q W
  on_stack_reset_cb s =
      let clean = pipe_reset s.system in
      record s {
        ready = false;
        system = record clean {
          ble = record clean.ble { conn_handle = conn_handle_none; gap_mtu = default_mtu };
        };
      }

  -- The answers: the type of the address, where it could be inferred, and whether it could be copied.
  unfoldable pub on_stack_sync_cb : Option ℕ → Bool → Stack Q W → Stack Q W
  on_stack_sync_cb none copied s = s
  on_stack_sync_cb (some addr_type) copied s =
      if not copied
      then record s { addr_type = addr_type }
      else let opened = gap_init s.system in
        record s {
          addr_type = addr_type;
          ready = true;
          system = record opened {
            ble = call (call (call (call opened.ble gatt_init) adv_init) adv_update) adv_start;
          };
        }

  -- The answers: of `nimble_port_init`, and whether the task could be created.
  unfoldable pub nimble_init : EspErr → Bool → Stack Q W → Stack Q W × EspErr
  nimble_init port created s =
      if not (is_ok port)
      then (s, port)
      else if s.host_task
      then (s, esp_ok)
      else if created
      then (record s { host_task = true }, esp_ok)
      else (s, no_mem)

  -- `notify_cb` is the address of agcore_ble_notify.
  unfoldable pub ble_init : ℕ → EspErr → Bool → Stack Q W → Stack Q W × EspErr
  ble_init notify_cb port created s =
      let registered = record s {
        system = record s.system {
          layer = record s.system.layer {
            links = data_send_register s.system.layer.links link_ble (some notify_cb);
          };
        };
      } in
      let (s', ret) = nimble_init port created registered in
      (s', (if is_ok ret then esp_ok else esp_fail))
