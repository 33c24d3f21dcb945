-- ===== src/Tests/Ble.antt =====
-- pipe/transport/ble at concrete inputs.
use agcore.Prelude.{
  ℕ, ◌≡◌, ◌≢◌, refl, List, [], ◌∷◌, Option, none, some, true, replicate, length, length-replicate,
  arith, if◌then◌else◌, ◌==◌, subst,
}
use agcore.Platform.{esp_ok}
use agcore.Platform.Heap.{Block, IsSized}
use agcore.Data.Types.{ProtocolState, protocol_state_get}
use agcore.Data.Fragment.{fragment_encode}
use agcore.Utils.Bytes.{put_bytes16}
use agcore.Data.Fragment.Receive.{fragment}
use agcore.Data.Fragment.Reassembly.{deliver}
use agcore.Data.Queue.{RawData}
use agcore.Ble.{BleState, System, conn_handle_none}
use agcore.Ble.Pipe.{Timer, rx_data_handle}
use agcore.Ble.Gatt.{gatt_write_cb}
use agcore.Ble.Gatt.Ownership.{gatt_write_cb-IsSafe}
use agcore.Ble.Pipe.Invariant.{IsSafe, rx_data_handle-IsSafe}
use agcore.Ble.Gap.{connect, disconnect, gap_event_cb}
use agcore.Ble.Host.{
  here, onward, written, gap, Reaches-IsSafe, IsFresh, gap_disconnect-IsFresh, gap_connect-IsFresh,
}
use agcore.Ble.Notify.{accepted, again, Attempt, notify_loop, notify}
use agcore.Ble.Notify.Delivery.{notify-returns, notify-deliver, HasMessage}
use agcore.Tests.Queue.{list_ops, Outside, state, gives, ble_context}
use agcore.Tests.Protocol.{sending_state}

-- A message of seven bytes of which three have arrived.
abbrev in_works : ProtocolState
in_works = record sending_state {
  fragment = record {
    buf = some (record { addr = 6; bytes = 1 ∷ 2 ∷ 3 ∷ 0 ∷ 0 ∷ 0 ∷ 0 ∷ [] });
    total_len = 7;
    received_len = 3;
  };
}

abbrev ble : BleState
ble = record {
  initialized = true;
  session = 4;
  rx_last_tick = 100;
  gap_mtu = 23;
  conn_handle = 1;
  calls = [];
}

abbrev system : System (List RawData) Outside
system = record {
  ble = ble;
  layer = record state {
    links = ble_context ∷ record ble_context { protocol = in_works } ∷ [];
    heap = record { live = 2 ∷ 9 ∷ 4 ∷ 6 ∷ []; faults = 0 };
  };
}

abbrev timer : Timer
timer = record { now = 200; timeout = 500; is_set = true }

abbrev other : ℕ → ℕ
other a = if a == 4 then 1 else 0

gives-IsSized : IsSized gives
gives-IsSized n b e =
    subst (λ (o : Option Block). elim o [ none ↦ n ≡ n | some k ↦ length k.bytes ≡ n ]) e
      (length-replicate n 0)

link_state : protocol_state_get system.layer.links 1 ≡ some in_works
unfolding protocol_state_get
link_state = refl

system-IsSafe : IsSafe list_ops 4096 other 0 system.layer
system-IsSafe = record {
  state = in_works;
  at = link_state;
  owned = λ a. ground arith;
  shaped = (refl, omega arith, omega arith, omega arith);
  no_fault = refl;
}

rx_data_handle-IsSafe_example :
    IsSafe list_ops 4096 other 0
      (rx_data_handle list_ops gives 4096 timer system 1
        (some (fragment 7 3 (4 ∷ 5 ∷ [])))
        6).0.layer
rx_data_handle-IsSafe_example =
    rx_data_handle-IsSafe list_ops 4096 other gives timer system 1
      (some (fragment 7 3 (4 ∷ 5 ∷ []))) 6 0 gives-IsSized (omega arith) system-IsSafe

abbrev after_write : System (List RawData) Outside
after_write =
    (gatt_write_cb list_ops gives gives 4096 timer system 1 (fragment 7 3 (4 ∷ 5 ∷ [])) true).0

abbrev after_end : System (List RawData) Outside
after_end = gap_event_cb 50 after_write (disconnect 1)

gatt_write_cb-IsSafe_example : IsSafe list_ops 4096 other 0 after_write.layer
gatt_write_cb-IsSafe_example =
    gatt_write_cb-IsSafe list_ops 4096 other 0 gives gives timer system 1
      (fragment 7 3 (4 ∷ 5 ∷ [])) true gives-IsSized (omega arith) system-IsSafe

Reaches-IsSafe_example : IsSafe list_ops 4096 other 0 after_end.layer
Reaches-IsSafe_example =
    Reaches-IsSafe list_ops 4096 other 0 system after_end (omega arith)
      (onward system after_write after_end
        (written gives gives timer system 1 (fragment 7 3 (4 ∷ 5 ∷ [])) true gives-IsSized)
        (onward after_write after_end after_end (gap 50 after_write (disconnect 1))
          (here after_end)))
      system-IsSafe

gap_disconnect-IsFresh_example : IsFresh conn_handle_none 5 (gap_event_cb 50 system (disconnect 1))
gap_disconnect-IsFresh_example = gap_disconnect-IsFresh 50 system in_works link_state

abbrev alone : System (List RawData) Outside
alone = record system { ble = record ble { conn_handle = conn_handle_none } }

gap_connect-IsFresh_example : IsFresh 8 5 (gap_event_cb 50 alone (connect 0 8))
gap_connect-IsFresh_example = gap_connect-IsFresh 50 alone in_works 8 link_state refl

abbrev good : Attempt
good = record { from_flat = true; appended = true; session_now = 4; result = accepted }

-- The second attempt finds no buffer.
abbrev answers : ℕ → Attempt
answers k = if k == 1 then record good { result = again } else good

abbrev long_message : List ℕ
long_message = replicate 20 7

abbrev two_packets : List (List ℕ)
two_packets = fragment 20 0 (replicate 16 7) ∷ fragment 20 16 (replicate 4 7) ∷ []

notify_run : notify answers 4096 ble (some long_message) 20 ≡ some (two_packets, esp_ok)
unfolding notify notify_loop fragment_encode put_bytes16
notify_run = refl

notify-returns_example :
    notify (λ k. record good { result = again }) 4096 ble (some long_message) 20 ≢ none
notify-returns_example =
    notify-returns (λ k. record good { result = again }) 4096 ble (some long_message) 20
      (omega arith, omega arith) (omega arith)

notify-deliver_example :
    HasMessage long_message 5
      (deliver gives 4096 (record { live = 6 ∷ []; faults = 0 }) in_works.fragment two_packets)
notify-deliver_example =
    notify-deliver answers 4096 ble long_message two_packets gives
      (record { live = 6 ∷ []; faults = 0 }) in_works.fragment 5 (replicate 20 0)
      (omega arith, omega arith) (omega arith) notify_run refl refl
