-- ===== src/Ble/Notify.antt =====
-- pipe/transport/ble/agcore_ble_pipe.c: sending. What NimBLE answers to each attempt is an argument, as
-- is the session that another task may have ended by then.
pub mod Pieces
pub mod Delivery
use agcore.Prelude.{
  ℕ, zero, suc, ◌+◌, ◌-◌, ◌*◌, List, [], ◌∷◌, ◌++◌, Option, none, some, Bool, not, ◌==◌, ◌||◌, ltb,
  leb, if◌then◌else◌, u16, take, drop, replicate, length, ◌^◌,
}
use agcore.Platform.{EspErr, esp_ok, esp_fail, no_mem, invalid_arg, invalid_state, timeout}
use agcore.Data.Fragment.{fragment_encode, fragment_header_len}
use agcore.Ble.{BleState, conn_handle_none}

-- `ble_gatts_notify_custom`: 0, BLE_HS_EAGAIN and any other value.
pub data NotifyResult : Type 0 where
  accepted again failed : NotifyResult

-- Whether the buffers could be allocated, the session that is read, and the answer.
pub record Attempt : Type 0 where
  pub from_flat : Bool
  pub appended : Bool
  pub session_now : ℕ
  pub result : NotifyResult

-- `AGCORE_BLE_NOTIFY_RETRY_MAX`
abbrev pub notify_retry_max : ℕ
notify_retry_max = 3

-- The packets that NimBLE accepted, the first first, and the result; nothing where the fuel ends.
abbrev pub Sent : Type 0
Sent = Option (List (List ℕ) × EspErr)

abbrev pub with_packet : List ℕ → Sent → Sent
with_packet p none = none
with_packet p (some (ps, r)) = some (p ∷ ps, r)

module _ (answers : ℕ → Attempt) (session : ℕ) (p : List ℕ) (len payload_len_max : ℕ) where
  -- `chunk_len`, from the bytes that are left.
  abbrev pub chunk_len : ℕ → ℕ
  chunk_len sent =
      let left = u16 (len - sent) in if ltb payload_len_max left then payload_len_max else left

  abbrev pub packet : ℕ → List ℕ
  packet sent =
      fragment_encode (replicate fragment_header_len 0) len sent
      ++ take (chunk_len sent) (drop sent p)

  -- The loop with the number of the attempt, `payload_sent` and `retries`, on fuel.
  unfoldable pub notify_loop : ℕ → ℕ → ℕ → ℕ → Sent
  notify_loop zero k sent retries = none
  notify_loop (suc fuel) k sent retries =
      if leb len sent
      then some ([], esp_ok)
      else let a = answers k in
        if not a.from_flat || not a.appended
        then some ([], no_mem)
        else if not (a.session_now == session)
        then some ([], invalid_state)
        else elim a.result [
          | accepted ↦
              with_packet (packet sent) (notify_loop fuel (k + 1) (u16 (sent + chunk_len sent)) 0)
          | again ↦
              let rest = notify_loop fuel (k + 1) sent (retries + 1) in
              if leb notify_retry_max (retries + 1) then some ([], timeout) else rest
          | failed ↦ some ([], esp_fail)
        ]

-- The limit is CONFIG_AGCORE_BLE_MESSAGE_MAX_LEN. The fuel is three attempts for each byte and three.
unfoldable pub notify : (ℕ → Attempt) → ℕ → BleState → Option (List ℕ) → ℕ → Sent
notify answers max_len s none len = some ([], invalid_arg)
notify answers max_len s (some p) len =
    if (len == 0) || ltb max_len len
    then some ([], invalid_arg)
    else if s.conn_handle == conn_handle_none
    then some ([], invalid_state)
    else notify_loop answers s.session p len (u16 (s.gap_mtu + 2 ^ 16 - 3 - fragment_header_len))
        (3 * len + 4) 0 0 0
