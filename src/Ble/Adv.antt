-- ===== src/Ble/Adv.antt =====
-- pipe/transport/ble/agcore_ble_adv.c: what is advertised.
pub mod Payload
use agcore.Prelude.{
  ℕ, ◌-◌, ◌*◌, ◌/◌, List, [], ◌∷◌, ◌++◌, Option, none, some, Bool, true, false, replicate,
  if◌then◌else◌, u8, u16,
}
use agcore.Ble.Gatt.Services.{svc_control}
use agcore.Version.{DeviceState, device_info_get_bytes, hex2}

-- The flags of the advertisement that the code sets.
pub data AdvFlag : Type 0 where
  disc_gen bredr_unsup : AdvFlag

-- The fields of `struct ble_hs_adv_fields` that the code uses; what is empty is not there.
pub record AdvFields : Type 0 where
  pub flags : List AdvFlag
  pub tx_pwr_lvl : Option ℕ
  pub name : List ℕ
  pub mfg_data : List ℕ
  pub uuids16 : List ℕ

-- `memset(&fields, 0, sizeof(fields))`
abbrev pub no_fields : AdvFields
no_fields = record { flags = []; tx_pwr_lvl = none; name = []; mfg_data = []; uuids16 = [] }

-- `esp_power_level_t`
pub data PowerLevel : Type 0 where
  n24 n21 n18 n15 n12 n9 n6 n3 n0 p3 p6 p9 p12 p15 p18 p20 : PowerLevel
  other_level : ℕ → PowerLevel

-- A negative `int8_t` as its byte.
abbrev minus : ℕ → ℕ
minus n = u8 (256 - n)

unfoldable pub get_tx_power_dbm : PowerLevel → ℕ
get_tx_power_dbm n24 = minus 24
get_tx_power_dbm n21 = minus 21
get_tx_power_dbm n18 = minus 18
get_tx_power_dbm n15 = minus 15
get_tx_power_dbm n12 = minus 12
get_tx_power_dbm n9 = minus 9
get_tx_power_dbm n6 = minus 6
get_tx_power_dbm n3 = minus 3
get_tx_power_dbm n0 = 0
get_tx_power_dbm p3 = 3
get_tx_power_dbm p6 = 6
get_tx_power_dbm p9 = 9
get_tx_power_dbm p12 = 12
get_tx_power_dbm p15 = 15
get_tx_power_dbm p18 = 18
get_tx_power_dbm p20 = 20
get_tx_power_dbm (other_level n) = 0

-- "AGIOT" and "AGCORE" in ASCII.
abbrev pub agiot : List ℕ
agiot = 0x41 ∷ 0x47 ∷ 0x49 ∷ 0x4F ∷ 0x54 ∷ []

abbrev pub agcore_text : List ℕ
agcore_text = 0x41 ∷ 0x47 ∷ 0x43 ∷ 0x4F ∷ 0x52 ∷ 0x45 ∷ []

-- The characters before the final 0.
abbrev pub mac_to_ascii_suffix : List ℕ → List ℕ
mac_to_ascii_suffix [] = []
mac_to_ascii_suffix (b ∷ bs) = hex2 b ++ mac_to_ascii_suffix bs

-- agcore_ble_gatt_get_uuid: the UUID of the control service.
abbrev pub gatt_get_uuid : List ℕ
gatt_get_uuid = svc_control ∷ []

abbrev written : List ℕ → Option (List ℕ) → List ℕ
written buf none = buf
written buf (some out) = out

-- The eight bytes of the device information, in a buffer of what was on the stack.
abbrev pub fill_device_info : DeviceState → List ℕ → List ℕ
fill_device_info s buf = written buf (device_info_get_bytes s (some buf) 8)

abbrev pub adv_data : List ℕ → PowerLevel → AdvFields
adv_data mac level = record no_fields {
  flags = disc_gen ∷ bredr_unsup ∷ [];
  tx_pwr_lvl = some (get_tx_power_dbm level);
  name = agiot ++ mac_to_ascii_suffix mac;
}

abbrev pub rsp_data : DeviceState → List ℕ → AdvFields
rsp_data s buf = record no_fields {
  mfg_data = agcore_text ++ fill_device_info s buf;
  uuids16 = gatt_get_uuid;
}

-- The calls of NimBLE, in their order.
pub data AdvCall : Type 0 where
  set_fields rsp_set_fields : AdvFields → AdvCall

-- `fields_set`: whether NimBLE took the advertisement. Without it the response is not set.
unfoldable pub adv_update_calls : List ℕ → PowerLevel → DeviceState → List ℕ → Bool → List AdvCall
adv_update_calls mac level s buf fields_set =
    if fields_set
    then set_fields (adv_data mac level) ∷ rsp_set_fields (rsp_data s buf) ∷ []
    else set_fields (adv_data mac level) ∷ []

-- The interval of the advertisement in units of 0.625 ms, from milliseconds.
abbrev pub adv_interval : ℕ → ℕ
adv_interval ms = u16 (ms * 16 / 10)
