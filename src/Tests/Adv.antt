-- ===== src/Tests/Adv.antt =====
-- The texts of agcore_version.c and the advertisement at concrete inputs.
use agcore.Prelude.{ℕ, ◌≡◌, refl, List, [], ◌∷◌, ◌++◌, some, true, length, drop, replicate, arith}
use agcore.Version.{DeviceState, device_info_get_string}
use agcore.Version.Text.{read_info, read-device_info_get_string}
use agcore.Ble.Gatt.Services.{gatt_svcs, svc_gatt_init, gatts_count_cfg, gatt_init_calls}
use agcore.Ble.Adv.{
  AdvFields, set_fields, rsp_set_fields, p9, n24, get_tx_power_dbm, adv_update_calls,
}
use agcore.Ble.Adv.Payload.{IsAdvData, IsRspData, adv_update_calls-fits}

abbrev lamp : DeviceState
lamp = record {
  info = record { device_type = 0x12AB; device_id = 7; fw_version = 0x0102; hw_version = 0xFFFF };
  is_set = true;
}

read-device_info_get_string_example :
    (text : List ℕ) × (length text ≡ 19)
    × (device_info_get_string lamp (some (replicate 22 1)) 21
        ≡ (some (text ++ 0 ∷ drop 20 (replicate 22 1)), some 19))
    × (read_info text ≡ lamp.info)
read-device_info_get_string_example =
    read-device_info_get_string lamp (replicate 22 1) 21 (omega arith) (omega arith) (record {
      device_type = omega arith;
      device_id = omega arith;
      fw_version = omega arith;
      hw_version = omega arith;
    })

lowest_power : get_tx_power_dbm n24 ≡ 232
unfolding get_tx_power_dbm
lowest_power = refl

abbrev mac : List ℕ
mac = 0xA0 ∷ 1 ∷ 2 ∷ 0xFF ∷ 4 ∷ 0x5B ∷ []

adv_update_calls-fits_example :
    (f : AdvFields) × (g : AdvFields) × (adv_update_calls mac p9 lamp (replicate 8 0) true
      ≡ set_fields f ∷ rsp_set_fields g ∷ [])
    × IsAdvData mac f
    × IsRspData lamp (replicate 8 0) g
adv_update_calls-fits_example =
    adv_update_calls-fits mac p9 lamp (replicate 8 0) true refl (omega arith) refl

-- The services are not added where they could not be counted.
gatt_init_run : gatt_init_calls 1 0 ≡ svc_gatt_init ∷ gatts_count_cfg gatt_svcs ∷ []
unfolding gatt_init_calls
gatt_init_run = refl
