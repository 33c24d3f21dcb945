-- ===== src/Ble/Gatt/Services.antt =====
-- pipe/transport/ble/agcore_ble_gatt.c: the table of the services, and their registration.
use agcore.Prelude.{ℕ, List, [], ◌∷◌, ◌==◌, if◌then◌else◌}

-- `BLE_GATT_CHR_F_…`, and the callbacks and handles that the table names.
pub data ChrFlag : Type 0 where
  chr_write chr_write_no_rsp chr_notify : ChrFlag

pub data AccessCb : Type 0 where
  write_cb dummy_cb : AccessCb

pub data ValHandle : Type 0 where
  no_handle notify_handle : ValHandle

-- `struct ble_gatt_chr_def`, and the primary services of `struct ble_gatt_svc_def`.
pub record ChrDef : Type 0 where
  pub uuid : ℕ
  pub access_cb : AccessCb
  pub val_handle : ValHandle
  pub flags : List ChrFlag

pub record SvcDef : Type 0 where
  pub uuid : ℕ
  pub characteristics : List ChrDef

abbrev pub svc_control : ℕ
svc_control = 0x4300

abbrev pub chr_control_write : ℕ
chr_control_write = 0x4301

abbrev pub chr_control_notify : ℕ
chr_control_notify = 0x4302

-- The entries before the final zero of each table.
abbrev pub gatt_svcs : List SvcDef
gatt_svcs =
    record {
      uuid = svc_control;
      characteristics =
          record {
            uuid = chr_control_write;
            access_cb = write_cb;
            val_handle = no_handle;
            flags = chr_write ∷ chr_write_no_rsp ∷ [];
          }
          ∷ record {
            uuid = chr_control_notify;
            access_cb = dummy_cb;
            val_handle = notify_handle;
            flags = chr_notify ∷ [];
          }
          ∷ [];
    }
    ∷ []

pub data GattCall : Type 0 where
  svc_gatt_init gatts_start : GattCall
  gatts_count_cfg gatts_add_svcs : List SvcDef → GattCall

-- What the calls that count and add the services answer; the first failure ends the registration.
unfoldable pub gatt_init_calls : ℕ → ℕ → List GattCall
gatt_init_calls counted added =
    let start = if added == 0 then gatts_start ∷ [] else [] in
    let add = if counted == 0 then gatts_add_svcs gatt_svcs ∷ start else [] in
    svc_gatt_init ∷ gatts_count_cfg gatt_svcs ∷ add
