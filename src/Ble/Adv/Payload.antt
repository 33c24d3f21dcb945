-- ===== src/Ble/Adv/Payload.antt =====
-- pipe/transport/ble/agcore_ble_adv.c: the advertisement on the air.
use agcore.Prelude.{
  ℕ, ◌+◌, ◌*◌, ◌≤◌, ◌≡◌, refl, ap₂, ◌∙◌, List, [], ◌∷◌, Option, none, some, Bool, length, drop,
  take, if◌then◌else◌, AllBytes, arith,
}
use agcore.Version.{DeviceState, device_info_get_bytes}
use agcore.Version.Info.{device_info_get_bytes_lem}
use agcore.Version.Text.{read_hex2, read_hex2-hex2}
use agcore.Ble.Adv.{
  AdvFlag, AdvFields, PowerLevel, set_fields, rsp_set_fields, mac_to_ascii_suffix, fill_device_info,
  adv_data, rsp_data, adv_update_calls,
}

-- The bytes of the structures that fields stand for: each has a byte for its length and one for its
-- type before its content.
abbrev pub structure_size : ℕ → List ℕ → ℕ
structure_size width [] = 0
structure_size width (x ∷ xs) = 2 + width * length (x ∷ xs)

abbrev pub flags_size : List AdvFlag → ℕ
flags_size [] = 0
flags_size (f ∷ fs) = 3

abbrev pub power_size : Option ℕ → ℕ
power_size none = 0
power_size (some level) = 3

abbrev pub payload_size : AdvFields → ℕ
payload_size f =
    flags_size f.flags
    + power_size f.tx_pwr_lvl
    + structure_size 1 f.name
    + structure_size 1 f.mfg_data
    + structure_size 2 f.uuids16

-- The bytes that pairs of digits stand for.
abbrev pub read_mac : List ℕ → List ℕ
read_mac [] = []
read_mac (a ∷ []) = []
read_mac (a ∷ b ∷ t) = read_hex2 (a ∷ b ∷ []) ∷ read_mac t

read_mac-suffix : (mac : List ℕ) → AllBytes mac → read_mac (mac_to_ascii_suffix mac) ≡ mac
read_mac-suffix [] h = refl
read_mac-suffix (b ∷ bs) h =
    ap₂ (λ (x : ℕ) (xs : List ℕ). x ∷ xs) (read_hex2-hex2 b h.0) (read_mac-suffix bs h.1)

length-suffix : (mac : List ℕ) → length (mac_to_ascii_suffix mac) ≡ 2 * length mac
length-suffix [] = refl
length-suffix (b ∷ bs) = omega (arith, length-suffix bs)

length-fill_device_info :
    (s : DeviceState) (buf : List ℕ) → length buf ≡ 8 → length (fill_device_info s buf) ≡ 8
length-fill_device_info s buf size =
    let (out, e, filled) = device_info_get_bytes_lem s buf 8 (omega arith) in rw e (filled.0 ∙ size)

adv-fits :
    (mac : List ℕ) (level : PowerLevel) → length mac ≡ 6 → payload_size (adv_data mac level) ≤ 31
adv-fits mac level h = omega (arith, length-suffix mac)

rsp-fits : (s : DeviceState) (buf : List ℕ) → length buf ≡ 8 → payload_size (rsp_data s buf) ≤ 31
rsp-fits s buf h = omega (arith, length-fill_device_info s buf h)

-- An advertisement of the address: it fits 31 bytes, and its name is "AGIOT" and twelve digits that are
-- read back as the address.
pub record IsAdvData (mac : List ℕ) (f : AdvFields) : Type 0 where
  pub fits : payload_size f ≤ 31
  pub prefix : take 5 f.name ≡ 0x41 ∷ 0x47 ∷ 0x49 ∷ 0x4F ∷ 0x54 ∷ []
  pub address : read_mac (drop 5 f.name) ≡ mac
  pub size : length f.name ≡ 17

-- A response with the device information: it fits 31 bytes, the data of the manufacturer are "AGCORE"
-- and the eight bytes of the information, and the one UUID is that of the control service.
pub record IsRspData (s : DeviceState) (buf : List ℕ) (f : AdvFields) : Type 0 where
  pub fits : payload_size f ≤ 31
  pub prefix : take 6 f.mfg_data ≡ 0x41 ∷ 0x47 ∷ 0x43 ∷ 0x4F ∷ 0x52 ∷ 0x45 ∷ []
  pub device : device_info_get_bytes s (some buf) 8 ≡ some (drop 6 f.mfg_data)
  pub size : length f.mfg_data ≡ 14
  pub service : f.uuids16 ≡ 0x4300 ∷ []

-- For an address and a buffer of six and eight bytes, and whatever the power level and the device
-- information are: an update
-- gives NimBLE an advertisement and, where that is taken, a response, and both fit their 31 bytes. The
-- name is 17 characters, "AGIOT" and digits that are read back as the address; the data of the
-- manufacturer are the 14 bytes of "AGCORE" and of the device information, and the UUID is 0x4300.
pub adv_update_calls-fits :
    (mac : List ℕ) (level : PowerLevel) (s : DeviceState) (buf : List ℕ) (fields_set : Bool)
    → length mac ≡ 6
    → AllBytes mac
    → length buf ≡ 8
    → (f : AdvFields) × (g : AdvFields) × (adv_update_calls mac level s buf fields_set
        ≡ set_fields f ∷ (if fields_set then rsp_set_fields g ∷ [] else []))
      × IsAdvData mac f
      × IsRspData s buf g
unfolding adv_update_calls
adv_update_calls-fits mac level s buf fields_set six bytes eight =
    let (out, e, filled) = device_info_get_bytes_lem s buf 8 (omega arith) in
    (
      adv_data mac level,
      rsp_data s buf,
      ground arith,
      record {
        fits = adv-fits mac level six;
        prefix = refl;
        address = read_mac-suffix mac bytes;
        size = omega (arith, length-suffix mac);
      },
      record {
        fits = rsp-fits s buf eight;
        prefix = refl;
        device = rw e refl;
        size = omega (arith, length-fill_device_info s buf eight);
        service = refl;
      },
    )
