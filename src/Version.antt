-- ===== src/Version.antt =====
-- common/version/agcore_version.c.
pub mod Info
pub mod Text
use agcore.Prelude.{
  ℕ, zero, suc, ◌+◌, ◌-◌, ◌/◌, ◌%◌, ◌++◌, ◌∷◌, [], store, take, length, List, Option, none, some,
  Bool, true, false, not, ◌||◌, ◌==◌, ltb, if◌then◌else◌, set, u8, ◌>>>◌,
}
use agcore.Utils.Bytes.{put_bytes16}

-- `agcore_device_info_t`
pub record DeviceInfo : Type 0 where
  pub device_type : ℕ
  pub device_id : ℕ
  pub fw_version : ℕ
  pub hw_version : ℕ

-- The statics: the information, and whether it was set.
pub record DeviceState : Type 0 where
  pub info : DeviceInfo
  pub is_set : Bool

-- `agcore_version_info_t`, which the build fills; the branch and the build time are only logged.
pub record VersionInfo : Type 0 where
  pub version : ℕ
  pub git_hash : List ℕ

abbrev pub device_state_init : DeviceState
device_state_init = record {
  info = record { device_type = 0; device_id = 0; fw_version = 0; hw_version = 0 };
  is_set = false;
}

unfoldable pub device_info_set : DeviceState → Option DeviceInfo → DeviceState
device_info_set s none = s
device_info_set s (some info) = record { info = info; is_set = true }

-- The filling loop from index i on, with the rounds left.
unfoldable pub fill_loop : ℕ → ℕ → List ℕ → List ℕ
fill_loop zero i buf = buf
fill_loop (suc rounds) i buf =
    fill_loop rounds (i + 1) (set buf i (if i % 2 == 0 then 0x00 else 0xFF))

unfoldable pub put_info : DeviceInfo → List ℕ → List ℕ
put_info info buf =
    let b = set (set buf 0 (u8 (info.device_type >>> 8))) 1 (u8 info.device_type) in
    put_bytes16 (put_bytes16 (put_bytes16 b 2 info.device_id) 4 info.fw_version) 6 info.hw_version

unfoldable pub device_info_get_bytes : DeviceState → Option (List ℕ) → ℕ → Option (List ℕ)
device_info_get_bytes s none len = none
device_info_get_bytes s (some buf) len =
    let filled = fill_loop len 0 buf in
    if not s.is_set || ltb len 8 then some filled else some (put_info s.info filled)

abbrev pub device_info_get_type : DeviceState → ℕ
device_info_get_type s = s.info.device_type

abbrev pub device_info_get_id : DeviceState → ℕ
device_info_get_id s = s.info.device_id

abbrev pub device_info_get_fw_version : DeviceState → ℕ
device_info_get_fw_version s = s.info.fw_version

abbrev pub device_info_get_hw_version : DeviceState → ℕ
device_info_get_hw_version s = s.info.hw_version

-- `%04X` of a `uint16_t`, and `%02X` of a `uint8_t`.
abbrev pub hex_digit : ℕ → ℕ
hex_digit n = if ltb n 10 then 0x30 + n else 0x37 + n

abbrev pub hex2 : ℕ → List ℕ
hex2 v = hex_digit (v / 16 % 16) ∷ hex_digit (v % 16) ∷ []

abbrev pub hex4 : ℕ → List ℕ
hex4 v =
    hex_digit (v / 4096 % 16)
    ∷ hex_digit (v / 256 % 16)
    ∷ hex_digit (v / 16 % 16)
    ∷ hex_digit (v % 16)
    ∷ []

-- `snprintf` of a text into a buffer of a length that is not 0: what fits before the final 0, and the
-- length of the whole text.
abbrev pub snprintf : List ℕ → ℕ → List ℕ → List ℕ × ℕ
snprintf buf buf_len text = (store buf 0 (take (buf_len - 1) text ++ 0 ∷ []), length text)

-- "%04X_%04X_%04X_%04X"
abbrev pub info_text : DeviceInfo → List ℕ
info_text i =
    hex4 i.device_type
    ++ (0x5F ∷ (hex4 i.device_id ++ (0x5F ∷ (hex4 i.fw_version ++ (0x5F ∷ hex4 i.hw_version)))))

-- A text into a buffer, and its length, where none is -1.
abbrev pub print_into : List ℕ → Option (List ℕ) → ℕ → Option (List ℕ) × Option ℕ
print_into text none buf_len = (none, none)
print_into text (some buf) buf_len =
    if buf_len == 0
    then (some buf, none)
    else let (out, n) = snprintf buf buf_len text in (some out, some n)

unfoldable pub device_info_get_string :
    DeviceState → Option (List ℕ) → ℕ → Option (List ℕ) × Option ℕ
device_info_get_string s buf buf_len = print_into (info_text s.info) buf buf_len

unfoldable pub version_info_get_string :
    VersionInfo → Option (List ℕ) → ℕ → Option (List ℕ) × Option ℕ
version_info_get_string v buf buf_len = print_into (hex4 v.version) buf buf_len
