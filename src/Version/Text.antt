-- ===== src/Version/Text.antt =====
-- common/version/agcore_version.c: the texts, and reading them back.
use agcore.Prelude.{
  ℕ, ◌+◌, ◌-◌, ◌*◌, ◌/◌, ◌%◌, ◌<◌, ◌≤◌, ◌≡◌, refl, List, [], ◌∷◌, ◌++◌, some, length, drop, take,
  store_front, take_eq_self, length-append, append_assoc, false, get_or, arith, ltb, ◌==◌,
  if◌then◌else◌,
}
use agcore.Version.{
  DeviceInfo, DeviceState, hex_digit, hex2, hex4, info_text, print_into, device_info_get_string,
}

-- The value of a hexadecimal digit in upper case.
abbrev pub hex_value : ℕ → ℕ
hex_value c = if ltb c 0x3A then c - 0x30 else c - 0x37

-- The numbers that the first two and the first four characters of a text stand for.
abbrev pub read_hex2 : List ℕ → ℕ
read_hex2 t = hex_value (get_or t 0 0) * 16 + hex_value (get_or t 1 0)

abbrev pub read_hex4 : List ℕ → ℕ
read_hex4 t = read_hex2 t * 256 + read_hex2 (drop 2 t)

abbrev pub read_info : List ℕ → DeviceInfo
read_info t = record {
  device_type = read_hex4 t;
  device_id = read_hex4 (drop 5 t);
  fw_version = read_hex4 (drop 10 t);
  hw_version = read_hex4 (drop 15 t);
}

hex_value-hex_digit : (n : ℕ) → n < 16 → hex_value (hex_digit n) ≡ n
hex_value-hex_digit n h = ground arith

pub read_hex2-hex2 : (v : ℕ) → v < 256 → read_hex2 (hex2 v) ≡ v
read_hex2-hex2 v h = omega (
  arith,
  hex_value-hex_digit (v / 16 % 16) (omega arith),
  hex_value-hex_digit (v % 16) (omega arith),
)

read_hex4-hex4 : (v : ℕ) → v < 65536 → read_hex4 (hex4 v) ≡ v
read_hex4-hex4 v h = omega (
  arith,
  hex_value-hex_digit (v / 4096 % 16) (omega arith),
  hex_value-hex_digit (v / 256 % 16) (omega arith),
  hex_value-hex_digit (v / 16 % 16) (omega arith),
  hex_value-hex_digit (v % 16) (omega arith),
)

-- The four numbers are values of a `uint16_t`.
pub record IsInfo (i : DeviceInfo) : Type 0 where
  pub device_type : i.device_type < 65536
  pub device_id : i.device_id < 65536
  pub fw_version : i.fw_version < 65536
  pub hw_version : i.hw_version < 65536

read_info-text : (i : DeviceInfo) → IsInfo i → read_info (info_text i) ≡ i
read_info-text i v = λ k. record {
  device_type = read_hex4-hex4 i.device_type v.device_type k;
  device_id = read_hex4-hex4 i.device_id v.device_id k;
  fw_version = read_hex4-hex4 i.fw_version v.fw_version k;
  hw_version = read_hex4-hex4 i.hw_version v.hw_version k;
}

print_into_room :
    (text buf : List ℕ) (buf_len : ℕ)
    → length text < buf_len
    → buf_len ≤ length buf
    → print_into text (some buf) buf_len
      ≡ (some (text ++ 0 ∷ drop (length text + 1) buf), some (length text))
print_into_room text buf buf_len room fits =
    let ended = text ++ 0 ∷ [] in
    let size : length ended ≡ length text + 1 = omega (arith, length-append text (0 ∷ [])) in
    let whole : take (buf_len - 1) text ≡ text = take_eq_self (buf_len - 1) text (omega arith) in
    let nonzero : (buf_len == 0) ≡ false = ground arith in
    rw
      (
        nonzero,
        whole,
        store_front buf ended (omega arith),
        size,
        append_assoc text (0 ∷ []) (drop (length text + 1) buf),
      )
      refl

-- In a buffer of at least the said length, which is at least 20, the text of the device information is
-- 19 characters long, ends with a 0, leaves what stands behind it, and is read back as the information
-- where its numbers are those of a `uint16_t`.
pub read-device_info_get_string :
    (s : DeviceState) (buf : List ℕ) (buf_len : ℕ)
    → 20 ≤ buf_len
    → buf_len ≤ length buf
    → IsInfo s.info
    → (text : List ℕ) × (length text ≡ 19)
      × (device_info_get_string s (some buf) buf_len ≡ (some (text ++ 0 ∷ drop 20 buf), some 19))
      × (read_info text ≡ s.info)
unfolding device_info_get_string
read-device_info_get_string s buf buf_len room fits v = (
  info_text s.info,
  refl,
  print_into_room (info_text s.info) buf buf_len room fits,
  read_info-text s.info v,
)
