-- ===== src/Utils/Check.antt =====
-- common/utils/agcore_check.c. A loop is given the pointer as the list of the bytes from it on, and
-- counts `len` down.
pub mod Sum
pub mod Crc
use agcore.Prelude.{
  ℕ, zero, suc, ◌+◌, ◌-◌, ◌%◌, ◌^◌, bit_and, bit_xor, List, drop, get_or, u8, u16, u32, ◌<<<◌,
  ◌>>>◌, ltb, ◌==◌, if◌then◌else◌,
}

-- `while (len-- > 0) { checksum += *data++; }` on a `uint8_t`
unfoldable pub checksum8_loop : ℕ → List ℕ → ℕ → ℕ
checksum8_loop zero p checksum = checksum
checksum8_loop (suc len) p checksum = checksum8_loop len (drop 1 p) (u8 (checksum + get_or p 0 0))

unfoldable pub checksum8_calc : List ℕ → ℕ → ℕ
unfolding checksum8_loop
checksum8_calc p len = checksum8_loop len p 0

-- `for (i = 0; i < len; i++) { checksum += data[i]; }`, with the rounds left
unfoldable pub checksum16_loop : ℕ → ℕ → List ℕ → ℕ → ℕ
checksum16_loop zero i p checksum = checksum
checksum16_loop (suc rounds) i p checksum =
    checksum16_loop rounds (u16 (i + 1)) p (u16 (checksum + get_or p i 0))

unfoldable pub checksum16_calc : List ℕ → ℕ → ℕ
unfolding checksum16_loop
checksum16_calc p len = checksum16_loop len 0 p 0

-- One of the eight rounds for a bit.
unfoldable pub crc16_bit : ℕ → ℕ
crc16_bit crc =
    if bit_and crc 0x8000 == 0 then u16 (crc <<< 1) else u16 (bit_xor (crc <<< 1) 0x1021)

unfoldable pub crc16_bits : ℕ → ℕ → ℕ
crc16_bits zero crc = crc
crc16_bits (suc rounds) crc = crc16_bits rounds (crc16_bit crc)

unfoldable pub crc16_loop : ℕ → List ℕ → ℕ → ℕ
crc16_loop zero p crc = crc
crc16_loop (suc len) p crc =
    crc16_loop len (drop 1 p) (crc16_bits 8 (bit_xor crc (u16 (get_or p 0 0 <<< 8))))

unfoldable pub crc32_bit : ℕ → ℕ
crc32_bit crc = if bit_and crc 0x01 == 0 then crc >>> 1 else bit_xor (crc >>> 1) 0xEDB88320

unfoldable pub crc32_bits : ℕ → ℕ → ℕ
crc32_bits zero crc = crc
crc32_bits (suc rounds) crc = crc32_bits rounds (crc32_bit crc)

unfoldable pub crc32_loop : ℕ → List ℕ → ℕ → ℕ
crc32_loop zero p crc = crc
crc32_loop (suc len) p crc = crc32_loop len (drop 1 p) (crc32_bits 8 (bit_xor crc (get_or p 0 0)))

-- The two compilations: with ESP_PLATFORM the codes are those of the chip's ROM, whose functions
-- take the seed, the bytes and their number.
pub data Platform : Type 0 where
  esp : (rom_crc16_be rom_crc32_le : ℕ → List ℕ → ℕ → ℕ) → Platform
  host : Platform

-- `(uint16_t)~x` and `~x` on a `uint32_t`
abbrev pub not16 : ℕ → ℕ
not16 x = 65535 - u16 x

abbrev pub not32 : ℕ → ℕ
not32 x = 4294967295 - u32 x

unfoldable pub crc16_calc : Platform → ℕ → List ℕ → ℕ → ℕ
crc16_calc (esp rom_crc16_be rom_crc32_le) seed p len = not16 (rom_crc16_be (not16 seed) p len)
crc16_calc host seed p len = crc16_loop len p seed

unfoldable pub crc32_calc : Platform → ℕ → List ℕ → ℕ → ℕ
crc32_calc (esp rom_crc16_be rom_crc32_le) seed p len = not32 (rom_crc32_le (not32 seed) p len)
crc32_calc host seed p len = crc32_loop len p seed
