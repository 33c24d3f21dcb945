-- ===== src/Tests/Utils.antt =====
-- common/utils at concrete inputs.
use agcore.Prelude.{ℕ, ◌-◌, ◌<◌, ◌≡◌, ◌≢◌, refl, List, [], ◌∷◌, ◌++◌, length, get_or, arith}
use agcore.Utils.Bytes.{put_bytes16, get_bytes16, bytes16}
use agcore.Utils.RoundTrip.{get-put_bytes16}
use agcore.Utils.Check.{
  host, crc16_bit, crc16_bits, crc16_loop, crc16_calc, crc32_bit, crc32_bits, crc32_loop,
  crc32_calc,
}
use agcore.Utils.Check.Crc.{crc16_residue}

-- "123456789"
abbrev digits : List ℕ
digits = 0x31 ∷ 0x32 ∷ 0x33 ∷ 0x34 ∷ 0x35 ∷ 0x36 ∷ 0x37 ∷ 0x38 ∷ 0x39 ∷ []

crc16_check_value : crc16_calc host 0xFFFF digits 9 ≡ 0x29B1
unfolding crc16_calc crc16_loop crc16_bits crc16_bit
crc16_check_value = refl

-- The register that is complemented at the end is the usual CRC-32.
crc32_check_value : crc32_calc host 0xFFFFFFFF digits 9 ≡ 0xFFFFFFFF - 0xCBF43926
unfolding crc32_calc crc32_loop crc32_bits crc32_bit
crc32_check_value = refl

get-put_bytes16_example :
    (get_bytes16 (put_bytes16 (1 ∷ 2 ∷ 3 ∷ 4 ∷ []) 1 0xAC02) 1 ≡ 0xAC02)
    × (length (put_bytes16 (1 ∷ 2 ∷ 3 ∷ 4 ∷ []) 1 0xAC02) ≡ 4)
    × ((j : ℕ)
        → j ≢ 1
        → j ≢ 2
        → get_or (put_bytes16 (1 ∷ 2 ∷ 3 ∷ 4 ∷ []) 1 0xAC02) j 0 ≡ get_or (1 ∷ 2 ∷ 3 ∷ 4 ∷ []) j 0)
get-put_bytes16_example = get-put_bytes16 (1 ∷ 2 ∷ 3 ∷ 4 ∷ []) 1 0xAC02 (omega arith) (omega arith)

crc16_residue_example :
    let crc = crc16_calc host 0xFFFF digits 9 in
    (crc < 65536) × (crc16_calc host 0xFFFF (digits ++ bytes16 crc) 11 ≡ 0)
crc16_residue_example = crc16_residue 0xFFFF digits (omega arith)
