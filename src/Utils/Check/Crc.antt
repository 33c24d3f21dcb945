-- ===== src/Utils/Check/Crc.antt =====
-- common/utils/agcore_check.c: laws of the cyclic codes as the source computes them.
use agcore.Prelude.{
  ℕ, zero, suc, ◌+◌, ◌*◌, ◌/◌, ◌%◌, ◌<◌, ◌≡◌, refl, ap, ◌∙◌, ◌&&◌, Bool, true, List, [], ◌∷◌, ◌++◌,
  bit_xor, drop, get_or, length, u8, u16, ◌<<<◌, ◌>>>◌, ◌==◌, ==_iff, arith,
}
use agcore.Prelude.Bits.{bit_xor-lt, bit_xor_clear, bit_xor_self}
use agcore.Utils.Bytes.{bytes16}
use agcore.Utils.Check.{host, crc16_bit, crc16_bits, crc16_loop, crc16_calc}

-- Over a small range, every value is checked by evaluation.
holds_below : ℕ → (ℕ → Bool) → Bool
holds_below zero p = true
holds_below (suc n) p = p n && holds_below n p

holds_below_at : (n : ℕ) (p : ℕ → Bool) (x : ℕ) → holds_below n p ≡ true → x < n → p x ≡ true
unfolding holds_below
holds_below_at zero p x h lt = absurd (omega arith)
holds_below_at (suc n) p x h lt = ground (arith, holds_below_at n p x)

crc16_bit-lt : (crc : ℕ) → crc16_bit crc < 65536
unfolding crc16_bit
crc16_bit-lt crc = ground arith

crc16_bits-lt : (rounds crc : ℕ) → crc < 65536 → crc16_bits rounds crc < 65536
unfolding crc16_bits
crc16_bits-lt zero crc h = h
crc16_bits-lt (suc rounds) crc h = crc16_bits-lt rounds (crc16_bit crc) (crc16_bit-lt crc)

byte_xor-lt : (crc b : ℕ) → crc < 65536 → bit_xor crc (u16 (b <<< 8)) < 65536
byte_xor-lt crc b h = bit_xor-lt 16 crc (u16 (b <<< 8)) h (omega arith)

pub crc16_loop-lt : (len : ℕ) (p : List ℕ) (crc : ℕ) → crc < 65536 → crc16_loop len p crc < 65536
unfolding crc16_loop
crc16_loop-lt zero p crc h = h
crc16_loop-lt (suc len) p crc h =
    crc16_loop-lt len (drop 1 p) _ (crc16_bits-lt 8 _ (byte_xor-lt crc (get_or p 0 0) h))

-- The loop over a concatenation goes on from the code of the first part.
crc16_loop-append :
    (p q : List ℕ) (n crc : ℕ)
    → crc16_loop (length p + n) (p ++ q) crc ≡ crc16_loop n q (crc16_loop (length p) p crc)
unfolding crc16_loop
crc16_loop-append [] q n crc =
    let e : 0 + n ≡ n = omega arith in ap (λ (k : ℕ). crc16_loop k q crc) e
crc16_loop-append (x ∷ p) q n crc =
    let e : suc (length p) + n ≡ suc (length p + n) = omega arith in
    rw e (crc16_loop-append p q n _)

low_byte_table : holds_below 256 (λ x. crc16_bits 8 x == x * 256) ≡ true
unfolding holds_below crc16_bits crc16_bit
low_byte_table = refl

low_byte : (x : ℕ) → x < 256 → crc16_bits 8 x ≡ x * 256
low_byte x h =
    (==_iff (crc16_bits 8 x) (x * 256)).0
      (holds_below_at 256 (λ y. crc16_bits 8 y == y * 256) x low_byte_table h)

-- The first byte of a register's own code leaves its second byte, shifted up.
first_own_byte :
    (crc : ℕ)
    → crc < 65536
    → crc16_bits 8 (bit_xor crc (u16 (u8 (crc >>> 8) <<< 8))) ≡ crc % 256 * 256
first_own_byte crc h = ground (arith, bit_xor_clear 8 (crc / 256) (crc % 256), low_byte (crc % 256))

second_own_byte : (b : ℕ) → b < 256 → crc16_bits 8 (bit_xor (b * 256) (u16 (b <<< 8))) ≡ 0
second_own_byte b h = ground (arith, bit_xor_self (b * 256), low_byte 0)

-- Fed its own two bytes, the register comes to 0.
crc16_own : (crc : ℕ) → crc < 65536 → crc16_loop 2 (bytes16 crc) crc ≡ 0
unfolding crc16_loop
crc16_own crc h = rw (first_own_byte crc h) (second_own_byte (crc % 256) (omega arith))

-- The 16-bit code of the host build is below 2 ^ 16; computed over a message and the code's own two
-- bytes in the order of the wire, it is 0.
pub crc16_residue :
    (seed : ℕ) (p : List ℕ)
    → seed < 65536
    → let crc = crc16_calc host seed p (length p) in
      (crc < 65536) × (crc16_calc host seed (p ++ bytes16 crc) (length p + 2) ≡ 0)
unfolding crc16_calc
crc16_residue seed p h = (
  crc16_loop-lt (length p) p seed h,
  crc16_loop-append p (bytes16 (crc16_loop (length p) p seed)) 2 seed
      ∙ crc16_own (crc16_loop (length p) p seed) (crc16_loop-lt (length p) p seed h),
)
