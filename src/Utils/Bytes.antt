-- ===== src/Utils/Bytes.antt =====
-- common/utils/agcore_bytes.c. `put_bytes16 buf i val` is the call with the pointer `&buf[i]`.
use agcore.Prelude.{
  ℕ, ◌+◌, ◌*◌, ◌<◌, ◌≡◌, List, [], ◌∷◌, bit_or, u8, u16, ◌<<<◌, ◌>>>◌, get_or, set, arith,
}
use agcore.Prelude.Bits.{bit_or_shifted}

unfoldable pub put_bytes16 : List ℕ → ℕ → ℕ → List ℕ
put_bytes16 buf i val = set (set buf i (u8 (val >>> 8))) (i + 1) (u8 val)

unfoldable pub put_bytes32 : List ℕ → ℕ → ℕ → List ℕ
put_bytes32 buf i val =
    set (set (set (set buf i (u8 (val >>> 24))) (i + 1) (u8 (val >>> 16))) (i + 2) (u8 (val >>> 8)))
      (i + 3) (u8 val)

unfoldable pub get_bytes16 : List ℕ → ℕ → ℕ
get_bytes16 buf i = u16 (bit_or (get_or buf i 0 <<< 8) (get_or buf (i + 1) 0))

unfoldable pub get_bytes32 : List ℕ → ℕ → ℕ
get_bytes32 buf i =
    bit_or
      (bit_or (bit_or (get_or buf i 0 <<< 24) (get_or buf (i + 1) 0 <<< 16))
        (get_or buf (i + 2) 0 <<< 8))
      (get_or buf (i + 3) 0)

-- The two bytes of a value, in the order of the wire.
abbrev pub bytes16 : ℕ → List ℕ
bytes16 val = u8 (val >>> 8) ∷ u8 val ∷ []

abbrev pub bytes32 : ℕ → List ℕ
bytes32 val = u8 (val >>> 24) ∷ u8 (val >>> 16) ∷ u8 (val >>> 8) ∷ u8 val ∷ []

-- A read of two bytes is their positional value.
pub get_bytes16_lem :
    (buf : List ℕ) (i : ℕ)
    → get_or buf i 0 < 256
    → get_or buf (i + 1) 0 < 256
    → get_bytes16 buf i ≡ get_or buf i 0 * 256 + get_or buf (i + 1) 0
unfolding get_bytes16
get_bytes16_lem buf i h l =
    omega (arith, bit_or_shifted 8 (get_or buf i 0) (get_or buf (i + 1) 0) (omega arith))

pub bit_or4 :
    (a b c d : ℕ)
    → b < 256
    → c < 256
    → d < 256
    → bit_or (bit_or (bit_or (a <<< 24) (b <<< 16)) (c <<< 8)) d
      ≡ a * 16777216 + b * 65536 + c * 256 + d
bit_or4 a b c d hb hc hd = ground (
  arith,
  bit_or_shifted 24 a (b * 65536),
  bit_or_shifted 16 (a * 256 + b) (c * 256),
  bit_or_shifted 8 (a * 65536 + b * 256 + c) d,
)

pub get_bytes32_lem :
    (buf : List ℕ) (i : ℕ)
    → get_or buf (i + 1) 0 < 256
    → get_or buf (i + 2) 0 < 256
    → get_or buf (i + 3) 0 < 256
    → get_bytes32 buf i
      ≡ get_or buf i 0 * 16777216
        + get_or buf (i + 1) 0 * 65536
        + get_or buf (i + 2) 0 * 256
        + get_or buf (i + 3) 0
unfolding get_bytes32
get_bytes32_lem buf i b c d =
    bit_or4 (get_or buf i 0) (get_or buf (i + 1) 0) (get_or buf (i + 2) 0) (get_or buf (i + 3) 0) b
      c d
