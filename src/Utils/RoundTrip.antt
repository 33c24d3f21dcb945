-- ===== src/Utils/RoundTrip.antt =====
-- common/utils/agcore_bytes.c: what is put is got back, and nothing else is touched.
use agcore.Prelude.{
  ℕ, ◌+◌, ◌<◌, ◌≡◌, ◌≢◌, List, u8, ◌>>>◌, get_or, set, length, length-set, get_or-set_self,
  get_or-set_ne, arith,
}
use agcore.Utils.Bytes.{
  put_bytes16, put_bytes32, get_bytes16, get_bytes32, get_bytes16_lem, get_bytes32_lem,
}

put_bytes16_read :
    (buf : List ℕ) (i val : ℕ)
    → i + 1 < length buf
    → (get_or (put_bytes16 buf i val) i 0 ≡ u8 (val >>> 8))
      × (get_or (put_bytes16 buf i val) (i + 1) 0 ≡ u8 val)
unfolding put_bytes16
put_bytes16_read buf i val h = ground (
  arith,
  length-set buf i (u8 (val >>> 8)),
  get_or-set_ne (set buf i (u8 (val >>> 8))) (i + 1) i (u8 val) 0,
  get_or-set_self (set buf i (u8 (val >>> 8))) (i + 1) (u8 val) 0,
  get_or-set_self buf i (u8 (val >>> 8)) 0,
)

-- A 16-bit value that is put within a buffer is read back at the same place; the length of the
-- buffer and every other byte of it stay.
pub get-put_bytes16 :
    (buf : List ℕ) (i val : ℕ)
    → val < 65536
    → i + 1 < length buf
    → (get_bytes16 (put_bytes16 buf i val) i ≡ val)
      × (length (put_bytes16 buf i val) ≡ length buf)
      × ((j : ℕ) → j ≢ i → j ≢ i + 1 → get_or (put_bytes16 buf i val) j 0 ≡ get_or buf j 0)
unfolding put_bytes16
get-put_bytes16 buf i val h hi = (
  ground (arith, put_bytes16_read buf i val hi, get_bytes16_lem (put_bytes16 buf i val) i),
  ground (
    arith,
    length-set (set buf i (u8 (val >>> 8))) (i + 1) (u8 val),
    length-set buf i (u8 (val >>> 8)),
  ),
  λ j n m. ground (
    arith,
    get_or-set_ne (set buf i (u8 (val >>> 8))) (i + 1) j (u8 val) 0,
    get_or-set_ne buf i j (u8 (val >>> 8)) 0,
  ),
)

-- The first two writes of `put_bytes32`.
abbrev high_half : List ℕ → ℕ → ℕ → List ℕ
high_half buf i val = set (set buf i (u8 (val >>> 24))) (i + 1) (u8 (val >>> 16))

high_half_read :
    (buf : List ℕ) (i val : ℕ)
    → i + 1 < length buf
    → (get_or (high_half buf i val) i 0 ≡ u8 (val >>> 24))
      × (get_or (high_half buf i val) (i + 1) 0 ≡ u8 (val >>> 16))
      × (length (high_half buf i val) ≡ length buf)
high_half_read buf i val h = ground (
  arith,
  length-set buf i (u8 (val >>> 24)),
  length-set (set buf i (u8 (val >>> 24))) (i + 1) (u8 (val >>> 16)),
  get_or-set_ne (set buf i (u8 (val >>> 24))) (i + 1) i (u8 (val >>> 16)) 0,
  get_or-set_self (set buf i (u8 (val >>> 24))) (i + 1) (u8 (val >>> 16)) 0,
  get_or-set_self buf i (u8 (val >>> 24)) 0,
)

low_half_read :
    (buf : List ℕ) (i a b : ℕ)
    → i + 3 < length buf
    → let out = set (set buf (i + 2) a) (i + 3) b in
      (get_or out i 0 ≡ get_or buf i 0)
      × (get_or out (i + 1) 0 ≡ get_or buf (i + 1) 0)
      × (get_or out (i + 2) 0 ≡ a)
      × (get_or out (i + 3) 0 ≡ b)
low_half_read buf i a b h = ground (
  arith,
  length-set buf (i + 2) a,
  get_or-set_ne (set buf (i + 2) a) (i + 3) i b 0,
  get_or-set_ne (set buf (i + 2) a) (i + 3) (i + 1) b 0,
  get_or-set_ne (set buf (i + 2) a) (i + 3) (i + 2) b 0,
  get_or-set_self (set buf (i + 2) a) (i + 3) b 0,
  get_or-set_ne buf (i + 2) i a 0,
  get_or-set_ne buf (i + 2) (i + 1) a 0,
  get_or-set_self buf (i + 2) a 0,
)

-- A 32-bit value that is put within a buffer is read back at the same place.
pub get-put_bytes32 :
    (buf : List ℕ) (i val : ℕ)
    → val < 4294967296
    → i + 3 < length buf
    → get_bytes32 (put_bytes32 buf i val) i ≡ val
unfolding put_bytes32
get-put_bytes32 buf i val h hi = ground (
  arith,
  high_half_read buf i val,
  low_half_read (high_half buf i val) i (u8 (val >>> 8)) (u8 val),
  get_bytes32_lem (put_bytes32 buf i val) i,
)
