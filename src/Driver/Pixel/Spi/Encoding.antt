-- ===== src/Driver/Pixel/Spi/Encoding.antt =====
-- driver/pixel/pixel_driver.c: what the LEDs read from a transfer over SPI.
use agcore.Prelude.{
  ℕ, zero, suc, ◌+◌, ◌*◌, ◌/◌, ◌%◌, ◌<◌, ◌≤◌, ◌≡◌, refl, ap, sym, ◌∙◌, List, [], ◌∷◌, ◌++◌,
  append_assoc, true, length, set, get_or, take, take-length_append, drop-append, drop, drop-drop,
  length-drop, bit_and, ◌>>>◌, AllBytes, AllBytes-get_or, arith,
}
use agcore.Prelude.Tables.{holds_under, holds_under-elim}
use agcore.Driver.Pixel.Wire.{
  same_pulses, same_pulses→eq, bits_of, bits_of_all, read_nibble, read_spi,
}
use agcore.Driver.Pixel.Spi.{
  half_lut_buf, transfer_bits, put_color, put_colors, rgb_to_spi_loop, data_rgb_to_spi,
}

-- The bytes of the first LEDs from one on, green before red before blue.
abbrev pub grb_bytes : ℕ → ℕ → List ℕ → List ℕ
grb_bytes zero i rgb_buf = []
grb_bytes (suc n) i rgb_buf =
    get_or rgb_buf (i * 3 + 1) 0
    ∷ get_or rgb_buf (i * 3) 0
    ∷ get_or rgb_buf (i * 3 + 2) 0
    ∷ grb_bytes n (i + 1) rgb_buf

-- A half of a byte on the wire.
abbrev half_bytes : ℕ → List ℕ
half_bytes h =
    bit_and (get_or half_lut_buf h 0 >>> 8) 0xFF ∷ bit_and (get_or half_lut_buf h 0) 0xFF ∷ []

read_spi-append : (xs ys : List ℕ) → read_spi (xs ++ ys) ≡ read_spi xs ++ read_spi ys
unfolding read_spi
read_spi-append [] ys = refl
read_spi-append (x ∷ xs) ys = rw (read_spi-append xs ys) (
    sym (
      append_assoc (read_nibble (x / 16)) (read_nibble (x % 16) ++ read_spi xs) (read_spi ys)
      ∙ ap (λ t. read_nibble (x / 16) ++ t)
          (append_assoc (read_nibble (x % 16)) (read_spi xs) (read_spi ys))))

-- What `put_color` writes.
abbrev color_bytes : ℕ → List ℕ
color_bytes c = half_bytes (c >>> 4) ++ half_bytes (bit_and c 0x0F)

color_table : holds_under (λ c. same_pulses (read_spi (color_bytes c)) (bits_of c)) 256 ≡ true
unfolding holds_under same_pulses read_spi read_nibble
color_table = refl

read_spi-color_bytes : (c : ℕ) → c < 256 → read_spi (color_bytes c) ≡ bits_of c
read_spi-color_bytes c lt = same_pulses→eq _ _ (holds_under-elim c _ 256 lt color_table)

abbrev wire_bytes : List ℕ → List ℕ
wire_bytes [] = []
wire_bytes (c ∷ cs) = color_bytes c ++ wire_bytes cs

read_spi-wire_bytes : (cs : List ℕ) → AllBytes cs → read_spi (wire_bytes cs) ≡ bits_of_all cs
unfolding read_spi
read_spi-wire_bytes [] h = refl
read_spi-wire_bytes (c ∷ cs) h =
    read_spi-append (color_bytes c) (wire_bytes cs)
    ∙ ap (λ t. t ++ read_spi (wire_bytes cs)) (read_spi-color_bytes c h.0)
    ∙ ap (λ t. bits_of c ++ t) (read_spi-wire_bytes cs h.1)

set_beyond :
    (pre rest : List ℕ) (k v : ℕ) → set (pre ++ rest) (length pre + k) v ≡ pre ++ set rest k v
set_beyond [] rest k v = let e : 0 + k ≡ k = omega arith in ap (λ (n : ℕ). set rest n v) e
set_beyond (x ∷ xs) rest k v =
    let e : suc (length xs) + k ≡ suc (length xs + k) = omega arith in
    rw e (ap (λ t. x ∷ t) (set_beyond xs rest k v))

put_color_beyond :
    (c : ℕ) (pre rest : List ℕ) (k : ℕ)
    → put_color c (length pre + k) (pre ++ rest) ≡ pre ++ put_color c k rest
unfolding put_color
put_color_beyond c pre rest k =
    let n = length pre in
    let e1 : n + k + 1 ≡ n + (k + 1) = omega arith in
    let e2 : n + k + 2 ≡ n + (k + 2) = omega arith in
    let e3 : n + k + 3 ≡ n + (k + 3) = omega arith in
    rw
      (
        e1,
        e2,
        e3,
        set_beyond pre rest k _,
        set_beyond pre _ (k + 1) _,
        set_beyond pre _ (k + 2) _,
        set_beyond pre _ (k + 3) _,
      )
      refl

put_colors_beyond :
    (cs : List ℕ) (pre rest : List ℕ) (k : ℕ)
    → put_colors cs (length pre + k) (pre ++ rest) ≡ pre ++ put_colors cs k rest
unfolding put_colors
put_colors_beyond [] pre rest k = refl
put_colors_beyond (c ∷ cs) pre rest k =
    let e : length pre + k + 4 ≡ length pre + (k + 4) = omega arith in
    rw (e, put_color_beyond c pre rest k) (put_colors_beyond cs pre (put_color c k rest) (k + 4))

rgb_to_spi_loop_beyond :
    (rounds i : ℕ) (rgb pre rest : List ℕ) (k : ℕ)
    → rgb_to_spi_loop rounds i (length pre + k) rgb (pre ++ rest)
      ≡ pre ++ rgb_to_spi_loop rounds i k rgb rest
unfolding rgb_to_spi_loop
rgb_to_spi_loop_beyond zero i rgb pre rest k = refl
rgb_to_spi_loop_beyond (suc rounds) i rgb pre rest k =
    let e : length pre + k + 12 ≡ length pre + (k + 12) = omega arith in
    rw
      (
        e,
        put_colors_beyond
            (get_or rgb (i * 3 + 1) 0 ∷ get_or rgb (i * 3) 0 ∷ get_or rgb (i * 3 + 2) 0 ∷ []) pre
            rest k,
      )
      (rgb_to_spi_loop_beyond rounds (i + 1) rgb pre _ (k + 12))

put_color_front :
    (c : ℕ) (buf : List ℕ) → 4 ≤ length buf → put_color c 0 buf ≡ color_bytes c ++ drop 4 buf
unfolding put_color
put_color_front c [] h = absurd (omega arith)
put_color_front c (w ∷ []) h = absurd (omega arith)
put_color_front c (w ∷ x ∷ []) h = absurd (omega arith)
put_color_front c (w ∷ x ∷ y ∷ []) h = absurd (omega arith)
put_color_front c (w ∷ x ∷ y ∷ z ∷ post) h = refl

put_colors_front :
    (cs : List ℕ) (buf : List ℕ)
    → length cs * 4 ≤ length buf
    → put_colors cs 0 buf ≡ wire_bytes cs ++ drop (length cs * 4) buf
unfolding put_colors
put_colors_front [] buf h = refl
put_colors_front (c ∷ cs) buf h =
    let e : suc (length cs) * 4 ≡ 4 + length cs * 4 = omega arith in
    let rest : length cs * 4 ≤ length (drop 4 buf) = omega (arith, length-drop 4 buf) in
    rw
      (
        put_color_front c buf (omega arith),
        put_colors_beyond cs (color_bytes c) (drop 4 buf) 0,
        put_colors_front cs (drop 4 buf) rest,
        e,
        drop-drop (length cs * 4) 4 buf,
      )
      refl

-- The conversion fills the front of its buffer and leaves the rest.
rgb_to_spi_front :
    (n i : ℕ) (rgb buf : List ℕ)
    → n * 12 ≤ length buf
    → rgb_to_spi_loop n i 0 rgb buf ≡ wire_bytes (grb_bytes n i rgb) ++ drop (n * 12) buf
unfolding rgb_to_spi_loop
rgb_to_spi_front zero i rgb buf h = refl
rgb_to_spi_front (suc n) i rgb buf h =
    let cs = get_or rgb (i * 3 + 1) 0 ∷ get_or rgb (i * 3) 0 ∷ get_or rgb (i * 3 + 2) 0 ∷ [] in
    let e : suc n * 12 ≡ 12 + n * 12 = omega arith in
    let rest : n * 12 ≤ length (drop 12 buf) = omega (arith, length-drop 12 buf) in
    ap (λ t. rgb_to_spi_loop n (i + 1) 12 rgb t) (put_colors_front cs buf (omega arith))
    ∙ rgb_to_spi_loop_beyond n (i + 1) rgb (wire_bytes cs) (drop 12 buf) 0
    ∙ ap (λ t. wire_bytes cs ++ t) (rgb_to_spi_front n (i + 1) rgb (drop 12 buf) rest)
    ∙ rw (e, drop-drop (n * 12) 12 buf) refl

length-wire_bytes : (cs : List ℕ) → length (wire_bytes cs) ≡ length cs * 4
length-wire_bytes [] = refl
length-wire_bytes (c ∷ cs) = omega (arith, length-wire_bytes cs)

pub length-grb_bytes : (n i : ℕ) (rgb : List ℕ) → length (grb_bytes n i rgb) ≡ n * 3
length-grb_bytes zero i rgb = refl
length-grb_bytes (suc n) i rgb = omega (arith, length-grb_bytes n (i + 1) rgb)

pub grb_bytes-AllBytes : (n i : ℕ) (rgb : List ℕ) → AllBytes rgb → AllBytes (grb_bytes n i rgb)
grb_bytes-AllBytes zero i rgb h = tt
grb_bytes-AllBytes (suc n) i rgb h = (
  AllBytes-get_or rgb (i * 3 + 1) h,
  (
    AllBytes-get_or rgb (i * 3) h,
    (AllBytes-get_or rgb (i * 3 + 2) h, grb_bytes-AllBytes n (i + 1) rgb h),
  ),
)

-- In a buffer with room for the LEDs, the bytes that the task transfers are read as the bits of the
-- colours of the LEDs, in the order green, red, blue that a WS2812B takes, the highest bit first; the
-- bytes behind them stay.
pub data_rgb_to_spi_lem :
    (led_num : ℕ) (rgb_buf spi_buf : List ℕ)
    → AllBytes rgb_buf
    → led_num * 12 ≤ length spi_buf
    → (read_spi (take (transfer_bits led_num / 8) (data_rgb_to_spi led_num rgb_buf spi_buf))
        ≡ bits_of_all (grb_bytes led_num 0 rgb_buf))
      × (drop (transfer_bits led_num / 8) (data_rgb_to_spi led_num rgb_buf spi_buf)
          ≡ drop (transfer_bits led_num / 8) spi_buf)
unfolding data_rgb_to_spi
data_rgb_to_spi_lem n rgb buf bytes fits =
    let wire = wire_bytes (grb_bytes n 0 rgb) in
    let size : transfer_bits n / 8 ≡ length wire =
      omega (arith, length-wire_bytes (grb_bytes n 0 rgb), length-grb_bytes n 0 rgb) in
    let k : n * 12 ≡ length wire = omega arith in
    rw
      (size, rgb_to_spi_front n 0 rgb buf fits, k, take-length_append wire (drop (length wire) buf))
      (
        read_spi-wire_bytes (grb_bytes n 0 rgb) (grb_bytes-AllBytes n 0 rgb bytes),
        drop-append wire (drop (length wire) buf),
      )
