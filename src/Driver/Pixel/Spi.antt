-- ===== src/Driver/Pixel/Spi.antt =====
-- driver/pixel/pixel_driver.c, the variant for SPI: four bits on the wire for each bit of a colour.
pub mod Encoding
use agcore.Prelude.{
  ℕ, zero, suc, ◌+◌, ◌*◌, List, [], ◌∷◌, set, get_or, bit_and, Option, some, none, Bool, not,
  if◌then◌else◌, u8, ◌>>>◌,
}
use agcore.Driver.Pixel.{Strip, SpiState}

abbrev pub bytes_per_led : ℕ
bytes_per_led = 12

abbrev pub half_lut_buf : List ℕ
half_lut_buf =
    0x8888 ∷ 0x888E ∷ 0x88E8 ∷ 0x88EE ∷ 0x8E88 ∷ 0x8E8E ∷ 0x8EE8 ∷ 0x8EEE ∷ 0xE888 ∷ 0xE88E ∷ 0xE8E8
    ∷ 0xE8EE ∷ 0xEE88 ∷ 0xEE8E ∷ 0xEEE8 ∷ 0xEEEE ∷ []

-- The four bytes of one colour from an index on.
unfoldable pub put_color : ℕ → ℕ → List ℕ → List ℕ
put_color color_val spi_index spi_buf =
    let spi_high = get_or half_lut_buf (color_val >>> 4) 0 in
    let spi_low = get_or half_lut_buf (bit_and color_val 0x0F) 0 in
    set
      (set
        (set (set spi_buf spi_index (bit_and (spi_high >>> 8) 0xFF)) (spi_index + 1)
          (bit_and spi_high 0xFF))
        (spi_index + 2) (bit_and (spi_low >>> 8) 0xFF))
      (spi_index + 3) (bit_and spi_low 0xFF)

-- The loop over `colors`.
unfoldable pub put_colors : List ℕ → ℕ → List ℕ → List ℕ
put_colors [] spi_index spi_buf = spi_buf
put_colors (color_val ∷ colors) spi_index spi_buf =
    put_colors colors (spi_index + 4) (put_color color_val spi_index spi_buf)

-- The loop over the LEDs from one on, with the rounds left.
unfoldable pub rgb_to_spi_loop : ℕ → ℕ → ℕ → List ℕ → List ℕ → List ℕ
rgb_to_spi_loop zero i spi_index rgb_buf spi_buf = spi_buf
rgb_to_spi_loop (suc rounds) i spi_index rgb_buf spi_buf =
    let r = get_or rgb_buf (i * 3) 0 in
    let g = get_or rgb_buf (i * 3 + 1) 0 in
    let b = get_or rgb_buf (i * 3 + 2) 0 in
    rgb_to_spi_loop rounds (i + 1) (spi_index + 12) rgb_buf
      (put_colors (g ∷ r ∷ b ∷ []) spi_index spi_buf)

unfoldable pub data_rgb_to_spi : ℕ → List ℕ → List ℕ → List ℕ
data_rgb_to_spi led_num rgb_buf spi_buf = rgb_to_spi_loop led_num 0 0 rgb_buf spi_buf

-- The length in bits of a transfer of the task.
abbrev pub transfer_bits : ℕ → ℕ
transfer_bits led_num = led_num * bytes_per_led * 8

-- A round of the task: the state after it, and the length in bits and the buffer of the transfer.
unfoldable pub spi_task_round : SpiState → SpiState × Option (ℕ × List ℕ)
spi_task_round s =
    if not s.init_done
    then (s, none)
    else let buf = data_rgb_to_spi s.strip.led_num s.strip.rgb_buf s.spi_buf in
      (record s { spi_buf = buf }, some (transfer_bits s.strip.led_num, buf))
