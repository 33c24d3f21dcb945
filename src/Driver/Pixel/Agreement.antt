-- ===== src/Driver/Pixel/Agreement.antt =====
-- driver/pixel/pixel_driver.c: both variants on the wire, and the bounds of their buffers.
use agcore.Prelude.{
  ℕ, ◌*◌, ◌/◌, ◌≤◌, ◌<◌, ◌≡◌, sym, ◌∙◌, List, [], ◌∷◌, ◌++◌, true, some, length, take, length-store,
  AllBytes, arith,
}
use agcore.Driver.Pixel.{SpiState, PixelConfig, Strip, set_led_len, copied_leds, sendata}
use agcore.Driver.Pixel.Wire.{read_symbols, read_spi, bits_of_all, IsReset}
use agcore.Driver.Pixel.Rmt.{Symbol}
use agcore.Driver.Pixel.Rmt.Transfer.{transmit, rooms, transmit_done}
use agcore.Driver.Pixel.Spi.{spi_task_round, data_rgb_to_spi, transfer_bits, bytes_per_led}
use agcore.Driver.Pixel.Spi.Encoding.{
  grb_bytes, grb_bytes-AllBytes, length-grb_bytes, data_rgb_to_spi_lem,
}

-- For colours whose bytes stand in the order green, red, blue, a transfer by the RMT unit in which
-- enough calls have room puts bits on the wire, and then a reset, that are those of a round of the SPI
-- task, once that variant is initialised and where its buffer has room, for the same colours in the
-- order red, green, blue; they are the bits of the bytes in the order green, red, blue. The SPI variant
-- exchanges the first two bytes of each LED, the RMT variant does not.
pub rmt-eq-spi :
    (s : SpiState) (frees : List ℕ)
    → s.init_done ≡ true
    → AllBytes s.strip.rgb_buf
    → s.strip.led_num * 12 ≤ length s.spi_buf
    → s.strip.led_num * 3 < rooms frees
    → let grb = grb_bytes s.strip.led_num 0 s.strip.rgb_buf in
      (symbols : List Symbol) × (reset : Symbol) × (bits : ℕ) × (buf : List ℕ) × (transmit grb 0
          frees
        ≡ (symbols ++ reset ∷ [], true))
      × IsReset reset
      × ((spi_task_round s).1 ≡ some (bits, buf))
      × (read_symbols symbols ≡ read_spi (take (bits / 8) buf))
      × (read_symbols symbols ≡ bits_of_all grb)
unfolding spi_task_round
rmt-eq-spi s frees ready bytes fits room =
    let n = s.strip.led_num in
    let rgb = s.strip.rgb_buf in
    let (symbols, reset, sent, read, low) =
      transmit_done (grb_bytes n 0 rgb) frees (grb_bytes-AllBytes n 0 rgb bytes)
        (omega (arith, length-grb_bytes n 0 rgb)) in
    (
      symbols,
      reset,
      transfer_bits n,
      data_rgb_to_spi n rgb s.spi_buf,
      sent,
      low,
      ground (arith, ready),
      read ∙ sym (data_rgb_to_spi_lem n rgb s.spi_buf bytes fits).0,
      read,
    )

-- The buffers have the sizes of their declarations, and the number of LEDs fits them.
pub record IsBounded (cfg : PixelConfig) (s : Strip) : Type 0 where
  pub some_led : 0 < s.led_num
  pub leds : s.led_num ≤ cfg.led_count_max
  pub buffer : length s.rgb_buf ≡ cfg.led_count_max * 3

set_led_len-IsBounded :
    (cfg : PixelConfig) (len : ℕ) (s : Strip)
    → 0 < cfg.default_led_num
    → cfg.default_led_num ≤ cfg.led_count_max
    → IsBounded cfg s
    → IsBounded cfg (set_led_len cfg len s)
unfolding set_led_len
set_led_len-IsBounded cfg len s h k v = ground arith

-- Whatever length is set and whatever is sent afterwards, with a default that the Kconfig allows: the
-- number of LEDs stays between 1 and the maximum and the buffer keeps its size; the bytes that a call
-- copies fit the buffer; and what a round of the SPI task sends is at most the size of its buffer.
pub pixel_IsBounded :
    (cfg : PixelConfig) (len n : ℕ) (color_data : List ℕ) (s : Strip)
    → 0 < cfg.default_led_num
    → cfg.default_led_num ≤ cfg.led_count_max
    → IsBounded cfg s
    → IsBounded cfg (sendata color_data n (set_led_len cfg len s))
      × (copied_leds n (set_led_len cfg len s) * 3 ≤ length (set_led_len cfg len s).rgb_buf)
      × (transfer_bits (set_led_len cfg len s).led_num ≤ cfg.led_count_max * bytes_per_led * 8)
unfolding sendata copied_leds
pixel_IsBounded cfg len n color_data s h k v =
    let t = set_led_len cfg len s in
    let w = set_led_len-IsBounded cfg len s h k v in
    (
      record {
        some_led = w.some_led;
        leds = w.leds;
        buffer = length-store t.rgb_buf 0 _ ∙ w.buffer;
      },
      ground (arith, w.leds, w.buffer),
      omega (arith, w.leds),
    )
