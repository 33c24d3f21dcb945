-- ===== src/Driver/Pixel.antt =====
-- driver/pixel/pixel_driver.c: a strip of WS2812B LEDs, by the RMT unit or by SPI.
pub mod Rmt
pub mod Spi
pub mod Wire
pub mod Agreement
use agcore.Prelude.{
  ℕ, ◌*◌, List, Option, some, none, take, replicate, ◌||◌, ◌&&◌, ltb, ◌==◌, if◌then◌else◌, store,
  Bool, true, not,
}
use agcore.Platform.{EspErr, is_ok}

-- CONFIG_LED_COUNT_MAX and CONFIG_DEFAULT_LED_NUM
pub record PixelConfig : Type 0 where
  pub led_count_max : ℕ
  pub default_led_num : ℕ

-- The statics that both variants have: g_led_num and g_ws2812b_rgb_buf.
pub record Strip : Type 0 where
  pub led_num : ℕ
  pub rgb_buf : List ℕ

module _ (cfg : PixelConfig) where
  unfoldable pub set_led_len : ℕ → Strip → Strip
  set_led_len len s =
      if (len == 0) || ltb cfg.led_count_max len
      then record s { led_num = cfg.default_led_num }
      else record s { led_num = len }

-- The number of LEDs that a call copies, and the copy of their bytes.
unfoldable pub copied_leds : ℕ → Strip → ℕ
copied_leds len s = if ltb s.led_num len then s.led_num else len

unfoldable pub sendata : List ℕ → ℕ → Strip → Strip
sendata color_data len s = record s {
  rgb_buf = store s.rgb_buf 0 (take (copied_leds len s * 3) color_data);
}

-- `memset(buf, 0, n)`
abbrev pub clear_buf : ℕ → List ℕ → List ℕ
clear_buf n buf = store buf 0 (replicate n 0)

-- The start of the RMT variant, from what its calls answer; none is an abort of ESP_ERROR_CHECK or
-- of the assertion.
unfoldable pub rmt_init :
    PixelConfig → EspErr → EspErr → EspErr → EspErr → Bool → Strip → Option Strip
rmt_init cfg channel callbacks encoder enable created s =
    if is_ok channel && (is_ok callbacks && (is_ok encoder && (is_ok enable && created)))
    then some (record s { rgb_buf = clear_buf (cfg.led_count_max * 3) s.rgb_buf })
    else none

-- The bytes that a round of the RMT task transmits.
unfoldable pub rmt_payload : Strip → List ℕ
rmt_payload s = take (s.led_num * 3) s.rgb_buf

-- The statics of the SPI variant; the task by whether it exists.
pub record SpiState : Type 0 where
  pub strip : Strip
  pub spi_buf : List ℕ
  pub init_done : Bool
  pub drv_task : Bool

-- The start of the SPI variant, from what its calls answer.
unfoldable pub spi_init : PixelConfig → EspErr → EspErr → Bool → SpiState → SpiState
spi_init cfg bus device created s =
    if not (is_ok bus) || not (is_ok device)
    then s
    else let cleared = record s {
      spi_buf = clear_buf (cfg.led_count_max * 12) s.spi_buf;
      strip = record s.strip { rgb_buf = clear_buf (cfg.led_count_max * 3) s.strip.rgb_buf };
      drv_task = s.drv_task || created;
    } in
      if cleared.drv_task then record cleared { init_done = true } else cleared
