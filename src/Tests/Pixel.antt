-- ===== src/Tests/Pixel.antt =====
-- driver/pixel at concrete inputs.
use agcore.Prelude.{
  ℕ, ◌*◌, ◌/◌, ◌≤◌, ◌≡◌, refl, List, [], ◌∷◌, ◌++◌, some, true, length, replicate, take, arith,
}
use agcore.Driver.Pixel.{PixelConfig, Strip, SpiState, set_led_len, copied_leds, sendata}
use agcore.Driver.Pixel.Wire.{bits_of_all, read_symbols, read_spi, IsReset}
use agcore.Driver.Pixel.Rmt.{Symbol}
use agcore.Driver.Pixel.Rmt.Transfer.{transmit, transmit_done}
use agcore.Driver.Pixel.Spi.{put_color, spi_task_round, transfer_bits, bytes_per_led}
use agcore.Driver.Pixel.Agreement.{IsBounded, pixel_IsBounded, rmt-eq-spi}

-- 0xA5 on the wire.
put_color_run : put_color 0xA5 0 (0 ∷ 0 ∷ 0 ∷ 0 ∷ []) ≡ 0xE8 ∷ 0xE8 ∷ 0x8E ∷ 0x8E ∷ []
unfolding put_color
put_color_run = refl

transmit_done_example :
    (symbols : List Symbol) × (reset : Symbol) × (transmit (0xA5 ∷ 7 ∷ []) 0 (64 ∷ 4 ∷ 8 ∷ 16 ∷ [])
      ≡ (symbols ++ reset ∷ [], true))
    × (read_symbols symbols ≡ bits_of_all (0xA5 ∷ 7 ∷ []))
    × IsReset reset
transmit_done_example =
    transmit_done (0xA5 ∷ 7 ∷ []) (64 ∷ 4 ∷ 8 ∷ 16 ∷ []) (omega arith) (omega arith)

abbrev cfg : PixelConfig
cfg = record { led_count_max = 2; default_led_num = 1 }

abbrev strip : Strip
strip = record { led_num = 1; rgb_buf = 1 ∷ 2 ∷ 3 ∷ 0 ∷ 0 ∷ 0 ∷ [] }

abbrev state : SpiState
state = record { strip = strip; spi_buf = replicate 24 0; init_done = true; drv_task = true }

rmt-eq-spi_example :
    (symbols : List Symbol) × (reset : Symbol) × (bits : ℕ) × (buf : List ℕ) × (transmit
        (2 ∷ 1 ∷ 3 ∷ [])
        0
        (8 ∷ 8 ∷ 8 ∷ 8 ∷ [])
      ≡ (symbols ++ reset ∷ [], true))
    × IsReset reset
    × ((spi_task_round state).1 ≡ some (bits, buf))
    × (read_symbols symbols ≡ read_spi (take (bits / 8) buf))
    × (read_symbols symbols ≡ bits_of_all (2 ∷ 1 ∷ 3 ∷ []))
rmt-eq-spi_example =
    rmt-eq-spi state (8 ∷ 8 ∷ 8 ∷ 8 ∷ []) refl (omega arith) (omega arith) (omega arith)

pixel_IsBounded_example :
    IsBounded cfg (sendata (9 ∷ 8 ∷ 7 ∷ []) 5 (set_led_len cfg 3 strip))
    × (copied_leds 5 (set_led_len cfg 3 strip) * 3 ≤ length (set_led_len cfg 3 strip).rgb_buf)
    × (transfer_bits (set_led_len cfg 3 strip).led_num ≤ cfg.led_count_max * bytes_per_led * 8)
pixel_IsBounded_example =
    pixel_IsBounded cfg 3 5 (9 ∷ 8 ∷ 7 ∷ []) strip (omega arith) (omega arith)
      (record { some_led = omega arith; leds = omega arith; buffer = refl })
