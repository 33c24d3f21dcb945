-- ===== src/Driver/Pixel/Rmt.antt =====
-- driver/pixel/pixel_driver.c, the variant for the RMT unit: its encoder.
pub mod Transfer
use agcore.Prelude.{
  ℕ, zero, suc, ◌+◌, ◌*◌, ◌/◌, List, [], ◌∷◌, ◌++◌, Bool, true, false, ltb, ◌==◌, not,
  if◌then◌else◌, bit_and, set, get_or, take, length, replicate, ◌>>>◌,
}

-- `rmt_symbol_word_t`: two levels with their times in ticks of 0.1 microseconds.
pub record Symbol : Type 0 where
  pub level0 : ℕ
  pub duration0 : ℕ
  pub level1 : ℕ
  pub duration1 : ℕ

abbrev pub ws2812b_bit0 : Symbol
ws2812b_bit0 = record { level0 = 1; duration0 = 3; level1 = 0; duration1 = 9 }

abbrev pub ws2812b_bit1 : Symbol
ws2812b_bit1 = record { level0 = 1; duration0 = 9; level1 = 0; duration1 = 3 }

abbrev pub ws2812b_reset : Symbol
ws2812b_reset = record { level0 = 0; duration0 = 250; level1 = 0; duration1 = 250 }

-- The loop over the mask, with the rounds left: `bitmask >>= 1` until it is 0.
unfoldable pub encode_bits : ℕ → ℕ → ℕ → ℕ → List Symbol → List Symbol
encode_bits zero bitmask byte symbol_pos symbols = symbols
encode_bits (suc rounds) bitmask byte symbol_pos symbols =
    encode_bits rounds (bitmask >>> 1) byte (symbol_pos + 1)
      (set symbols symbol_pos (if bit_and byte bitmask == 0 then ws2812b_bit0 else ws2812b_bit1))

-- The symbols after the callback, how many it wrote, and whether it is done.
unfoldable pub encoder_callback : List ℕ → ℕ → ℕ → List Symbol → List Symbol × ℕ × Bool
encoder_callback bytes symbols_written symbols_free symbols =
    if ltb symbols_free 8
    then (symbols, 0, false)
    else if ltb (symbols_written / 8) (length bytes)
    then (encode_bits 8 0x80 (get_or bytes (symbols_written / 8) 0) 0 symbols, 8, false)
    else (set symbols 0 ws2812b_reset, 1, true)
