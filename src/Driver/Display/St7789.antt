-- ===== src/Driver/Display/St7789.antt =====
-- driver/display/panel/st7789/display_st7789.c.
use agcore.Prelude.{
  ℕ, zero, suc, ◌+◌, ◌-◌, ◌*◌, ◌%◌, List, [], ◌∷◌, Option, none, some, Bool, true, false, not, ltb,
  leb, ◌==◌, if◌then◌else◌, ◌||◌, bit_or, u8, u16, u32, ◌>>>◌, set, get_or,
}
use agcore.Platform.{esp_ok, invalid_arg, invalid_state, not_supported, no_mem, is_ok}
use agcore.Driver.Display.{
  LcdCmd, swreset, slpout, noron, invon, dispon, caset, raset, ramwr, madctl, colmod, raw, tx_param,
  tx_color, gpio_config, gpio_set_level, spi_bus_initialize, new_panel_io, delay_ms, heap_malloc,
  heap_free, task_create, PanelConfig, rotation_0, rotation_90, rotation_180, rotation_270, Runtime,
  Display, Answers, Act, and_then, ◌>>◌, ignoring, if_configured, lacks_pin, with_callback,
  is_turned, unless_running, frame_bytes, call,
}

abbrev pub cmd_ramctrl : LcdCmd
cmd_ramctrl = raw 0xB0

-- `1 << 3`
abbrev pub data_little_endian_bit : ℕ
data_little_endian_bit = 8

abbrev pub positive_gamma : List ℕ
positive_gamma =
    0xD0 ∷ 0x04 ∷ 0x0D ∷ 0x11 ∷ 0x13 ∷ 0x2B ∷ 0x3F ∷ 0x54 ∷ 0x4C ∷ 0x18 ∷ 0x0D ∷ 0x0B ∷ 0x1F ∷ 0x23
    ∷ []

abbrev pub negative_gamma : List ℕ
negative_gamma =
    0xD0 ∷ 0x04 ∷ 0x0C ∷ 0x11 ∷ 0x13 ∷ 0x2C ∷ 0x3F ∷ 0x44 ∷ 0x51 ∷ 0x2F ∷ 0x1F ∷ 0x1F ∷ 0x20 ∷ 0x23
    ∷ []

-- The callbacks that the end of a transfer makes.
unfoldable pub color_trans_done : Runtime → List ℕ
color_trans_done r = elim r.flush_done_cb [ none ↦ [] | some cb ↦ cb ∷ [] ]

-- LCD_CMD_MADCTL for a direction, or none for a number that is no direction.
unfoldable pub rotation_madctl : PanelConfig → ℕ → Option ℕ
rotation_madctl cfg rotation =
    let base : ℕ = 0 in
    if rotation == rotation_0
    then some base
    else if rotation == rotation_90
    then some (bit_or base (bit_or cfg.bits.mv cfg.bits.mx))
    else if rotation == rotation_180
    then some (bit_or base (bit_or cfg.bits.mx cfg.bits.my))
    else if rotation == rotation_270
    then some (bit_or base (bit_or cfg.bits.mv cfg.bits.my))
    else none

-- What a direction that the panel has taken changes.
unfoldable pub turn : PanelConfig → ℕ → Display → Display
turn cfg rotation d =
    if is_turned rotation
    then record d {
      runtime = record d.runtime { rotation = rotation; width = cfg.height; height = cfg.width };
    }
    else record d {
      runtime = record d.runtime { rotation = rotation; width = cfg.width; height = cfg.height };
    }

abbrev pub get_rotation : Display → ℕ
get_rotation d = d.runtime.rotation

abbrev pub get_width : Display → ℕ
get_width d = d.runtime.width

abbrev pub get_height : Display → ℕ
get_height d = d.runtime.height

-- Two 16-bit ends, high bytes first.
unfoldable pub range_bytes : ℕ → ℕ → List ℕ
range_bytes a b = u8 (a >>> 8) ∷ u8 a ∷ u8 (b >>> 8) ∷ u8 b ∷ []

-- The tests of a flush on its region.
unfoldable pub is_bad_region : Display → ℕ → ℕ → ℕ → ℕ → Bool
is_bad_region d x_start y_start x_end y_end =
    leb x_end x_start
    || (leb y_end y_start || (ltb (get_width d) x_end || ltb (get_height d) y_end))

-- A turned panel has its offsets swapped.
unfoldable pub x_offset : PanelConfig → Display → ℕ
x_offset cfg d = if is_turned d.runtime.rotation then cfg.y_offset else cfg.x_offset

unfoldable pub y_offset : PanelConfig → Display → ℕ
y_offset cfg d = if is_turned d.runtime.rotation then cfg.x_offset else cfg.y_offset

unfoldable pub test_colors : List ℕ
test_colors = 0xF800 ∷ 0x07E0 ∷ 0x001F ∷ []

-- The loop of the test task over a frame, from a pixel on with the rounds left.
unfoldable pub fill_frame : ℕ → ℕ → ℕ → List ℕ → List ℕ
fill_frame zero pixel color frame_buffer = frame_buffer
fill_frame (suc rounds) pixel color frame_buffer =
    fill_frame rounds (pixel + 1) color (set frame_buffer pixel color)

module _ (cfg : PanelConfig) (answer : Answers) where
  abbrev pub write : LcdCmd → List ℕ → Act
  write command bytes = call answer (tx_param command bytes)

  -- A pin that is not there is an error.
  unfoldable pub set_level : Option ℕ → Bool → Act
  set_level none level d = (not_supported, d)
  set_level (some pin) level d = call answer (gpio_set_level pin level) d

  unfoldable pub set_backlight : Bool → Act
  set_backlight enabled =
      set_level cfg.gpio_backlight
        (if enabled then cfg.backlight_active_high else not cfg.backlight_active_high)

  unfoldable pub rotate : ℕ → Option ℕ → Act
  rotate rotation none d = (invalid_arg, d)
  rotate rotation (some m) d =
      and_then (write madctl (m ∷ []) d) (λ e. (esp_ok, turn cfg rotation e))

  unfoldable pub set_rotation : ℕ → Act
  set_rotation rotation d =
      if not d.runtime.initialized
      then (invalid_state, d)
      else rotate rotation (rotation_madctl cfg rotation) d

  -- The writes of a flush for a region inside of the screen.
  unfoldable pub send_region : ℕ → ℕ → ℕ → ℕ → List ℕ → Act
  send_region x_start y_start x_end y_end pixels d =
      let draw_w = u16 (x_end - x_start) in
      let draw_h = u16 (y_end - y_start) in
      let x0 = u16 (x_start + x_offset cfg d) in
      let x1 = u16 (x_end - 1 + x_offset cfg d) in
      let y0 = u16 (y_start + y_offset cfg d) in
      let y1 = u16 (y_end - 1 + y_offset cfg d) in
      (write caset (range_bytes x0 x1)
          >> (write raset (range_bytes y0 y1)
              >> call answer (tx_color ramwr pixels (u32 (draw_w * draw_h * 2)))))
        d

  -- The pixels are none for a null pointer.
  unfoldable pub check_region : ℕ → ℕ → ℕ → ℕ → Option (List ℕ) → Act
  check_region x_start y_start x_end y_end none d = (invalid_arg, d)
  check_region x_start y_start x_end y_end (some pixels) d =
      if is_bad_region d x_start y_start x_end y_end
      then (invalid_arg, d)
      else send_region x_start y_start x_end y_end pixels d

  unfoldable pub flush : ℕ → ℕ → ℕ → ℕ → Option (List ℕ) → Act
  unfolding check_region
  flush x_start y_start x_end y_end rgb565_data d =
      if not d.runtime.initialized
      then (invalid_state, d)
      else check_region x_start y_start x_end y_end rgb565_data d

  unfoldable pub commands_init : Act
  commands_init = do
    write (raw 0xB2) (0x0C ∷ 0x0C ∷ 0x00 ∷ 0x33 ∷ 0x33 ∷ [])
    write (raw 0xB7) (0x35 ∷ [])
    write (raw 0xBB) (0x19 ∷ [])
    write (raw 0xC0) (0x2C ∷ [])
    write (raw 0xC2) (0x01 ∷ 0xFF ∷ [])
    write (raw 0xC3) (0x12 ∷ [])
    write (raw 0xC4) (0x20 ∷ [])
    write (raw 0xC6) (0x0F ∷ [])
    write (raw 0xD0) (0xA4 ∷ 0xA1 ∷ [])
    write madctl (0 ∷ [])
    write colmod (0x55 ∷ [])
    ignoring (call answer (delay_ms 10))
    write cmd_ramctrl (0x00 ∷ u8 (bit_or 0xF0 data_little_endian_bit) ∷ [])
    write (raw 0xE0) positive_gamma
    write (raw 0xE1) negative_gamma

  unfoldable pub panel_init : Act
  panel_init = do
    write swreset []
    ignoring (call answer (delay_ms 150))
    write slpout []
    ignoring (call answer (delay_ms 120))
    commands_init
    write invon []
    write noron []
    ignoring (call answer (delay_ms 10))
    write dispon []
    ignoring (call answer (delay_ms 100))

  -- `#if`: the pin of the backlight is configured, and the light turned off.
  unfoldable pub init_backlight : Act
  init_backlight =
      if_configured cfg.gpio_backlight
        (λ pin. call answer (gpio_config pin) >> ignoring (set_backlight false))

  unfoldable pub init_bus : Act
  init_bus d = unless_running (
      call answer (spi_bus_initialize cfg.spi_host cfg.gpio_mosi cfg.gpio_sclk (frame_bytes cfg)) d)

  -- The handle is in the runtime where the call made one.
  unfoldable pub init_panel_io : Option ℕ → Act
  init_panel_io cb d =
      and_then
        (call answer
          (new_panel_io cfg.spi_host cfg.gpio_dc cfg.gpio_cs cfg.pixel_clock_hz
            (elim cb [ none ↦ false | some f ↦ true ]))
          d)
        (λ e. (esp_ok, record e { runtime = record e.runtime { panel_io = true } }))

  unfoldable pub reset_pulse : ℕ → Act
  reset_pulse pin = do
    ignoring (call answer (gpio_set_level pin false))
    ignoring (call answer (delay_ms 20))
    ignoring (call answer (gpio_set_level pin true))
    ignoring (call answer (delay_ms 120))

  unfoldable pub init_reset : Act
  init_reset = if_configured cfg.gpio_rst (λ pin. call answer (gpio_config pin) >> reset_pulse pin)

  unfoldable pub mark_initialized : Act
  mark_initialized d = (
    esp_ok,
    record d {
      runtime = record d.runtime {
        initialized = true;
        width = cfg.width;
        height = cfg.height;
        rotation = rotation_0;
      };
    },
  )

  unfoldable pub backlight_on : Act
  backlight_on = if_configured cfg.gpio_backlight (λ pin. ignoring (set_backlight true))

  unfoldable pub init_steps : Option ℕ → Act
  init_steps cb = do
    init_backlight
    init_bus
    init_panel_io cb
    init_reset
    panel_init
    mark_initialized
    backlight_on

  unfoldable pub init : Option ℕ → Act
  init cb d =
      if d.runtime.initialized
      then (invalid_state, d)
      else if lacks_pin cfg
      then (invalid_arg, d)
      else init_steps cb (with_callback cb d)

  -- One round of the test task: the colour's index and the frame buffer, before and after.
  unfoldable pub test_task_round : ℕ × List ℕ → Display → (ℕ × List ℕ) × Display
  test_task_round (color_index, frame_buffer) d =
      let frame =
        fill_frame (cfg.width * cfg.height) 0 (get_or test_colors color_index 0) frame_buffer in
      let (ret, flushed) = flush 0 0 cfg.width cfg.height (some frame) d in
      (((color_index + 1) % 3, frame), (call answer (delay_ms 1000) flushed).1)

  -- The task exists from its creation on; without it the frame buffer is freed.
  unfoldable pub create_test_task : Act
  create_test_task d =
      let (created, e) = call answer task_create d in
      if is_ok created
      then (esp_ok, record e { runtime = record e.runtime { test_task = true } })
      else (no_mem, (call answer heap_free e).1)

  unfoldable pub start_test_task : Act
  start_test_task d =
      let (made, allocated) = call answer heap_malloc d in
      if not (is_ok made) then (no_mem, allocated) else create_test_task allocated

  unfoldable pub test : Act
  test d =
      if d.runtime.test_task
      then (invalid_state, d)
      else and_then (if d.runtime.initialized then (esp_ok, d) else init none d) start_test_task
